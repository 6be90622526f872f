-- ===== src/Registry/Partition/Runs.antt =====
-- Any run of calls on the partition (perception/registry/partition.py and engine.py).
use unityworks_vision_ai_bac.Prelude.{
  ℕ, ◌+◌, ◌≡◌, refl, String, Bool, true, false, str_eq, List, [], ◌∷◌, Option, All, none, some,
  arith, Result, ok, raise, ◌>>=◌, ◌∙◌, ap, >>=-eq-ok,
}
use unityworks_vision_ai_bac.Registry.Lifecycle.{
  LifecyclePolicy, LifecycleState, merged_into as merged_state,
}
use unityworks_vision_ai_bac.Registry.Partition.{
  ObjectRecord, RegistryPartition, Error, init, find_record, put_record, mint, observe,
  set_lifecycle, close_bindings, open_binding, adopt, evict, bind_track,
}
use unityworks_vision_ai_bac.Registry.Partition.Merging.{
  arrived, merge_records, merge, locate, inherit, resolve,
}
use unityworks_vision_ai_bac.Registry.Partition.Forest.{IsForest, found_id}
use unityworks_vision_ai_bac.Registry.Partition.Walks.{Leads, resolve-Leads}
use unityworks_vision_ai_bac.Registry.Partition.Steps.{
  put-IsForest, closed-IsForest, closed-find, joined-IsForest, mint-IsForest, adopt-IsForest,
  evict-IsForest, close-cases, closed-find_self,
}

-- What a merge writes once the bindings of the source are closed.
abbrev write_merge :
    (source target : ObjectRecord)
    → RegistryPartition × ObjectRecord
    → Result Error RegistryPartition
write_merge source target (p', closed) = ok (record p' {
  records = put_record (inherit source target) (
      put_record (record closed { merged_into = some target.object_id; lifecycle = merged_state })
        p'.records);
  version = p'.version + 1;
})

accepted :
    (source target : ObjectRecord) (now : ℕ) (p out : RegistryPartition)
    → merge_records source target now p ≡ ok out
    → (str_eq source.object_id target.object_id ≡ false)
      × (target.merged_into ≡ none)
      × ((close_bindings now source p >>= write_merge source target) ≡ ok out)
unfolding merge_records
accepted source target now p out m = (ground arith, ground arith, ground arith)

merge_records-IsForest :
    (source target : ObjectRecord) (now : ℕ) (p out : RegistryPartition)
    → find_record source.object_id p.records ≡ some source
    → find_record target.object_id p.records ≡ some target
    → merge_records source target now p ≡ ok out
    → IsForest p.records
    → IsForest out.records
merge_records-IsForest source target now p out hs ht m f =
    let (other, root, k) = accepted source target now p out m in
    let (closed, c, e) = >>=-eq-ok (close_bindings now source p) (write_merge source target) k in
    let same = (close-cases now source p closed c).1 in
    let still = closed-find now source target.object_id p closed c other ∙ ht in
    let gone : ObjectRecord = record closed.1 {
      merged_into = some target.object_id;
      lifecycle = merged_state;
    } in
    let apart : str_eq gone.object_id target.object_id ≡ false = rw same.0 other in
    let done : put_record (inherit source target) (put_record gone closed.0.records) ≡ out.records =
      ground arith in
    rw (← done) (
      joined-IsForest gone target (inherit source target) closed.0.records still root apart refl
        root (closed-IsForest now source source.object_id p closed hs c f))

located :
    (k : String) (p : RegistryPartition) (r : ObjectRecord)
    → locate k p ≡ ok r
    → find_record k p.records ≡ some r
located k p r h = ground arith

-- A record is found by its own id.
own_id :
    (k : String) (p : RegistryPartition) (r : ObjectRecord)
    → locate k p ≡ ok r
    → find_record r.object_id p.records ≡ some r
own_id k p r h =
    let f = located k p r h in ap (λ x. find_record x p.records) (found_id k p.records r f) ∙ f

merge-IsForest :
    (source_id target_id : String) (now : ℕ) (p out : RegistryPartition)
    → merge source_id target_id now p ≡ ok out
    → IsForest p.records
    → IsForest out.records
unfolding merge
merge-IsForest source_id target_id now p out m f =
    let (source, s, m1) = >>=-eq-ok (locate source_id p) _ m in
    let (target, t, m2) = >>=-eq-ok (locate target_id p) _ m1 in
    let done : merge_records source target now p ≡ ok out = ground arith in
    merge_records-IsForest source target now p out (own_id source_id p source s)
      (own_id target_id p target t) done f

-- The calls on a partition. A call for an object names it by its id; one that raises changes nothing.
pub data Call : Type 0 where
  mint_call : (object_id : String) → (now : ℕ) → Call
  observe_call : (object_id : String) → (now : ℕ) → (measured : Bool) → Call
  lifecycle_call : (object_id : String) → LifecycleState → Call
  open_call : (object_id binding_id track_id : String) → (now : ℕ) → Option String → Call
  close_call : (object_id : String) → (now : ℕ) → Call
  merge_call : (source_id target_id : String) → (now : ℕ) → Call
  adopt_call : ObjectRecord → Call
  evict_call : (object_id : String) → Call

abbrev pub perform : Call → RegistryPartition → Result Error RegistryPartition
perform (mint_call i now) p = mint i now p >>= λ out. ok out.0
perform (observe_call i now measured) p = locate i p >>= λ r. ok (observe now measured r p)
perform (lifecycle_call i s) p = locate i p >>= λ r. ok (set_lifecycle s r p)
perform (open_call i b t now supersedes) p =
    locate i p >>= λ r. open_binding b t now supersedes r p >>= λ out. ok out.0
perform (close_call i now) p = locate i p >>= λ r. close_bindings now r p >>= λ out. ok out.0
perform (merge_call s t now) p = merge s t now p
perform (adopt_call r) p = adopt r p
perform (evict_call i) p = ok (evict i p)

-- A record that a call adopts is merged into no other.
abbrev pub AdoptsRoot : Call → Type 0
AdoptsRoot (adopt_call r) = r.merged_into ≡ none
AdoptsRoot _ = Unit {0}

abbrev pub or_unchanged : RegistryPartition → Result Error RegistryPartition → RegistryPartition
or_unchanged p (ok out) = out
or_unchanged p (raise e) = p

abbrev pub run : List Call → RegistryPartition → RegistryPartition
run [] p = p
run (c ∷ calls) p = run calls (or_unchanged p (perform c p))

open-IsForest :
    (b t : String) (now : ℕ) (supersedes : Option String) (r : ObjectRecord) (p : RegistryPartition)
    (out : RegistryPartition × ObjectRecord)
    → find_record r.object_id p.records ≡ some r
    → open_binding b t now supersedes r p ≡ ok out
    → IsForest p.records
    → IsForest out.0.records
unfolding open_binding
open-IsForest b t now supersedes r p out h o f =
    let ((p', r'), c, e) = >>=-eq-ok (close_bindings now r p) _ o in
    let bound : ObjectRecord = bind_track b t now supersedes r' in
    let same : put_record bound p'.records ≡ out.0.records = ground arith in
    rw (← same) (
      put-IsForest bound r' r'.object_id p'.records (closed-find_self now r p (p', r') h c)
        (refl, refl) (closed-IsForest now r r.object_id p (p', r') h c f))

observed-IsForest :
    (now : ℕ) (measured : Bool) (r : ObjectRecord) (k : String) (p : RegistryPartition)
    → find_record k p.records ≡ some r
    → IsForest p.records
    → IsForest (observe now measured r p).records
unfolding observe
observed-IsForest now true r k p h f = put-IsForest _ r k p.records h (refl, refl) f
observed-IsForest now false r k p h f = put-IsForest _ r k p.records h (refl, refl) f

perform-IsForest :
    (c : Call) (p out : RegistryPartition)
    → AdoptsRoot c
    → perform c p ≡ ok out
    → IsForest p.records
    → IsForest out.records
unfolding observe set_lifecycle
perform-IsForest (mint_call i now) p out roots h f =
    let (q, m, e) = >>=-eq-ok (mint i now p) _ h in
    let same : q.0 ≡ out = ground arith in rw (← same) (mint-IsForest i now p q m f)
perform-IsForest (observe_call i now measured) p out roots h f =
    let (r, l, e) = >>=-eq-ok (locate i p) _ h in
    let same : observe now measured r p ≡ out = ground arith in
    rw (← same) (observed-IsForest now measured r i p (located i p r l) f)
perform-IsForest (lifecycle_call i s) p out roots h f =
    let (r, l, e) = >>=-eq-ok (locate i p) _ h in
    let same : set_lifecycle s r p ≡ out = ground arith in
    rw (← same)
      (put-IsForest (record r { lifecycle = s }) r i p.records (located i p r l) (refl, refl) f)
perform-IsForest (open_call i b t now supersedes) p out roots h f =
    let (r, l, h1) = >>=-eq-ok (locate i p) _ h in
    let (q, o, e) = >>=-eq-ok (open_binding b t now supersedes r p) _ h1 in
    let same : q.0 ≡ out = ground arith in
    rw (← same) (open-IsForest b t now supersedes r p q (own_id i p r l) o f)
perform-IsForest (close_call i now) p out roots h f =
    let (r, l, h1) = >>=-eq-ok (locate i p) _ h in
    let (q, c, e) = >>=-eq-ok (close_bindings now r p) _ h1 in
    let same : q.0 ≡ out = ground arith in
    rw (← same) (closed-IsForest now r i p q (located i p r l) c f)
perform-IsForest (merge_call s t now) p out roots h f = merge-IsForest s t now p out h f
perform-IsForest (adopt_call r) p out root h f = adopt-IsForest r p out root h f
perform-IsForest (evict_call i) p out roots h f =
    let same : evict i p ≡ out = ground arith in rw (← same) (evict-IsForest i p f)

performed :
    (p : RegistryPartition) (r : Result Error RegistryPartition)
    → IsForest p.records
    → ((out : RegistryPartition) → r ≡ ok out → IsForest out.records)
    → IsForest (or_unchanged p r).records
performed p (ok out) f h = h out refl
performed p (raise e) f h = f

run-IsForest :
    (calls : List Call) (p : RegistryPartition)
    → All AdoptsRoot calls
    → IsForest p.records
    → IsForest (run calls p).records
run-IsForest [] p roots f = f
run-IsForest (c ∷ calls) p roots f =
    run-IsForest calls (or_unchanged p (perform c p)) roots.1
      (performed p (perform c p) f (λ out h. perform-IsForest c p out roots.0 h f))

-- However a partition was used, from an empty one on, where every record adopted from elsewhere is merged
-- into no other (as the successor that a split adopts), `resolve` ends for every object id: enough steps
-- take it to where the chain of merges leads, which is an object that is merged into no other, or nothing
-- where the id, or an object on the chain, is not held; and it never comes back to an object.
pub run-resolves :
    (calls : List Call) (camera_id : String) (policy : LifecyclePolicy) (object_id : String)
    → All AdoptsRoot calls
    → let p = run calls (init camera_id policy) in
      (n : ℕ) × (out : Option ObjectRecord) × Leads p.records (find_record object_id p.records) out
      × ((extra : ℕ) → resolve (n + extra) object_id p ≡ arrived out)
run-resolves calls camera_id policy object_id roots =
    resolve-Leads (run calls (init camera_id policy)) object_id
      (run-IsForest calls (init camera_id policy) roots (tt, λ k. 0, tt))
