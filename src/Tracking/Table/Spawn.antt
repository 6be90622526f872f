-- ===== src/Tracking/Table/Spawn.antt =====
-- Starting a track (`GeometricTracker._spawn`): on a valid table it always succeeds, by an eviction where
-- the table is full.
use unityworks_vision_ai_bac.Prelude.{
  ℕ, ◌+◌, ◌≤◌, ◌<◌, ◌≡◌, refl, ap, ◌∙◌, inl, inr, Bool, true, false, List, [], ◌∷◌, Option, none,
  some, length, ltb→lt, arith, ltb, if◌then◌else◌, ok, raise, Returns-value, Bool-cases,
}
use unityworks_vision_ai_bac.Tracking.Record.{TrackId, TrackRecord}
use unityworks_vision_ai_bac.Tracking.Table.{
  TrackTable, same_id, has_record, find_record, next_id, create, remove, weaker, tracker_capacity,
  weakest, evict_from, evict_weakest, start, spawn, retry, Box, Detection,
}
use unityworks_vision_ai_bac.Tracking.Table.Records.{same_id_refl, length-pop}
use unityworks_vision_ai_bac.Tracking.Table.Invariant.{IsValid, create-IsValid, evict-IsValid}

-- What a call that may create a record leaves: a valid table of the same camera, epoch and bound, and
-- a created record under the next id.
abbrev pub SameTable : TrackTable → TrackTable → Type 0
SameTable t t' =
    (t'.camera_id ≡ t.camera_id) × (t'.epoch ≡ t.epoch) × (t'.max_tracks ≡ t.max_tracks)

abbrev pub Keeps : TrackTable → TrackTable × Option TrackRecord → Type 0
Keeps t (t', none) = IsValid t' × SameTable t t' × (t'.next_local_id ≡ t.next_local_id)
Keeps t (t', some r) =
    IsValid t'
    × SameTable t t'
    × (r.track_id ≡ next_id t)
    × (t'.next_local_id ≡ t.next_local_id + 1)

pub remove-SameTable :
    (t : TrackTable) (i : TrackId)
    → SameTable t (remove t i).0 × ((remove t i).0.next_local_id ≡ t.next_local_id)
unfolding remove
remove-SameTable t i = ground arith

pub evict-SameTable :
    (t : TrackTable)
    → SameTable t (evict_weakest t).0 × ((evict_weakest t).0.next_local_id ≡ t.next_local_id)
unfolding evict_weakest
evict-SameTable t = go t.records
  where
    go :
        (rs : List TrackRecord)
        → SameTable t (evict_from t rs).0 × ((evict_from t rs).0.next_local_id ≡ t.next_local_id)
    go [] = ((refl, refl, refl), refl)
    go (r ∷ rs) = remove-SameTable t (weakest r rs).track_id

create-SameTable :
    (t : TrackTable) (now : ℕ) {out : TrackTable × TrackRecord}
    → create t now ≡ ok out
    → SameTable t out.0
unfolding create
create-SameTable t now h = ground arith

-- With room in the table, `create` succeeds.
pub create-Keeps :
    (t : TrackTable) (now : ℕ)
    → IsValid t
    → length t.records < t.max_tracks
    → (t' : TrackTable) × (r : TrackRecord) × (create t now ≡ ok (t', r)) × Keeps t (t', some r)
unfolding create
create-Keeps t now v h =
    let (out, e, (v', _, i, n)) = Returns-value (create t now) (create-IsValid t now v h) in
    (out.0, out.1, e, (v', create-SameTable t now e, i, n))

pub full-raises :
    (t : TrackTable) (now : ℕ)
    → t.max_tracks ≤ length t.records
    → create t now ≡ raise tracker_capacity
unfolding create
full-raises t now h = ground arith

has_record-cons :
    (i : TrackId) (s : TrackRecord) (rs : List TrackRecord)
    → has_record i rs ≡ true
    → has_record i (s ∷ rs) ≡ true
has_record-cons i s rs h = ground arith

has_record-skip :
    (i : TrackId) (s r : TrackRecord) (rs : List TrackRecord)
    → has_record i (s ∷ rs) ≡ true
    → has_record i (s ∷ r ∷ rs) ≡ true
has_record-skip i s r rs h = ground arith

-- The weakest of the records is one of them.
has_record-weakest :
    (best : TrackRecord) (rs : List TrackRecord)
    → has_record (weakest best rs).track_id (best ∷ rs) ≡ true
unfolding weakest
has_record-weakest best [] = ground (arith, same_id_refl best.track_id)
has_record-weakest best (r ∷ rs) =
    go (weaker r best) (has_record-weakest r rs) (has_record-weakest best rs)
  where
    go :
        (b : Bool)
        → has_record (weakest r rs).track_id (r ∷ rs) ≡ true
        → has_record (weakest best rs).track_id (best ∷ rs) ≡ true
        → has_record (weakest (if b then r else best) rs).track_id (best ∷ r ∷ rs) ≡ true
    go true h k = has_record-cons (weakest r rs).track_id best (r ∷ rs) h
    go false h k = has_record-skip (weakest best rs).track_id best r rs k

find_of_has :
    (i : TrackId) (rs : List TrackRecord)
    → has_record i rs ≡ true
    → (r : TrackRecord) × (find_record i rs ≡ some r)
find_of_has i [] h = absurd (cc)
find_of_has i (r ∷ rs) h = elim (Bool-cases (same_id r.track_id i)) [
  | inl e ↦ (r, rw e)
  | inr e ↦ rw e (find_of_has i rs (ground arith))
]

-- A table that is not empty loses one record to an eviction.
evict-some :
    (t : TrackTable)
    → 0 < length t.records
    → (victim : TrackRecord) × ((evict_weakest t).1 ≡ some victim)
      × (length (evict_weakest t).0.records + 1 ≡ length t.records)
unfolding evict_weakest
evict-some t h = go t.records refl h
  where
    go :
        (rs : List TrackRecord)
        → t.records ≡ rs
        → 0 < length rs
        → (victim : TrackRecord) × ((evict_from t rs).1 ≡ some victim)
          × (length (evict_from t rs).0.records + 1 ≡ length rs)
    go [] e h = absurd (omega arith)
    go (r ∷ rs) e h =
        let (x, found) = find_of_has (weakest r rs).track_id (r ∷ rs) (has_record-weakest r rs) in
        let here : find_record (weakest r rs).track_id t.records ≡ some x = rw e found in
        (
          x,
          rw (here, remove),
          rw (here, remove)
              (omega (arith, length-pop (weakest r rs).track_id t.records x here, ap length e)),
        )

retry-Keeps :
    (t : TrackTable) (now : ℕ) (t' : TrackTable) (victim : TrackRecord)
    → IsValid t'
    → SameTable t t'
    → t'.next_local_id ≡ t.next_local_id
    → length t'.records < t'.max_tracks
    → (t'' : TrackTable) × (r : TrackRecord) × (retry now (t', some victim) ≡ (t'', some r))
      × Keeps t (t'', some r)
unfolding retry
retry-Keeps t now t' victim v same n h =
    let (t'', r, e, k) = create-Keeps t' now v h in
    (t'', r, rw (e, retry), (k.0, ground arith, ground arith, ground arith))

start-Keeps :
    (t : TrackTable) (now : ℕ)
    → IsValid t
    → (t' : TrackTable) × (r : TrackRecord) × (start t now ≡ (t', some r)) × Keeps t (t', some r)
unfolding start
start-Keeps t now v = elim (Bool-cases (ltb (length t.records) t.max_tracks)) [
  | inl space ↦
      let (t', r, e, k) = create-Keeps t now v (ltb→lt _ _ space) in (t', r, rw (e, start), k)
  | inr full ↦
      let (victim, e, l) = evict-some t (ground arith) in
      let (t', r, e', k) =
        retry-Keeps t now (evict_weakest t).0 victim (evict-IsValid t v) (evict-SameTable t).0
          (evict-SameTable t).1 (ground (arith, evict-SameTable t)) in
      (
        t',
        r,
        rw (full-raises t now (ground arith), start)
            (ap (retry now) (λ i. ((evict_weakest t).0, e i)) ∙ e'),
        k,
      )
]

-- What a detection leads to: nothing without a box, a track of the next id with one.
abbrev pub Spawned : Option Box → TrackTable → TrackTable × Option TrackRecord → Type 0
Spawned none t out = out ≡ (t, none)
Spawned (some box) t out =
    (t' : TrackTable) × (r : TrackRecord) × (out ≡ (t', some r)) × Keeps t (t', some r)

pub spawn-Spawned :
    (t : TrackTable) (d : Detection) (now : ℕ) → IsValid t → Spawned d.bbox t (spawn t d now)
unfolding spawn
spawn-Spawned t d now v = go d.bbox
  where
    go : (b : Option Box) → Spawned b t (elim b [ none ↦ (t, none) | some box ↦ start t now ])
    go none = refl
    go (some box) = start-Keeps t now v
