-- ===== src/Tracking/Table/Eviction.antt =====
-- What `evict_weakest` (perception/tracking/table.py) drops.
use mathlib.Core.Path.{subst}
use unityworks_vision_ai_bac.Prelude.{
  ℕ, suc, ◌≤◌, ◌<◌, ◌≡◌, ◌⊎◌, ap, refl, length, some, Bool, true, false, List, [], ◌∷◌, All, In,
  arith, inl, inr, if◌then◌else◌,
}
use unityworks_vision_ai_bac.Tracking.Lifecycle.{is_state, tentative}
use unityworks_vision_ai_bac.Tracking.Record.{TrackRecord}
use unityworks_vision_ai_bac.Tracking.Table.{
  TrackTable, same_id, find_record, pop_record, remove, evict_from, evict_weakest, weaker, weakest,
}
use unityworks_vision_ai_bac.Tracking.Table.Records.{Ascending, same_id_refl}
use unityworks_vision_ai_bac.Tracking.Table.Invariant.{IsValid}

later :
    (r x : TrackRecord)
    → suc r.track_id.local_id ≤ x.track_id.local_id
    → same_id r.track_id x.track_id ≡ false
later r x h = ground arith

-- The record `v` is evicted rather than `r`, or is `r`.
abbrev pub GoesBefore : (v r : TrackRecord) → Type 0
GoesBefore v r =
    ((is_state v.state tentative ≡ true) × (is_state r.state tentative ≡ false))
    ⊎ ((is_state v.state tentative ≡ is_state r.state tentative)
        × ((r.coast_frames < v.coast_frames)
            ⊎ ((r.coast_frames ≡ v.coast_frames)
                × ((v.association_confidence < r.association_confidence)
                    ⊎ ((v.association_confidence ≡ r.association_confidence)
                        × (v.track_id.local_id ≤ r.track_id.local_id))))))

not_weaker-GoesBefore : (v r : TrackRecord) → weaker r v ≡ false → GoesBefore v r
not_weaker-GoesBefore v r h = ground arith

first-GoesBefore :
    (v : TrackRecord) (rs : List TrackRecord)
    → All (λ r. weaker r v ≡ false) rs
    → All (GoesBefore v) rs
first-GoesBefore v [] h = tt
first-GoesBefore v (r ∷ rs) h = (not_weaker-GoesBefore v r h.0, first-GoesBefore v rs h.1)

-- `weaker` is a strict weak order: what is not weaker than `b`, which is not weaker than `c`, is not
-- weaker than `c`.
not_weaker_trans :
    (a b c : TrackRecord) → weaker a b ≡ false → weaker b c ≡ false → weaker a c ≡ false
not_weaker_trans a b c h k = ground arith

weaker_asym : (a b : TrackRecord) → weaker a b ≡ true → weaker b a ≡ false
weaker_asym a b h = ground arith

weaker_irrefl : (a : TrackRecord) → weaker a a ≡ false
weaker_irrefl a = ground arith

-- The weakest of a list is in it, and no record of the list is weaker.
In-weakest : (best : TrackRecord) (rs : List TrackRecord) → In (weakest best rs) (best ∷ rs)
unfolding weakest
In-weakest best [] = inl refl
In-weakest best (r ∷ rs) = go (weaker r best) (In-weakest r rs) (In-weakest best rs)
  where
    go :
        (b : Bool)
        → In (weakest r rs) (r ∷ rs)
        → In (weakest best rs) (best ∷ rs)
        → In (weakest (if b then r else best) rs) (best ∷ r ∷ rs)
    go true h k = inr h
    go false (h) (inl e) = inl e
    go false h (inr m) = inr (inr m)

weakest-not_weaker :
    (best : TrackRecord) (rs : List TrackRecord)
    → All (λ r. weaker r (weakest best rs) ≡ false) (best ∷ rs)
unfolding weakest
weakest-not_weaker best [] = (weaker_irrefl best, tt)
weakest-not_weaker best (r ∷ rs) =
    go (weaker r best) refl (weakest-not_weaker r rs) (weakest-not_weaker best rs)
  where
    go :
        (b : Bool)
        → weaker r best ≡ b
        → All (λ x. weaker x (weakest r rs) ≡ false) (r ∷ rs)
        → All (λ x. weaker x (weakest best rs) ≡ false) (best ∷ rs)
        → All (λ x. weaker x (weakest (if b then r else best) rs) ≡ false) (best ∷ r ∷ rs)
    go true e h k = (not_weaker_trans best r (weakest r rs) (weaker_asym r best e) h.0, h)
    go false e h k = (k.0, (not_weaker_trans r best (weakest best rs) e k.0, k.1))

above_of_In :
    (x : TrackRecord) (low : ℕ) (rs : List TrackRecord)
    → Ascending low rs
    → In x rs
    → low ≤ x.track_id.local_id
above_of_In x low [] a m = absurd m
above_of_In x low (r ∷ rs) a (inl e) = rw e a.0
above_of_In x low (r ∷ rs) a (inr m) =
    omega (arith, above_of_In x (suc r.track_id.local_id) rs a.1 m)

-- Where the ids rise, a record is found under its own id.
find_of_In :
    (x : TrackRecord) (low : ℕ) (rs : List TrackRecord)
    → Ascending low rs
    → In x rs
    → find_record x.track_id rs ≡ some x
find_of_In x low [] a m = absurd m
find_of_In x low (r ∷ rs) a (inl e) = rw (e, same_id_refl r.track_id)
find_of_In x low (r ∷ rs) a (inr m) =
    rw (later r x (above_of_In x (suc r.track_id.local_id) rs a.1 m))
      (find_of_In x (suc r.track_id.local_id) rs a.1 m)

-- An eviction from a valid table that holds a track drops a track of the table to which no other is
-- preferred: it is tentative and the other is not; or they are alike in that and it has coasted longer,
-- or as long with a lower confidence, or with the same one under an id that is not younger.
pub evict_weakest-least :
    (t : TrackTable)
    → IsValid t
    → 0 < length t.records
    → (victim : TrackRecord) × ((evict_weakest t).1 ≡ some victim)
      × In victim t.records
      × All (GoesBefore victim) t.records
      × ((evict_weakest t).0.records ≡ pop_record victim.track_id t.records)
unfolding evict_weakest
evict_weakest-least t v h = go t.records refl h
  where
    go :
        (rs : List TrackRecord)
        → t.records ≡ rs
        → 0 < length rs
        → (victim : TrackRecord) × ((evict_from t rs).1 ≡ some victim)
          × In victim rs
          × All (GoesBefore victim) rs
          × ((evict_from t rs).0.records ≡ pop_record victim.track_id rs)
    go [] e h = absurd (omega arith)
    go (r ∷ rs) e h =
        let w = weakest r rs in
        let a : Ascending 0 (r ∷ rs) = subst (λ l. Ascending 0 l) e v.ascending in
        let here : find_record w.track_id t.records ≡ some w =
          rw e (find_of_In w 0 (r ∷ rs) a (In-weakest r rs)) in
        (
          w,
          rw (here, remove),
          In-weakest r rs,
          first-GoesBefore w (r ∷ rs) (weakest-not_weaker r rs),
          rw (here, remove) (ap (pop_record w.track_id) e),
        )
