-- ===== src/Tracking/Table/Identity.antt =====
-- Ids are never issued twice in an epoch, and the table stays bounded (perception/tracking/table.py).
use unityworks_vision_ai_bac.Prelude.{
  ℕ, suc, ◌+◌, ◌≤◌, ◌<◌, ◌⊎◌, ◌≡◌, refl, ap, inl, inr, List, [], ◌∷◌, ◌++◌, Option, none, some,
  length, to_list, ltb→lt, arith, ltb, ok, raise, Bool-cases,
}
use unityworks_vision_ai_bac.Tracking.Record.{TrackId, TrackRecord}
use unityworks_vision_ai_bac.Tracking.Table.{
  TrackTable, create, remove, evict_weakest, reset, spawn, Detection, Box,
}
use unityworks_vision_ai_bac.Tracking.Table.Invariant.{
  IsValid, remove-IsValid, evict-IsValid, reset-IsValid,
}
use unityworks_vision_ai_bac.Tracking.Table.Spawn.{
  Keeps, remove-SameTable, evict-SameTable, create-Keeps, full-raises, Spawned, spawn-Spawned,
}

-- A call on the table by the tracker; a creation that a full table refuses changes nothing, and a reset
-- (`GeometricTracker.reset`) goes on to the next epoch.
pub data Op : Type 0 where
  create_op : (now : ℕ) → Op
  spawn_op : Detection → (now : ℕ) → Op
  remove_op : TrackId → Op
  evict_op reset_op : Op

-- The table after the call, and the record that the call created.
unfoldable pub perform : Op → TrackTable → TrackTable × Option TrackRecord
perform (create_op now) t = elim (create t now) [ ok (t', r) ↦ (t', some r) | raise e ↦ (t, none) ]
perform (spawn_op d now) t = spawn t d now
perform (remove_op i) t = ((remove t i).0, none)
perform evict_op t = ((evict_weakest t).0, none)
perform reset_op t = ((reset t (t.epoch + 1)).0, none)

-- The calls in order, and the records that they created.
unfoldable pub run : List Op → TrackTable → TrackTable × List TrackRecord
run [] t = (t, [])
run (o ∷ ops) t =
    let (t', made) = perform o t in let (t'', later) = run ops t' in (t'', to_list made ++ later)

-- The ids of the records rise from the local id `low` of the epoch on: a later one is of a later epoch, or of
-- the same with a higher local id.
abbrev pub Rising : (epoch low : ℕ) → List TrackRecord → Type 0
Rising epoch low [] = Unit
Rising epoch low (r ∷ rs) =
    ((epoch < r.track_id.tracker_epoch)
      ⊎ ((r.track_id.tracker_epoch ≡ epoch) × (low ≤ r.track_id.local_id)))
    × Rising r.track_id.tracker_epoch (suc r.track_id.local_id) rs

-- A call goes on in the epoch or to the next.
abbrev pub GoesOn : (t t' : TrackTable) → Type 0
GoesOn t t' = (t.epoch < t'.epoch) ⊎ ((t'.epoch ≡ t.epoch) × (t.next_local_id ≤ t'.next_local_id))

Rising-grow :
    (t t' : TrackTable) (rs : List TrackRecord)
    → GoesOn t t'
    → Rising t'.epoch t'.next_local_id rs
    → Rising t.epoch t.next_local_id rs
Rising-grow t t' [] g a = tt
Rising-grow t t' (r ∷ rs) g a = (ground arith, a.1)

Rising-cons :
    (t t' : TrackTable) (r : TrackRecord) (rs : List TrackRecord)
    → Keeps t (t', some r)
    → Rising t'.epoch t'.next_local_id rs
    → Rising t.epoch t.next_local_id (r ∷ rs)
Rising-cons t t' r [] k a = (inr (ap (λ i. i.tracker_epoch) k.2, ground arith), tt)
Rising-cons t t' r (q ∷ rs) k a =
    let e : r.track_id.tracker_epoch ≡ t.epoch = ap (λ i. i.tracker_epoch) k.2 in
    let l : r.track_id.local_id ≡ t.next_local_id = ap (λ i. i.local_id) k.2 in
    (inr (e, omega arith), (ground arith, a.1))

-- What a call leaves: a valid table that goes on, and a record of the next id where it created one.
abbrev Went : TrackTable → TrackTable × Option TrackRecord → Type 0
Went t (t', none) = IsValid t' × GoesOn t t'
Went t (t', some r) = Keeps t (t', some r)

Keeps-Went : (t : TrackTable) (out : TrackTable × Option TrackRecord) → Keeps t out → Went t out
Keeps-Went t (t', none) k = (k.0, ground arith)
Keeps-Went t (t', some r) k = k

reset-GoesOn : (t : TrackTable) → GoesOn t (reset t (t.epoch + 1)).0
unfolding reset
reset-GoesOn t = inl (omega arith)

Spawned-Went :
    (b : Option Box) (t : TrackTable) (out : TrackTable × Option TrackRecord)
    → IsValid t
    → Spawned b t out
    → Went t out
Spawned-Went none t out v same = rw same (v, inr (refl, omega arith))
Spawned-Went (some box) t out v (t', r, same, k) = rw same k

perform-Went : (o : Op) (t : TrackTable) → IsValid t → Went t (perform o t)
unfolding perform
perform-Went (create_op now) t v = elim (Bool-cases (ltb (length t.records) t.max_tracks)) [
  | inl space ↦ let (t', r, e, k) = create-Keeps t now v (ltb→lt _ _ space) in rw (e, perform) k
  | inr full ↦ rw (full-raises t now (ground arith), perform) (v, inr (refl, omega arith))
]
perform-Went (spawn_op d now) t v =
    Spawned-Went d.bbox t (spawn t d now) v (spawn-Spawned t d now v)
perform-Went (remove_op i) t v =
    Keeps-Went t ((remove t i).0, none)
      (remove-IsValid t i v, (remove-SameTable t i).0, (remove-SameTable t i).1)
perform-Went evict_op t v =
    Keeps-Went t ((evict_weakest t).0, none)
      (evict-IsValid t v, (evict-SameTable t).0, (evict-SameTable t).1)
perform-Went reset_op t v = (reset-IsValid t (t.epoch + 1) v, reset-GoesOn t)

-- From a valid table, any calls leave a valid one, resets among them that go on to the next epoch as the
-- tracker's do; and the ids of the tracks that they created rise from the next id on: within an epoch, no id
-- is issued twice.
pub run-IsValid :
    (ops : List Op) (t : TrackTable)
    → IsValid t
    → IsValid (run ops t).0 × Rising t.epoch t.next_local_id (run ops t).1
unfolding run
run-IsValid [] t v = (v, tt)
run-IsValid (o ∷ ops) t v =
    go (perform o t) (perform-Went o t v) (λ w. run-IsValid ops (perform o t).0 w)
  where
    go :
        (out : TrackTable × Option TrackRecord)
        → Went t out
        → (IsValid out.0
            → IsValid (run ops out.0).0 × Rising out.0.epoch out.0.next_local_id (run ops out.0).1)
        → IsValid (run ops out.0).0
          × Rising t.epoch t.next_local_id (to_list out.1 ++ (run ops out.0).1)
    go (t', none) w rec = ((rec w.0).0, Rising-grow t t' (run ops t').1 w.1 (rec w.0).1)
    go (t', some r) k rec = ((rec k.0).0, Rising-cons t t' r (run ops t').1 k (rec k.0).1)
