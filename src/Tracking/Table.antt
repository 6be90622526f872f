-- ===== src/Tracking/Table.antt =====
-- vision_os/perception/tracking/table.py: the bounded table of one camera's tracks. The dictionary of
-- the records is the list of its values in the order of insertion, each under its own `track_id`.
pub mod Records
pub mod Invariant
pub mod Spawn
pub mod Identity
pub mod Eviction
use unityworks_vision_ai_bac.Prelude.{
  ℕ, ◌+◌, String, Bool, true, false, not, ◌&&◌, ltb, leb, ◌==◌, str_eq, if◌then◌else◌, any, length,
  List, [], ◌∷◌, ◌++◌, Option, none, some, Result, ok, raise,
}
use unityworks_vision_ai_bac.Tracking.Lifecycle.{is_state, tentative}
use unityworks_vision_ai_bac.Tracking.Record.{TrackId, TrackRecord, new_record}

pub record TrackTable : Type 0 where
  pub camera_id : String
  pub epoch : ℕ
  pub max_tracks : ℕ
  pub next_local_id : ℕ
  pub records : List TrackRecord
  pub retired : List TrackId

pub data Error : Type 0 where
  value_error tracker_capacity : Error

abbrev pub same_id : TrackId → TrackId → Bool
same_id a b =
    str_eq a.camera_id b.camera_id && a.tracker_epoch == b.tracker_epoch && a.local_id == b.local_id

-- `__init__`.
unfoldable pub init : String → (epoch max_tracks history_length : ℕ) → Result Error TrackTable
init camera_id epoch max_tracks history_length =
    if ltb max_tracks 1
    then raise value_error
    else if ltb history_length 1
    then raise value_error
    else ok (record {
      camera_id = camera_id;
      epoch = epoch;
      max_tracks = max_tracks;
      next_local_id = 0;
      records = [];
      retired = [];
    })

-- `__contains__`, `get` and `was_retired`.
abbrev pub has_record : TrackId → List TrackRecord → Bool
has_record i rs = any (λ r. same_id r.track_id i) rs

abbrev pub find_record : TrackId → List TrackRecord → Option TrackRecord
find_record i [] = none
find_record i (r ∷ rs) = if same_id r.track_id i then some r else find_record i rs

abbrev pub was_retired : TrackTable → TrackId → Bool
was_retired t i = any (λ j. same_id j i) t.retired

-- The assignment `records[record.track_id] = record`.
abbrev pub put_record : TrackRecord → List TrackRecord → List TrackRecord
put_record r [] = r ∷ []
put_record r (s ∷ rs) =
    let rest = put_record r rs in if same_id s.track_id r.track_id then r ∷ rs else s ∷ rest

-- `records.pop(track_id, None)`, for the records that stay.
abbrev pub pop_record : TrackId → List TrackRecord → List TrackRecord
pop_record i [] = []
pop_record i (r ∷ rs) = let rest = pop_record i rs in if same_id r.track_id i then rs else r ∷ rest

abbrev pub next_id : TrackTable → TrackId
next_id t = record { camera_id = t.camera_id; tracker_epoch = t.epoch; local_id = t.next_local_id }

unfoldable pub create : TrackTable → (now : ℕ) → Result Error (TrackTable × TrackRecord)
create t now =
    if leb t.max_tracks (length t.records)
    then raise tracker_capacity
    else let r = new_record (next_id t) now in
      ok (record t { next_local_id = t.next_local_id + 1; records = put_record r t.records }, r)

unfoldable pub remove : TrackTable → TrackId → TrackTable × Option TrackRecord
remove t i = elim (find_record i t.records) [
  | none ↦ (t, none)
  | some r ↦ (
    record t {
      records = pop_record i t.records;
      retired = if was_retired t i then t.retired else i ∷ t.retired;
    },
    some r,
  )
]

-- The order of the keys in `evict_weakest`: tentative first, then the longest coasting, then the
-- lowest confidence, then the oldest id.
abbrev pub weaker : TrackRecord → TrackRecord → Bool
weaker a b =
    let ta = is_state a.state tentative in
    let tb = is_state b.state tentative in
    if ta && not tb
    then true
    else if tb && not ta
    then false
    else if ltb b.coast_frames a.coast_frames
    then true
    else if ltb a.coast_frames b.coast_frames
    then false
    else if ltb a.association_confidence b.association_confidence
    then true
    else if ltb b.association_confidence a.association_confidence
    then false
    else ltb a.track_id.local_id b.track_id.local_id

-- `min` over the records: the first of the weakest.
unfoldable pub weakest : TrackRecord → List TrackRecord → TrackRecord
weakest best [] = best
weakest best (r ∷ rs) = weakest (if weaker r best then r else best) rs

unfoldable pub evict_from : TrackTable → List TrackRecord → TrackTable × Option TrackRecord
unfolding weakest remove
evict_from t [] = (t, none)
evict_from t (r ∷ rs) = remove t (weakest r rs).track_id

unfoldable pub evict_weakest : TrackTable → TrackTable × Option TrackRecord
unfolding evict_from
evict_weakest t = evict_from t t.records

-- The discarded records come back in the order of insertion, which is that of their ids.
unfoldable pub reset : TrackTable → (epoch : ℕ) → TrackTable × List TrackRecord
reset t epoch =
    (record t { records = []; retired = []; epoch = epoch; next_local_id = 0 }, t.records)

-- What `_spawn` reads of a detection. A box is in millionths of the frame.
pub record Box : Type 0 where
  pub x1 : ℕ
  pub y1 : ℕ
  pub x2 : ℕ
  pub y2 : ℕ

pub record Detection : Type 0 where
  pub bbox : Option Box

-- `GeometricTracker._spawn` (adapters/tracking/geometric.py): a detection without a box starts nothing; a
-- full table drops its weakest track and the creation is tried once more. The box of the record, its class
-- and its tenancy are left out.
retry : (now : ℕ) → TrackTable × Option TrackRecord → TrackTable × Option TrackRecord
retry now (t, none) = (t, none)
retry now (t, some victim) = elim (create t now) [ ok (t', r) ↦ (t', some r) | raise e ↦ (t, none) ]

unfoldable pub start : TrackTable → (now : ℕ) → TrackTable × Option TrackRecord
unfolding retry
start t now = elim (create t now) [
  | ok (t', r) ↦ (t', some r)
  | raise e ↦ retry now (evict_weakest t)
]

unfoldable pub spawn : TrackTable → Detection → (now : ℕ) → TrackTable × Option TrackRecord
unfolding start
spawn t d now = elim d.bbox [ none ↦ (t, none) | some box ↦ start t now ]
