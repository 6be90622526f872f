-- ===== src/Tracking/Tests.antt =====
-- Runs of the track lifecycle, its records and its table, and the theorems at concrete inputs.
use unityworks_vision_ai_bac.Prelude.{
  ℕ, ◌≡◌, refl, true, List, [], ◌∷◌, some, All, In, arith, raise, Returns,
}
use unityworks_vision_ai_bac.Tracking.Lifecycle.{
  confirmed, coasting, lost, terminated, detector_miss, occlusion, is_legal, LifecyclePolicy,
  default_policy,
}
use unityworks_vision_ai_bac.Tracking.Lifecycle.Legality.{
  on_hit_call, take_call, take_call-is_legal, is_legal-taken, Call,
}
use unityworks_vision_ai_bac.Tracking.Record.{
  TrackRecord, TrackId, new_record, Frame, matched, unmatched, follow, apply_frame,
}
use unityworks_vision_ai_bac.Tracking.Record.Counters.{IsConsistent, follow-IsConsistent}
use unityworks_vision_ai_bac.Tracking.Record.Horizon.{follow-terminates}
use unityworks_vision_ai_bac.Tracking.Table
use unityworks_vision_ai_bac.Tracking.Table.{
  TrackTable, create, spawn, start, Detection, init, next_id, evict_weakest, pop_record,
}
use unityworks_vision_ai_bac.Tracking.Table.Invariant.{IsValid}
use unityworks_vision_ai_bac.Tracking.Table.Identity.{
  Op, create_op, spawn_op, remove_op, evict_op, reset_op, Rising, run, run-IsValid,
}
use unityworks_vision_ai_bac.Tracking.Table.Eviction.{GoesBefore, evict_weakest-least}

take_call-is_legal_example :
    Returns
      (take_call default_policy lost (on_hit_call 4 9))
      (λ t. (t.previous ≡ lost) × (is_legal lost t.current ≡ true))
take_call-is_legal_example =
    take_call-is_legal default_policy lost (on_hit_call 4 9) (unfold is_legal in refl)

is_legal-taken_example :
    (c : Call) × Returns (take_call default_policy coasting c) (λ t. t.current ≡ lost)
is_legal-taken_example = is_legal-taken coasting lost (unfold is_legal in refl)

abbrev track : TrackId
track = record { camera_id = "cam-12"; tracker_epoch = 0; local_id = 0 }

abbrev seen_then_gone : List Frame
seen_then_gone =
    matched 20 900
    ∷ matched 30 900
    ∷ unmatched 40 occlusion 10
    ∷ matched 50 700
    ∷ unmatched 60 detector_miss 10
    ∷ []

abbrev same_confidence : ℕ → ℕ
same_confidence n = n

follow_runs :
    Returns
      (follow same_confidence default_policy seen_then_gone (new_record track 10))
      (λ r. (r.state ≡ coasting) × (r.hit_count ≡ 4) × (r.age_frames ≡ 6))
unfolding follow apply_frame
follow_runs = (refl, refl, refl)

follow-IsConsistent_example :
    Returns
      (follow same_confidence default_policy seen_then_gone (new_record track 10))
      (IsConsistent default_policy)
follow-IsConsistent_example =
    follow-IsConsistent same_confidence default_policy seen_then_gone (new_record track 10)
      (omega arith) refl (omega arith)

abbrev gone : List Frame
gone =
    unmatched 20 detector_miss 10
    ∷ unmatched 30 detector_miss 10
    ∷ unmatched 40 detector_miss 10
    ∷ []

abbrev short_policy : LifecyclePolicy
short_policy = record default_policy { max_coast_frames = 1; max_lost_frames = 1 }

abbrev walking : TrackRecord
walking = record (new_record track 10) { state = confirmed; age_frames = 4; hit_count = 4 }

follow-terminates_example :
    Returns (follow same_confidence short_policy gone walking) (λ r. r.state ≡ terminated)
follow-terminates_example =
    follow-terminates same_confidence short_policy gone walking (tt, (tt, (tt, tt))) refl refl
      (omega arith)

abbrev full : TrackTable
full = record {
  camera_id = "cam-12";
  epoch = 0;
  max_tracks = 1;
  next_local_id = 1;
  records = walking ∷ [];
  retired = [];
}

full-IsValid : IsValid full
full-IsValid = record {
  positive = omega arith;
  bounded = omega arith;
  issued = ((refl, refl, omega arith), tt);
  ascending = (omega arith, tt);
  retired_issued = tt;
  retired_gone = tt;
}

abbrev boxed : Detection
boxed = record { bbox = some (record { x1 = 10; y1 = 10; x2 = 20; y2 = 20 }) }

-- A confirmed track makes room for a new one.
spawn_evicts : (spawn full boxed 50).1 ≡ some (new_record (next_id full) 50)
unfolding spawn start create evict_weakest
spawn_evicts = refl

abbrev calls : List Op
calls =
    spawn_op boxed 50
    ∷ create_op 60
    ∷ remove_op (next_id full)
    ∷ evict_op
    ∷ reset_op
    ∷ create_op 70
    ∷ []

run-IsValid_example : IsValid (run calls full).0 × Rising 0 1 (run calls full).1
run-IsValid_example = run-IsValid calls full full-IsValid

evict_weakest-least_example :
    (victim : TrackRecord) × ((evict_weakest full).1 ≡ some victim)
    × In victim full.records
    × All (GoesBefore victim) full.records
    × ((evict_weakest full).0.records ≡ pop_record victim.track_id full.records)
evict_weakest-least_example = evict_weakest-least full full-IsValid (omega arith)

init_refuses : init "cam-12" 0 0 32 ≡ raise Table.value_error
unfolding init
init_refuses = refl
