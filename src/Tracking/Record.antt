-- ===== src/Tracking/Record.antt =====
-- What a tracker keeps of one track (perception/tracking/table.py, `TrackRecord`), and what
-- adapters/tracking/geometric.py does to it in a frame with a match and in one without. Boxes, motion
-- models and histories are left out: nothing here reads them. A confidence is a whole number on a
-- fixed scale; how a cost becomes one, and how one decays, are parameters.
pub mod Counters
pub mod Horizon
use unityworks_vision_ai_bac.Prelude.{
  ℕ, ◌+◌, String, List, [], ◌∷◌, Result, ok, ◌>>=◌, if◌then◌else◌,
}
use unityworks_vision_ai_bac.Tracking.Lifecycle.{
  TrackState, tentative, BreakReason, unbroken, Error, LifecyclePolicy, Transition, is_terminal,
  on_hit, on_miss,
}

pub record TrackId : Type 0 where
  pub camera_id : String
  pub tracker_epoch : ℕ
  pub local_id : ℕ

pub record TrackRecord : Type 0 where
  pub track_id : TrackId
  pub state : TrackState
  pub first_seen : ℕ
  pub last_seen : ℕ
  pub last_updated : ℕ
  pub age_frames : ℕ
  pub hit_count : ℕ
  pub coast_frames : ℕ
  pub since_measurement_ns : ℕ
  pub association_confidence : ℕ
  pub break_reason : BreakReason

-- The record that `TrackTable.create` builds.
abbrev pub new_record : TrackId → ℕ → TrackRecord
new_record track_id now = record {
  track_id = track_id;
  state = tentative;
  first_seen = now;
  last_seen = now;
  last_updated = now;
  age_frames = 1;
  hit_count = 1;
  coast_frames = 0;
  since_measurement_ns = 0;
  association_confidence = 0;
  break_reason = unbroken;
}

-- `GeometricTracker._on_hit`, with the confidence of the match.
unfoldable pub record_hit :
    LifecyclePolicy → TrackRecord → (now confidence : ℕ) → Result Error (TrackRecord × Transition)
unfolding on_hit
record_hit policy r now confidence = do
  transition ← on_hit policy r.state (r.hit_count + 1) (r.age_frames + 1)
  ok (
    record r {
      age_frames = r.age_frames + 1;
      hit_count = r.hit_count + 1;
      state = transition.current;
      last_seen = now;
      last_updated = now;
      break_reason = unbroken;
      coast_frames = 0;
      since_measurement_ns = 0;
      association_confidence = confidence;
    },
    transition,
  )

-- `GeometricTracker._on_miss`, with the decay of the confidence.
unfoldable pub record_miss :
    (ℕ → ℕ)
    → LifecyclePolicy
    → TrackRecord
    → (now : ℕ) → BreakReason
    → (elapsed : ℕ) → Result Error (TrackRecord × Transition)
unfolding on_miss
record_miss decay policy r now break_reason elapsed = do
  transition ←
      on_miss policy r.state (r.coast_frames + 1) (r.age_frames + 1) break_reason
        (r.since_measurement_ns + elapsed)
  ok (
    record r {
      age_frames = r.age_frames + 1;
      coast_frames = r.coast_frames + 1;
      since_measurement_ns = r.since_measurement_ns + elapsed;
      state = transition.current;
      last_updated = now;
      break_reason = transition.break_reason;
      association_confidence = decay r.association_confidence;
    },
    transition,
  )

-- One frame, as `GeometricTracker._apply` sees it for one record: a detection was matched to it, with
-- this confidence, or none was.
pub data Frame : Type 0 where
  matched : (now confidence : ℕ) → Frame
  unmatched : (now : ℕ) → BreakReason → (elapsed : ℕ) → Frame

module _ (decay : ℕ → ℕ) (policy : LifecyclePolicy) where
  unfoldable pub apply_frame : Frame → TrackRecord → Result Error (TrackRecord × Transition)
  unfolding record_hit record_miss
  apply_frame (matched now confidence) r = record_hit policy r now confidence
  apply_frame (unmatched now break_reason elapsed) r =
      record_miss decay policy r now break_reason elapsed

  -- The frames of a track, from its creation on. A terminal transition takes it off the table.
  unfoldable pub follow : List Frame → TrackRecord → Result Error TrackRecord
  follow [] r = ok r
  follow (f ∷ frames) r = do
    (r', transition) ← apply_frame f r
    let rest = follow frames r'
    if is_terminal transition then ok r' else rest
