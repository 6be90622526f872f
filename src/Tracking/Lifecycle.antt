-- ===== src/Tracking/Lifecycle.antt =====
-- vision_os/perception/tracking/lifecycle.py: the closed state machine of a track. `on_hit`,
-- `on_miss` and `terminate` raise on a terminated track; `move` is `_to`, whose table check raises
-- on an edge outside the table.
pub mod Legality
use unityworks_vision_ai_bac.Prelude.{
  ℕ, ◌-◌, Bool, true, false, ◌&&◌, ◌||◌, not, any, ltb, leb, ◌==◌, if◌then◌else◌, List, [], ◌∷◌,
  Result, ok, raise, ◌>>◌,
}

-- `TrackState` of core/model/track.py.
pub data TrackState : Type 0 where
  tentative confirmed coasting lost terminated : TrackState

pub data BreakReason : Type 0 where
  unbroken occlusion exit detector_miss association_failure epoch_reset : BreakReason

pub data TransitionReason : Type 0 where
  created hit confirmation_met miss recovered coast_exceeded lost_window_expired max_age_exceeded
        left_frame reset capacity_evicted ambiguous_association :
      TransitionReason

-- The identity test `a is b` on the members of the enumeration.
abbrev pub is_state : TrackState → TrackState → Bool
is_state tentative tentative = true
is_state confirmed confirmed = true
is_state coasting coasting = true
is_state lost lost = true
is_state terminated terminated = true
is_state _ _ = false

abbrev pub is_alive : TrackState → Bool
is_alive s = not (is_state s terminated)

abbrev pub is_predicted : TrackState → Bool
is_predicted s = is_state s coasting || is_state s lost

-- `_ALLOWED`.
abbrev pub allowed : List (TrackState × TrackState)
allowed =
    (tentative, tentative)
    ∷ (tentative, confirmed)
    ∷ (tentative, terminated)
    ∷ (confirmed, confirmed)
    ∷ (confirmed, coasting)
    ∷ (confirmed, terminated)
    ∷ (coasting, confirmed)
    ∷ (coasting, coasting)
    ∷ (coasting, lost)
    ∷ (coasting, terminated)
    ∷ (lost, confirmed)
    ∷ (lost, lost)
    ∷ (lost, terminated)
    ∷ []

unfoldable pub is_legal : TrackState → TrackState → Bool
is_legal previous current = any (λ (p, c). is_state p previous && is_state c current) allowed

-- The constructor of a policy raises on a field outside its range.
pub data Error : Type 0 where
  illegal_transition value_error : Error

pub record LifecyclePolicy : Type 0 where
  pub min_hits_to_confirm : ℕ
  pub max_coast_frames : ℕ
  pub max_lost_frames : ℕ
  pub max_age_frames : ℕ
  pub max_tracks_per_camera : ℕ
  pub max_unmeasured_ns : ℕ

abbrev pub default_policy : LifecyclePolicy
default_policy = record {
  min_hits_to_confirm = 3;
  max_coast_frames = 5;
  max_lost_frames = 15;
  max_age_frames = 36_000;
  max_tracks_per_camera = 256;
  max_unmeasured_ns = 30_000_000_000;
}

-- `__post_init__`; the tests for a negative number of frames cannot fail on ℕ.
unfoldable pub check_policy : LifecyclePolicy → Result Error LifecyclePolicy
check_policy p =
    if ltb p.min_hits_to_confirm 1
    then raise value_error
    else if ltb p.max_age_frames 1
    then raise value_error
    else if ltb p.max_tracks_per_camera 1
    then raise value_error
    else ok p

pub record Transition : Type 0 where
  pub previous : TrackState
  pub current : TrackState
  pub reason : TransitionReason
  pub break_reason : BreakReason

abbrev pub changed : Transition → Bool
changed t = not (is_state t.previous t.current)

abbrev pub is_recovery : Transition → Bool
is_recovery t = elim t.reason [ recovered ↦ true | _ ↦ false ]

abbrev pub is_terminal : Transition → Bool
is_terminal t = is_state t.current terminated

unfoldable pub check_transition : TrackState → TrackState → Result Error (Unit {0})
unfolding is_legal
check_transition previous current =
    if not (is_legal previous current) then raise illegal_transition else ok tt

-- `_to`: the break reason is kept unless the track is confirmed.
unfoldable pub move :
    TrackState → TrackState → TransitionReason → BreakReason → Result Error Transition
unfolding check_transition
move previous current reason break_reason = do
  check_transition previous current
  ok (record {
    previous = previous;
    current = current;
    reason = reason;
    break_reason = if not (is_state current confirmed) then break_reason else unbroken;
  })

module _ (policy : LifecyclePolicy) where
  unfoldable pub on_hit : TrackState → ℕ → ℕ → Result Error Transition
  unfolding move
  on_hit state hit_count age_frames =
      if is_state state terminated
      then raise illegal_transition
      else if leb policy.max_age_frames age_frames
      then move state terminated max_age_exceeded unbroken
      else if is_state state coasting || is_state state lost
      then move state confirmed recovered unbroken
      else if is_state state tentative
      then if leb policy.min_hits_to_confirm hit_count
        then move state confirmed confirmation_met unbroken
        else move state tentative hit unbroken
      else move state confirmed hit unbroken

  -- The rules for each state, once the two ceilings have been checked. The last is for LOST:
  -- `coast_frames - max_coast_frames` exceeds a bound in ℕ exactly when it does in the integers.
  unfoldable pub on_miss_by_state : TrackState → ℕ → BreakReason → Result Error Transition
  unfolding move
  on_miss_by_state state coast_frames break_reason =
      if is_state state tentative
      then move state terminated miss break_reason
      else if is_state state confirmed
      then if policy.max_coast_frames == 0
        then move state terminated coast_exceeded break_reason
        else move state coasting miss break_reason
      else if is_state state coasting
      then if ltb policy.max_coast_frames coast_frames
        then if policy.max_lost_frames == 0
          then move state terminated coast_exceeded break_reason
          else move state lost coast_exceeded break_reason
        else move state coasting miss break_reason
      else if ltb policy.max_lost_frames (coast_frames - policy.max_coast_frames)
      then move state terminated lost_window_expired break_reason
      else move state lost miss break_reason

  unfoldable pub on_miss : TrackState → ℕ → ℕ → BreakReason → ℕ → Result Error Transition
  unfolding on_miss_by_state
  on_miss state coast_frames age_frames break_reason since_measurement_ns =
      if is_state state terminated
      then raise illegal_transition
      else if ltb 0 policy.max_unmeasured_ns
          && not (is_state state tentative)
          && leb policy.max_unmeasured_ns since_measurement_ns
      then move state terminated lost_window_expired break_reason
      else if leb policy.max_age_frames age_frames
      then move state terminated max_age_exceeded break_reason
      else on_miss_by_state state coast_frames break_reason

unfoldable pub terminate : TrackState → TransitionReason → BreakReason → Result Error Transition
unfolding move
terminate state reason break_reason =
    if is_state state terminated
    then raise illegal_transition
    else move state terminated reason break_reason
