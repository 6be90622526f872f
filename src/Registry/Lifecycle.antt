-- ===== src/Registry/Lifecycle.antt =====
-- vision_os/perception/registry/lifecycle.py: the closed state machine of an object. Times are in
-- nanoseconds; `move` is `_to`, whose table check raises on an edge outside the table.
pub mod Legality
use unityworks_vision_ai_bac.Prelude.{
  ℕ, Bool, true, false, ◌||◌, ◌&&◌, not, any, ltb, leb, if◌then◌else◌, List, [], ◌∷◌, Result, ok,
  raise, ◌>>◌,
}

-- `LifecycleState` of core/model/visual_object.py.
pub data LifecycleState : Type 0 where
  provisional active occluded dormant departed merged_into expired : LifecycleState

pub data LifecycleTrigger : Type 0 where
  first_detections confirmation_met never_confirmed measurement_lost reassociated occlusion_passed
        left_field_of_view re_entry_matched departure_passed identity_resolution retention_passed
        population_shed :
      LifecycleTrigger

-- The identity test `a is b` on the members of the enumeration.
abbrev pub is_state : LifecycleState → LifecycleState → Bool
is_state provisional provisional = true
is_state active active = true
is_state occluded occluded = true
is_state dormant dormant = true
is_state departed departed = true
is_state merged_into merged_into = true
is_state expired expired = true
is_state _ _ = false

abbrev pub is_terminal : LifecycleState → Bool
is_terminal s = is_state s merged_into || is_state s expired

abbrev pub is_present : LifecycleState → Bool
is_present s = is_state s provisional || is_state s active || is_state s occluded

-- `_ALLOWED`.
abbrev pub allowed : List (LifecycleState × LifecycleState)
allowed =
    (provisional, provisional)
    ∷ (provisional, active)
    ∷ (provisional, expired)
    ∷ (active, active)
    ∷ (active, occluded)
    ∷ (active, dormant)
    ∷ (active, merged_into)
    ∷ (occluded, occluded)
    ∷ (occluded, active)
    ∷ (occluded, dormant)
    ∷ (dormant, dormant)
    ∷ (dormant, active)
    ∷ (dormant, departed)
    ∷ (dormant, merged_into)
    ∷ (departed, departed)
    ∷ (departed, expired)
    ∷ []

unfoldable pub is_legal : LifecycleState → LifecycleState → Bool
is_legal previous current = any (λ (p, c). is_state p previous && is_state c current) allowed

pub data Error : Type 0 where
  illegal_transition value_error : Error

pub record LifecyclePolicy : Type 0 where
  pub min_observations_to_confirm : ℕ
  pub provisional_horizon : ℕ
  pub occlusion_horizon : ℕ
  pub dormant_horizon : ℕ
  pub retention_horizon : ℕ
  pub max_objects_per_camera : ℕ

abbrev pub default_policy : LifecyclePolicy
default_policy = record {
  min_observations_to_confirm = 3;
  provisional_horizon = 3_000_000_000;
  occlusion_horizon = 10_000_000_000;
  dormant_horizon = 120_000_000_000;
  retention_horizon = 600_000_000_000;
  max_objects_per_camera = 512;
}

-- `__post_init__`.
unfoldable pub check_policy : LifecyclePolicy → Result Error LifecyclePolicy
check_policy p =
    if ltb p.min_observations_to_confirm 1
    then raise value_error
    else if any (λ horizon. leb horizon 0)
        (p.provisional_horizon ∷ p.occlusion_horizon ∷ p.dormant_horizon ∷ p.retention_horizon ∷ [])
    then raise value_error
    else if ltb p.max_objects_per_camera 1
    then raise value_error
    else ok p

pub record LifecycleTransition : Type 0 where
  pub previous : LifecycleState
  pub current : LifecycleState
  pub trigger : LifecycleTrigger

abbrev pub changed : LifecycleTransition → Bool
changed t = not (is_state t.previous t.current)

unfoldable pub check_transition : LifecycleState → LifecycleState → Result Error (Unit {0})
unfolding is_legal
check_transition previous current =
    if not (is_legal previous current) then raise illegal_transition else ok tt

-- `_to`.
unfoldable pub move :
    LifecycleState → LifecycleState → LifecycleTrigger → Result Error LifecycleTransition
unfolding check_transition
move previous current trigger =
    check_transition previous current
    >> ok (record { previous = previous; current = current; trigger = trigger })

-- `_reject_terminal`.
abbrev pub reject_terminal : LifecycleState → Result Error (Unit {0})
reject_terminal s = if is_terminal s then raise illegal_transition else ok tt

unfoldable pub on_measured :
    LifecyclePolicy → LifecycleState → (observation_count : ℕ) → Result Error LifecycleTransition
unfolding move
on_measured policy state observation_count =
    reject_terminal state
    >> (if is_state state provisional
        then if leb policy.min_observations_to_confirm observation_count
          then move state active confirmation_met
          else move state provisional first_detections
        else if is_state state occluded
        then move state active reassociated
        else if is_state state dormant
        then move state active re_entry_matched
        else if is_state state departed
        then raise illegal_transition
        else move state active confirmation_met)

unfoldable pub on_unmeasured :
    LifecyclePolicy
    → LifecycleState
    → (since_confirmed : ℕ) → (left : Bool) → Result Error LifecycleTransition
unfolding move
on_unmeasured policy state since_confirmed left =
    reject_terminal state
    >> (if is_state state provisional
        then if leb policy.provisional_horizon since_confirmed
          then move state expired never_confirmed
          else move state provisional first_detections
        else if is_state state active
        then if left
          then move state dormant left_field_of_view
          else move state occluded measurement_lost
        else if is_state state occluded
        then if leb policy.occlusion_horizon since_confirmed
          then move state dormant occlusion_passed
          else move state occluded measurement_lost
        else if is_state state dormant
        then if leb policy.dormant_horizon since_confirmed
          then move state departed departure_passed
          else move state dormant occlusion_passed
        else if leb policy.retention_horizon since_confirmed
        then move state expired retention_passed
        else move state departed departure_passed)

unfoldable pub on_merged : LifecycleState → Result Error LifecycleTransition
unfolding move
on_merged state = reject_terminal state >> move state merged_into identity_resolution

unfoldable pub on_shed : LifecycleState → Result Error LifecycleTransition
unfolding move
on_shed state =
    if not (is_state state provisional)
    then raise illegal_transition
    else move state expired population_shed
