-- ===== src/Registry/Sweep/Records.antt =====
-- vision_os/perception/registry/engine.py, `sweep`: what it does to one object of a partition. The events
-- it publishes, the updates it reports and the regions it forgets are left out.
use unityworks_vision_ai_bac.Prelude.{
  ℕ, String, ◌≡◌, ◌⊎◌, Bool, true, false, ◌||◌, any, if◌then◌else◌, Option, none, some, Result, ok,
  raise, ◌>>=◌,
}
use unityworks_vision_ai_bac.Registry.Lifecycle.{
  LifecycleState, provisional, active, expired, is_state, is_terminal, Error as MachineError,
  LifecyclePolicy, LifecycleTransition,
}
use unityworks_vision_ai_bac.Registry.Sweep.{drive_horizons, Settled}
use unityworks_vision_ai_bac.Registry.Partition.{
  Error, illegal_transition, is_open, ObjectRecord, RegistryPartition, set_lifecycle,
  close_bindings, evict,
}

abbrev pub is_measurable : LifecycleState → Bool
is_measurable s = is_state s provisional || is_state s active

-- Where the object leaves the measurable states its bindings are closed; the lifecycle is set, and an
-- expired object is evicted.
unfoldable pub advance :
    LifecycleTransition
    → (moment : ℕ) → ObjectRecord
    → RegistryPartition
    → Result Error RegistryPartition
unfolding close_bindings set_lifecycle evict
advance t moment r p =
    (if is_measurable t.current then ok (p, r) else close_bindings moment r p) >>= λ (p', r').
    let kept = set_lifecycle t.current r' p' in
    ok (if is_state t.current expired then evict r.object_id kept else kept)

-- One round of the loop of `sweep` over the records of a partition.
unfoldable pub sweep_record :
    LifecyclePolicy
    → (moment : ℕ) → ObjectRecord
    → RegistryPartition
    → Result Error RegistryPartition
sweep_record policy moment r p =
    if is_terminal r.lifecycle
    then ok (if is_state r.lifecycle expired then evict r.object_id p else p)
    else elim (drive_horizons policy r.last_confirmed moment r.lifecycle) [
      | raise e ↦ raise illegal_transition
      | ok none ↦ ok p
      | ok (some t) ↦ advance t moment r p
    ]

-- What a sweep leaves of an object: nothing, or its record in a state that no horizon that has passed
-- changes, and unless it is unchanged or still measurable, without an open binding.
abbrev pub Swept : LifecyclePolicy → (since : ℕ) → ObjectRecord → Option ObjectRecord → Type 0
Swept policy since r none = Unit
Swept policy since r (some r') =
    Settled policy since r'.lifecycle
    × (is_state r'.lifecycle expired ≡ false)
    × ((r' ≡ r) ⊎ ((is_measurable r'.lifecycle ≡ true) ⊎ (any is_open r'.bindings ≡ false)))

-- Setting the lifecycle of an object and evicting it if it is expired.
abbrev settle :
    LifecycleState → (object_id : String) → RegistryPartition → ObjectRecord → RegistryPartition
settle s object_id p r =
    if is_state s expired then evict object_id (set_lifecycle s r p) else set_lifecycle s r p
