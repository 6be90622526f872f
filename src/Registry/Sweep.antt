-- ===== src/Registry/Sweep.antt =====
-- vision_os/perception/registry/engine.py, `_drive_horizons`: a sweep advances an object that is not
-- measured to a fixed point of its lifecycle. `since` is the time since it was last confirmed.
pub mod Records
use unityworks_vision_ai_bac.Prelude.{
  ℕ, zero, suc, ◌≤◌, ◌≡◌, ◌⊎◌, true, false, not, Option, none, some, Result, ok, ◌>>=◌, Returns,
  arith, ◌-◌, if◌then◌else◌,
}
use unityworks_vision_ai_bac.Registry.Lifecycle.{
  LifecycleState, provisional, expired, is_terminal, Error, LifecyclePolicy, LifecycleTransition,
  changed, on_unmeasured,
}

-- `first or transition`.
abbrev pub or_else : Option LifecycleTransition → LifecycleTransition → LifecycleTransition
or_else (some first) t = first
or_else none t = t

-- The end of `_drive_horizons`, after the loop.
abbrev pub joined :
    Option LifecycleTransition → Option LifecycleTransition → Option LifecycleTransition
joined (some first) (some last) =
    some (record { previous = first.previous; current = last.current; trigger = last.trigger })
joined _ _ = none

-- The loop, `range(len(LifecycleState))`.
abbrev pub steps : ℕ
steps = 7

unfoldable pub drive :
    ℕ
    → LifecyclePolicy
    → (since : ℕ) → LifecycleState
    → (first last : Option LifecycleTransition) → Result Error (Option LifecycleTransition)
unfolding on_unmeasured
drive zero p since s first last = ok (joined first last)
drive (suc n) p since s first last =
    if is_terminal s
    then ok (joined first last)
    else (on_unmeasured p s since false >>= λ t.
        if not (changed t)
        then ok (joined first last)
        else drive n p since t.current (some (or_else first t)) (some t))

unfoldable pub drive_horizons :
    LifecyclePolicy
    → (last_confirmed moment : ℕ) → LifecycleState
    → Result Error (Option LifecycleTransition)
unfolding drive
drive_horizons p last_confirmed moment s = drive steps p (moment - last_confirmed) s none none

-- The lifecycle that `_drive_horizons` leads to: that of the transition, or the one before where there is
-- none. What else a sweep does to the object is in Records.
abbrev pub left_state : LifecycleState → Option LifecycleTransition → LifecycleState
left_state s none = s
left_state s (some t) = t.current

unfoldable pub sweep_object :
    LifecyclePolicy → (last_confirmed moment : ℕ) → LifecycleState → Result Error LifecycleState
unfolding drive_horizons
sweep_object p last_confirmed moment s =
    drive_horizons p last_confirmed moment s >>= λ o. ok (left_state s o)

-- No horizon that has passed moves the state further.
abbrev pub Settled : LifecyclePolicy → ℕ → LifecycleState → Type 0
Settled p since s =
    (is_terminal s ≡ true) ⊎ Returns (on_unmeasured p s since false) (λ t. t.current ≡ s)

module _ (p : LifecyclePolicy) (confirmed : ℕ) where
  pub sweep_object-Settled :
      (moment : ℕ) (s : LifecycleState)
      → Returns (sweep_object p confirmed moment s) (λ s'. Settled p (moment - confirmed) s')
  unfolding sweep_object
  sweep_object-Settled moment provisional = ground arith
  sweep_object-Settled moment _ = ground arith

  -- How often sweeps run does not matter to the lifecycle: an earlier sweep in between leaves the same
  -- state as the later one alone.
  pub sweep_object-between :
      (early late : ℕ) (s : LifecycleState)
      → early ≤ late
      → (sweep_object p confirmed early s >>= sweep_object p confirmed late)
        ≡ sweep_object p confirmed late s
  unfolding sweep_object
  sweep_object-between early late provisional l = ground arith
  sweep_object-between early late _ l = ground arith

  -- A sweep of a live object past every horizon takes its lifecycle to expired, whatever its state was.
  pub sweep_object-expires :
      (moment : ℕ) (s : LifecycleState)
      → is_terminal s ≡ false
      → p.provisional_horizon ≤ moment - confirmed
      → p.occlusion_horizon ≤ moment - confirmed
      → p.dormant_horizon ≤ moment - confirmed
      → p.retention_horizon ≤ moment - confirmed
      → sweep_object p confirmed moment s ≡ ok expired
  unfolding sweep_object
  sweep_object-expires moment provisional live a b c d = ground arith
  sweep_object-expires moment _ live a b c d = ground arith
