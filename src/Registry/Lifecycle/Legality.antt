-- ===== src/Registry/Lifecycle/Legality.antt =====
-- The transition table of perception/registry/lifecycle.py and the machine: which calls are refused,
-- and that the machine and the table have the same edges.
use unityworks_vision_ai_bac.Prelude.{
  ℕ, ◌≡◌, refl, Bool, true, false, Result, raise, Returns, arith,
}
use unityworks_vision_ai_bac.Registry.Lifecycle.{
  LifecycleState, provisional, active, occluded, dormant, departed, merged_into, expired, is_legal,
  Error, illegal_transition, LifecyclePolicy, default_policy, LifecycleTransition, on_measured,
  on_unmeasured, on_merged, on_shed,
}

-- The four ways in which the registry drives the machine.
pub data Call : Type 0 where
  measured : (observation_count : ℕ) → Call
  unmeasured : (since_confirmed : ℕ) → (left : Bool) → Call
  merged : Call
  shed : Call

unfoldable pub take_call :
    LifecyclePolicy → LifecycleState → Call → Result Error LifecycleTransition
unfolding on_measured on_unmeasured on_merged on_shed
take_call p s (measured n) = on_measured p s n
take_call p s (unmeasured t left) = on_unmeasured p s t left
take_call p s merged = on_merged s
take_call p s shed = on_shed s

-- What an object in a state may be told: a departed object is not measured again, only an active or a
-- dormant one is merged, only a provisional one is shed, and nothing reaches a terminal one.
abbrev pub accepts : LifecycleState → Call → Bool
accepts provisional merged = false
accepts provisional _ = true
accepts active shed = false
accepts active _ = true
accepts occluded merged = false
accepts occluded shed = false
accepts occluded _ = true
accepts dormant shed = false
accepts dormant _ = true
accepts departed (unmeasured _ _) = true
accepts _ _ = false

-- The answer to a call in a state.
abbrev pub Answers : LifecycleState → Bool → Result Error LifecycleTransition → Type 0
Answers s false r = r ≡ raise illegal_transition
Answers s true r = Returns r (λ t. (t.previous ≡ s) × (is_legal s t.current ≡ true))

-- The machine refuses exactly the calls that the state does not accept; every other call is answered
-- with a transition that starts at the object's state and follows an edge of the table.
pub take_call-Answers :
    (p : LifecyclePolicy) (s : LifecycleState) (c : Call)
    → Answers s (accepts s c) (take_call p s c)
unfolding take_call
take_call-Answers p provisional (measured n) = ground arith
take_call-Answers p provisional (unmeasured t l) = ground arith
take_call-Answers p provisional _ = ground arith
take_call-Answers p active (unmeasured t true) = ground arith
take_call-Answers p active (unmeasured t false) = ground arith
take_call-Answers p active _ = ground arith
take_call-Answers p occluded (unmeasured t l) = ground arith
take_call-Answers p occluded _ = ground arith
take_call-Answers p dormant (unmeasured t l) = ground arith
take_call-Answers p dormant _ = ground arith
take_call-Answers p departed (unmeasured t l) = ground arith
take_call-Answers p departed _ = ground arith
take_call-Answers p merged_into _ = ground arith
take_call-Answers p expired _ = ground arith

-- Every edge of the table is taken by some call, so the table allows nothing that the machine cannot
-- do.
pub is_legal-reached :
    (s u : LifecycleState)
    → is_legal s u ≡ true
    → (c : Call) × Returns (take_call default_policy s c) (λ t. t.current ≡ u)
unfolding take_call
is_legal-reached provisional provisional l = (measured 1, refl)
is_legal-reached provisional active l = (measured 3, refl)
is_legal-reached provisional expired l = (shed, refl)
is_legal-reached active active l = (measured 4, refl)
is_legal-reached active occluded l = (unmeasured 0 false, refl)
is_legal-reached active dormant l = (unmeasured 0 true, refl)
is_legal-reached active merged_into l = (merged, refl)
is_legal-reached occluded occluded l = (unmeasured 0 false, refl)
is_legal-reached occluded active l = (measured 4, refl)
is_legal-reached occluded dormant l = (unmeasured 10_000_000_000 false, refl)
is_legal-reached dormant dormant l = (unmeasured 0 false, refl)
is_legal-reached dormant active l = (measured 4, refl)
is_legal-reached dormant departed l = (unmeasured 120_000_000_000 false, refl)
is_legal-reached dormant merged_into l = (merged, refl)
is_legal-reached departed departed l = (unmeasured 0 false, refl)
is_legal-reached departed expired l = (unmeasured 600_000_000_000 false, refl)
is_legal-reached _ _ l = absurd (unfold is_legal in ground arith)
