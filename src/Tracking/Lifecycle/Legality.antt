-- ===== src/Tracking/Lifecycle/Legality.antt =====
-- The transition table of perception/tracking/lifecycle.py and the machine: the machine takes only
-- the edges of the table, and every edge of the table is taken by some call.
use unityworks_vision_ai_bac.Prelude.{ℕ, ◌≡◌, refl, true, Result, Returns}
use unityworks_vision_ai_bac.Prelude.{arith}
use unityworks_vision_ai_bac.Tracking.Lifecycle.{
  TrackState, tentative, confirmed, coasting, lost, terminated, BreakReason, unbroken,
  TransitionReason, left_frame, is_alive, is_legal, Error, LifecyclePolicy, default_policy,
  Transition, on_hit, on_miss, terminate,
}

-- The three ways in which a tracker drives the machine, with the counters that it passes.
pub data Call : Type 0 where
  on_hit_call : (hit_count age_frames : ℕ) → Call
  on_miss_call : (coast_frames age_frames : ℕ) → BreakReason → (since_measurement_ns : ℕ) → Call
  terminate_call : TransitionReason → BreakReason → Call

unfoldable pub take_call : LifecyclePolicy → TrackState → Call → Result Error Transition
unfolding on_hit on_miss terminate
take_call p s (on_hit_call h a) = on_hit p s h a
take_call p s (on_miss_call c a b ns) = on_miss p s c a b ns
take_call p s (terminate_call r b) = terminate s r b

-- The machine refuses no track that is alive, and its answer starts at the track's state and follows
-- an edge of the table: the check of `_to` never raises.
pub take_call-is_legal :
    (p : LifecyclePolicy) (s : TrackState) (c : Call)
    → is_alive s ≡ true
    → Returns (take_call p s c) (λ t. (t.previous ≡ s) × (is_legal s t.current ≡ true))
unfolding take_call
take_call-is_legal p tentative c l = ground arith
take_call-is_legal p _ c l = ground arith

-- Every edge of the table is taken by some call, so the table allows nothing that the machine
-- cannot do.
pub is_legal-taken :
    (s u : TrackState)
    → is_legal s u ≡ true
    → (c : Call) × Returns (take_call default_policy s c) (λ t. t.current ≡ u)
unfolding take_call
is_legal-taken tentative tentative l = (on_hit_call 1 1, refl)
is_legal-taken tentative confirmed l = (on_hit_call 3 3, refl)
is_legal-taken confirmed confirmed l = (on_hit_call 3 3, refl)
is_legal-taken coasting confirmed l = (on_hit_call 3 3, refl)
is_legal-taken lost confirmed l = (on_hit_call 3 3, refl)
is_legal-taken confirmed coasting l = (on_miss_call 1 4 unbroken 0, refl)
is_legal-taken coasting coasting l = (on_miss_call 1 4 unbroken 0, refl)
is_legal-taken coasting lost l = (on_miss_call 6 9 unbroken 0, refl)
is_legal-taken lost lost l = (on_miss_call 7 9 unbroken 0, refl)
is_legal-taken tentative terminated l = (terminate_call left_frame unbroken, refl)
is_legal-taken confirmed terminated l = (terminate_call left_frame unbroken, refl)
is_legal-taken coasting terminated l = (terminate_call left_frame unbroken, refl)
is_legal-taken lost terminated l = (terminate_call left_frame unbroken, refl)
is_legal-taken _ _ l = absurd (unfold is_legal in ground arith)
