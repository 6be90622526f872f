-- ===== src/Tracking/Record/Horizon.antt =====
-- A track that is not measured any more ends: the frame horizons of the policy bound how long.
use unityworks_vision_ai_bac.Prelude.{
  ℕ, ◌+◌, ◌≤◌, ◌<◌, ◌≡◌, true, false, List, [], ◌∷◌, length, All, arith, Returns, Returns-value,
  inl, inr, ◌⊎◌,
}
use unityworks_vision_ai_bac.Tracking.Lifecycle.{
  TrackState, tentative, confirmed, coasting, lost, terminated, is_alive, LifecyclePolicy,
  Transition, is_terminal,
}
use unityworks_vision_ai_bac.Tracking.Record.{
  TrackRecord, Frame, matched, unmatched, apply_frame, follow,
}
use unityworks_vision_ai_bac.Tracking.Record.Counters.{CoastFits}

abbrev pub IsMiss : Frame → Type 0
IsMiss (matched _ _) = ⊥
IsMiss (unmatched _ _ _) = Unit

-- After a frame without a match the track has ended, or has come one frame nearer to its horizon.
abbrev Nearer : LifecyclePolicy → TrackRecord → TrackRecord × Transition → Type 0
Nearer p r (r', t) =
    ((r'.state ≡ terminated) × (is_terminal t ≡ true))
    ⊎ ((is_alive r'.state ≡ true)
        × (is_terminal t ≡ false)
        × CoastFits p r'.state r'.coast_frames
        × (r'.coast_frames ≡ r.coast_frames + 1))

CoastFits-le :
    (p : LifecyclePolicy) (s : TrackState) (n : ℕ)
    → is_alive s ≡ true
    → CoastFits p s n
    → n ≤ p.max_coast_frames + p.max_lost_frames
CoastFits-le p tentative n alive c = omega arith
CoastFits-le p confirmed n alive c = omega arith
CoastFits-le p coasting n alive c = omega arith
CoastFits-le p lost n alive c = omega arith
CoastFits-le p terminated n alive c = cc

module _ (decay : ℕ → ℕ) (p : LifecyclePolicy) where
  miss-Nearer :
      (f : Frame) (r : TrackRecord)
      → IsMiss f
      → CoastFits p r.state r.coast_frames
      → is_alive r.state ≡ true
      → Returns (apply_frame decay p f r) (Nearer p r)
  unfolding apply_frame
  miss-Nearer (matched now k) r m c alive = absurd m
  miss-Nearer (unmatched now b e) r m c alive = ground arith

  -- A live track that is matched in none of the following frames is terminated once the frames
  -- without a measurement pass `max_coast_frames + max_lost_frames`.
  pub follow-terminates :
      (frames : List Frame) (r : TrackRecord)
      → All IsMiss frames
      → CoastFits p r.state r.coast_frames
      → is_alive r.state ≡ true
      → p.max_coast_frames + p.max_lost_frames < r.coast_frames + length frames
      → Returns (follow decay p frames r) (λ r'. r'.state ≡ terminated)
  unfolding follow
  follow-terminates [] r m c alive long =
      absurd (omega (arith, CoastFits-le p r.state r.coast_frames alive c))
  follow-terminates (f ∷ frames) r m c alive long =
      let (out, e, near) = Returns-value (apply_frame decay p f r) (miss-Nearer f r m.0 c alive) in
      rw e (elim near [
        | inl (done, over) ↦ rw over done
        | inr (alive', more, c', n) ↦
            rw more (follow-terminates frames out.0 m.1 c' alive' (omega arith))
      ])
