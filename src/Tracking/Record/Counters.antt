-- ===== src/Tracking/Record/Counters.antt =====
-- The counters of a track record, over any run of matched and unmatched frames.
use unityworks_vision_ai_bac.Prelude.{
  ℕ, ◌+◌, ◌≤◌, ◌<◌, ◌≡◌, true, List, [], ◌∷◌, arith, Returns, Returns-value, ◌⊎◌, inl, inr,
  Bool-cases,
}
use unityworks_vision_ai_bac.Tracking.Lifecycle.{
  TrackState, tentative, confirmed, coasting, lost, terminated, is_alive, LifecyclePolicy,
  Transition, is_terminal,
}
use unityworks_vision_ai_bac.Tracking.Record.{
  TrackRecord, TrackId, new_record, Frame, matched, unmatched, apply_frame, follow,
}

-- How long a track in this state can have gone unmeasured.
abbrev pub CoastFits : LifecyclePolicy → TrackState → ℕ → Type 0
CoastFits p tentative n = n ≡ 0
CoastFits p confirmed n = n ≡ 0
CoastFits p coasting n = (0 < n) × (n ≤ p.max_coast_frames)
CoastFits p lost n = (p.max_coast_frames < n) × (n ≤ p.max_coast_frames + p.max_lost_frames)
CoastFits p terminated n = Unit

-- How old a track in this state can be.
abbrev pub AgeFits : LifecyclePolicy → TrackState → ℕ → Type 0
AgeFits p terminated n = Unit
AgeFits p _ n = n ≤ p.max_age_frames

-- How long, in nanoseconds, a track in this state can have gone unmeasured; 0 disables the ceiling.
abbrev pub RecentFits : LifecyclePolicy → TrackState → ℕ → Type 0
RecentFits p terminated n = Unit
RecentFits p tentative n = n ≡ 0
RecentFits p confirmed n = n ≡ 0
RecentFits p _ n = (p.max_unmeasured_ns ≡ 0) ⊎ (n < p.max_unmeasured_ns)

-- A track is not measured more often than it existed, its sightings are in order, it is no older than
-- the policy allows, and it has gone unmeasured, in frames and in time, for as long as its state says.
pub record IsConsistent (p : LifecyclePolicy) (r : TrackRecord) : Type 0 where
  pub measured : r.hit_count ≤ r.age_frames
  pub seen : r.last_seen ≤ r.last_updated
  pub started : r.first_seen ≤ r.last_seen
  pub fits : CoastFits p r.state r.coast_frames
  pub young : AgeFits p r.state r.age_frames
  pub recent : RecentFits p r.state r.since_measurement_ns

abbrev pub time_of : Frame → ℕ
time_of (matched now _) = now
time_of (unmatched now _ _) = now

-- The frames come in the order of time.
abbrev pub InOrder : ℕ → List Frame → Type 0
InOrder t [] = Unit
InOrder t (f ∷ frames) = (t ≤ time_of f) × InOrder (time_of f) frames

-- What one frame leaves behind.
abbrev Stepped : LifecyclePolicy → ℕ → TrackRecord × Transition → Type 0
Stepped p now (r, t) =
    IsConsistent p r × (r.last_updated ≡ now) × ((is_terminal t ≡ true) ⊎ (is_alive r.state ≡ true))

module _ (decay : ℕ → ℕ) (p : LifecyclePolicy) where
  apply_frame-IsConsistent :
      (f : Frame) (r : TrackRecord)
      → IsConsistent p r
      → is_alive r.state ≡ true
      → r.last_updated ≤ time_of f
      → Returns (apply_frame decay p f r) (Stepped p (time_of f))
  unfolding apply_frame
  apply_frame-IsConsistent (matched now k) r c alive h = ground arith
  apply_frame-IsConsistent (unmatched now b e) r c alive h = ground arith

  -- From a consistent live track, frames in order are followed without an exception, and leave a
  -- consistent record: `hit_count` does not pass `age_frames`, the sightings are in order, a coasting
  -- track has coasted for 1 to `max_coast_frames` frames, a live one is no older than
  -- `max_age_frames`, and where the ceiling is enabled it was measured within `max_unmeasured_ns`.
  pub follow-IsConsistent :
      (frames : List Frame) (r : TrackRecord)
      → IsConsistent p r
      → is_alive r.state ≡ true
      → InOrder r.last_updated frames
      → Returns (follow decay p frames r) (IsConsistent p)
  unfolding follow
  follow-IsConsistent [] r c alive o = c
  follow-IsConsistent (f ∷ frames) r c alive o =
      let (out, e, (c', now, end)) =
        Returns-value (apply_frame decay p f r) (apply_frame-IsConsistent f r c alive o.0) in
      rw e (elim (Bool-cases (is_terminal out.1)) [
        | inl over ↦ rw over c'
        | inr more ↦ rw more (follow-IsConsistent frames out.0 c' (ground arith) (rw now o.1))
      ])

new_record-IsConsistent :
    (p : LifecyclePolicy) (i : TrackId) (now : ℕ)
    → 1 ≤ p.max_age_frames
    → IsConsistent p (new_record i now)
new_record-IsConsistent p i now h = omega arith
