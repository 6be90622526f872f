-- ===== src/Exposure/Conflation.antt =====
-- vision_os/exposure/subscriptions.py: what a full queue that conflates takes in.
use mathlib.Core.Path.{subst}
use unityworks_vision_ai_bac.Prelude.{
  ℕ, ◌+◌, ◌≤◌, ◌≡◌, refl, sym, ap, String, false, Option-cases, inl, inr, length, length-append,
  List, [], ◌∷◌, ◌++◌, some, arith,
}
use unityworks_vision_ai_bac.Exposure.{
  Observation, observed, conflate, Subscription, conflate_message, overflow, offer, depth,
  has_object, put_object,
}

unfoldable pub offer_observations : List Observation → (now : ℕ) → Subscription → Subscription
offer_observations [] now s = s
offer_observations (o ∷ os) now s = offer_observations os now (offer (observed o) now s).0

-- An open subscription that conflates, with a full queue.
pub record IsFull (s : Subscription) : Type 0 where
  pub is_open : s.closed ≡ false
  pub conflating : s.policy.overflow ≡ conflate
  pub full : s.policy.queue_capacity ≤ length s.queue

-- Observations of objects that are not among those held, each of another object.
abbrev pub NewObjects : List Observation → List Observation → Type 0
NewObjects held [] = Unit {0}
NewObjects held (o ∷ os) =
    (object : String) × (o.object_id ≡ some object)
    × (has_object object held ≡ false)
    × NewObjects (held ++ (o ∷ [])) os

put_object-absent :
    (object : String) (o : Observation) (held : List Observation)
    → has_object object held ≡ false
    → put_object object o held ≡ held ++ (o ∷ [])
put_object-absent object o [] absent = refl
put_object-absent object o (x ∷ held) absent = elim (Option-cases x.object_id) [
  | inl without ↦ ground (arith, put_object-absent object o held)
  | inr (other, with_one) ↦ ground (arith, put_object-absent object o held)
]

offer-NewObject :
    (o : Observation) (object : String) (now : ℕ) (s : Subscription)
    → o.object_id ≡ some object
    → has_object object s.conflated ≡ false
    → IsFull s
    → let t = (offer (observed o) now s).0 in
      IsFull t × (t.queue ≡ s.queue) × (t.conflated ≡ s.conflated ++ (o ∷ []))
unfolding offer overflow conflate_message
offer-NewObject o object now s named absent v =
    ground (arith, v, put_object-absent object o s.conflated absent)

-- A full queue that conflates holds everything that comes: as many observations of different objects as
-- are offered are held beside the queue, however small its capacity.
pub offer_observations-depth :
    (os : List Observation) (now : ℕ) (s : Subscription)
    → IsFull s
    → NewObjects s.conflated os
    → depth (offer_observations os now s) ≡ depth s + length os
unfolding offer_observations
offer_observations-depth [] now s v fresh = omega arith
offer_observations-depth (o ∷ os) now s v (object, named, absent, fresh) =
    let (still, same, more) = offer-NewObject o object now s named absent v in
    omega (
      arith,
      offer_observations-depth os now (offer (observed o) now s).0 still
          (subst (λ held. NewObjects held os) (sym more) fresh),
      ap length same,
      ap length more,
      length-append s.conflated (o ∷ []),
    )
