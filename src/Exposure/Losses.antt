-- ===== src/Exposure/Losses.antt =====
-- vision_os/exposure/subscriptions.py: what messages and gaps account for, and the messages that are no
-- gap of a slow consumer.
use unityworks_vision_ai_bac.Prelude.{
  ℕ, zero, suc, ◌+◌, ◌≤◌, ◌≡◌, refl, Bool, true, false, length, take, drop, if◌then◌else◌, All,
  to_list, List, [], ◌∷◌, ◌++◌, map, Option, none, some, arith,
}
use unityworks_vision_ai_bac.Exposure.{
  Observation, GapReason, Gap, Message, observed, state_delta, gap, heartbeat, coverage_change,
  drop_with_gap, Subscription, or_zero, widened, announced, slow_consumer,
}

-- The messages that the pending gap declares missed.
abbrev pub pending : Option Gap → ℕ
pending none = 0
pending (some g) = or_zero g.observations_missed

-- A gap that tells of a slow consumer.
abbrev is_slow : GapReason → Bool
is_slow slow_consumer = true
is_slow _ = false

abbrev pub is_loss : Message → Bool
is_loss (gap g) = is_slow g.reason
is_loss _ = false

-- The messages that a message accounts for: those a loss declares missed, and else itself.
abbrev pub weight : Message → ℕ
weight (gap g) = if is_slow g.reason then or_zero g.observations_missed else 1
weight _ = 1

abbrev pub accounted : List Message → ℕ
accounted [] = 0
accounted (m ∷ ms) = weight m + accounted ms

abbrev pub NoLoss : List Message → Type 0
NoLoss ms = All (λ m. is_loss m ≡ false) ms

abbrev pub IsLossGap : Option Gap → Type 0
IsLossGap none = Unit {0}
IsLossGap (some g) = is_slow g.reason ≡ true

pub pending-widened :
    (p : Option Gap) (around : Message) (missed now : ℕ)
    → pending (some (widened p around slow_consumer missed now)) ≡ pending p + missed
pending-widened none around missed now = omega arith
pending-widened (some g) around missed now = refl

-- An open subscription that drops with a gap, within its capacity; the gaps of its losses are in
-- `pending_gap` and not in its queue.
pub record IsDropping (s : Subscription) : Type 0 where
  pub is_open : s.closed ≡ false
  pub dropping : s.policy.overflow ≡ drop_with_gap
  pub capacity_pos : 1 ≤ s.policy.queue_capacity
  pub within : length s.queue ≤ s.policy.queue_capacity
  pub unmerged : s.conflated ≡ []
  pub unlost : NoLoss s.queue
  pub loss : IsLossGap s.pending_gap

pub weight-NoLoss : (m : Message) → is_loss m ≡ false → weight m ≡ 1
weight-NoLoss (gap g) h = ground arith
weight-NoLoss (observed o) h = refl
weight-NoLoss (state_delta camera_id objects regions at) h = refl
weight-NoLoss (heartbeat at cursor) h = refl
weight-NoLoss (coverage_change camera_id status reason at) h = refl

pub accounted-NoLoss : (ms : List Message) → NoLoss ms → accounted ms ≡ length ms
accounted-NoLoss [] h = refl
accounted-NoLoss (m ∷ ms) h = omega (arith, weight-NoLoss m h.0, accounted-NoLoss ms h.1)

pub accounted-append : (xs ys : List Message) → accounted (xs ++ ys) ≡ accounted xs + accounted ys
accounted-append [] ys = omega arith
accounted-append (x ∷ xs) ys = omega (arith, accounted-append xs ys)

pub accounted-announced :
    (s : Subscription) → IsLossGap s.pending_gap → accounted (announced s) ≡ pending s.pending_gap
accounted-announced s h = go s.pending_gap h
  where
    go : (p : Option Gap) → IsLossGap p → accounted (map gap (to_list p)) ≡ pending p
    go none h = refl
    go (some g) h = ground arith

pub NoLoss-append : (xs ys : List Message) → NoLoss xs → NoLoss ys → NoLoss (xs ++ ys)
NoLoss-append [] ys h k = k
NoLoss-append (x ∷ xs) ys h k = (h.0, NoLoss-append xs ys h.1 k)

pub NoLoss-take : (n : ℕ) (ms : List Message) → NoLoss ms → NoLoss (take n ms)
NoLoss-take zero ms h = tt
NoLoss-take (suc n) [] h = tt
NoLoss-take (suc n) (m ∷ ms) h = (h.0, NoLoss-take n ms h.1)

pub NoLoss-drop : (n : ℕ) (ms : List Message) → NoLoss ms → NoLoss (drop n ms)
NoLoss-drop zero ms h = h
NoLoss-drop (suc n) [] h = tt
NoLoss-drop (suc n) (m ∷ ms) h = NoLoss-drop n ms h.1

pub NoLoss-observed : (os : List Observation) → NoLoss (map observed os)
NoLoss-observed [] = tt
NoLoss-observed (o ∷ os) = (refl, NoLoss-observed os)

pub IsLossGap-widened :
    (p : Option Gap) (around : Message) (missed now : ℕ)
    → IsLossGap p
    → IsLossGap (some (widened p around slow_consumer missed now))
IsLossGap-widened none around missed now h = refl
IsLossGap-widened (some g) around missed now h = h
