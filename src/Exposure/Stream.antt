-- ===== src/Exposure/Stream.antt =====
-- vision_os/exposure/subscriptions.py: what a consumer learns of the messages that were offered to its
-- subscription, over any offers and drains.
use mathlib.Core.Path.{subst}
use mathlib.Core.List.{append-nil, append_assoc}
use mathlib.Core.List.{Sublist}
use mathlib.Core.List.Sublist
use unityworks_vision_ai_bac.Prelude.{
  ℕ, suc, ◌+◌, ◌≤◌, ◌<◌, ◌≡◌, refl, ap, false, ltb, Bool-cases, inl, inr, length, length-append,
  take, length-drop, length-take, List, [], ◌∷◌, ◌++◌, map, arith,
}
use unityworks_vision_ai_bac.Exposure.{
  Observation, Message, observed, DeliveryPolicy, Subscription, drop_oldest, overflow, offer,
  announced, room_for, handed, drain,
}
use unityworks_vision_ai_bac.Exposure.Order.{genuine, Sublist-offer, Sublist-drain}
use unityworks_vision_ai_bac.Exposure.Losses.{
  IsDropping, is_loss, accounted, pending, NoLoss, pending-widened, accounted-NoLoss,
  accounted-append, accounted-announced, NoLoss-append, NoLoss-take, NoLoss-drop, NoLoss-observed,
  IsLossGap-widened,
}

pub data Call : Type 0 where
  offers : Message → (now : ℕ) → Call
  drains : (limit : ℕ) → Call

-- What the consumer is handed by the drains, in order.
unfoldable pub run : Subscription → List Call → Subscription × List Message
run s [] = (s, [])
run s (offers message now ∷ calls) = run (offer message now s).0 calls
run s (drains limit ∷ calls) =
    let (t, out) = drain limit s in let (t', told) = run t calls in (t', out ++ told)

-- None of the messages that are offered is itself a gap of a slow consumer.
abbrev pub OffersNoLoss : List Call → Type 0
OffersNoLoss [] = Unit {0}
OffersNoLoss (offers message now ∷ calls) = (is_loss message ≡ false) × OffersNoLoss calls
OffersNoLoss (drains limit ∷ calls) = OffersNoLoss calls

abbrev pub offered : List Call → List Message
offered [] = []
offered (offers message now ∷ calls) = message ∷ offered calls
offered (drains limit ∷ calls) = offered calls

-- What an offer leaves: one more message is queued, or one more is declared missed.
abbrev pub Offered : Subscription → Subscription → Type 0
Offered s t =
    IsDropping t
    × (length t.queue + pending t.pending_gap ≡ suc (length s.queue + pending s.pending_gap))
    × (t.policy ≡ s.policy)

drop_oldest-Offered :
    (queue : List Message) (message : Message) (now : ℕ) (s : Subscription)
    → s.queue ≡ queue
    → is_loss message ≡ false
    → IsDropping s
    → 1 ≤ length queue
    → Offered s (drop_oldest queue message now s)
drop_oldest-Offered [] message now s same quiet v pos = absurd (omega arith)
drop_oldest-Offered (oldest ∷ rest) message now s same quiet v pos = (
  record {
    is_open = v.is_open;
    dropping = v.dropping;
    capacity_pos = v.capacity_pos;
    within = omega (arith, v.within, ap length same, length-append rest (message ∷ []));
    unmerged = v.unmerged;
    unlost = NoLoss-append rest (message ∷ []) (subst NoLoss same v.unlost).1 (quiet, tt);
    loss = IsLossGap-widened s.pending_gap oldest 1 now v.loss;
  },
  omega (
    arith,
    ap length same,
    length-append rest (message ∷ []),
    pending-widened s.pending_gap oldest 1 now,
  ),
  refl,
)

-- A message that finds room.
abbrev queued : Message → Subscription → Subscription
queued message s = record s {
  queue = s.queue ++ (message ∷ []);
  stats = record s.stats { delivered = s.stats.delivered + 1 };
}

queued-Offered :
    (message : Message) (s : Subscription)
    → is_loss message ≡ false
    → IsDropping s
    → length s.queue < s.policy.queue_capacity
    → Offered s (queued message s)
queued-Offered message s quiet v room = (
  record {
    is_open = v.is_open;
    dropping = v.dropping;
    capacity_pos = v.capacity_pos;
    within = omega (arith, length-append s.queue (message ∷ []));
    unmerged = v.unmerged;
    unlost = NoLoss-append s.queue (message ∷ []) v.unlost (quiet, tt);
    loss = v.loss;
  },
  omega (arith, length-append s.queue (message ∷ [])),
  refl,
)

offer-Offered :
    (message : Message) (now : ℕ) (s : Subscription)
    → is_loss message ≡ false
    → IsDropping s
    → Offered s (offer message now s).0
unfolding offer overflow
offer-Offered message now s quiet v =
    elim (Bool-cases (ltb (length s.queue) s.policy.queue_capacity)) [
      | inl room ↦
          let after : queued message s ≡ (offer message now s).0 = ground (arith, v, room) in
          subst (Offered s) after (queued-Offered message s quiet v (ground arith))
      | inr full ↦
          let after : drop_oldest s.queue message now s ≡ (offer message now s).0 =
            ground (arith, v, full) in
          subst (Offered s) (after) (
            drop_oldest-Offered s.queue message now s refl quiet v
              (ground (arith, v.within, v.capacity_pos)))
    ]

drain-IsDropping : (limit : ℕ) (s : Subscription) → IsDropping s → IsDropping (drain limit s).0
unfolding drain
drain-IsDropping limit s v = record {
  is_open = v.is_open;
  dropping = v.dropping;
  capacity_pos = v.capacity_pos;
  within = omega (arith, v.within, length-drop (room_for limit s) s.queue);
  unmerged = refl;
  unlost = NoLoss-drop (room_for limit s) s.queue v.unlost;
  loss = tt;
}

-- What a drain hands out accounts for the pending gap and for the messages that leave the queue.
accounted-drain :
    (limit : ℕ) (s : Subscription)
    → IsDropping s
    → accounted (drain limit s).1 + length (drain limit s).0.queue
      ≡ length s.queue + pending s.pending_gap
unfolding drain
accounted-drain limit s v = omega (
  arith,
  accounted-append (announced s) (handed limit s),
  accounted-announced s v.loss,
  accounted-NoLoss (handed limit s) (
      NoLoss-append (map observed s.conflated) (take (room_for limit s) s.queue)
        (NoLoss-observed s.conflated) (NoLoss-take (room_for limit s) s.queue v.unlost)),
  ap (λ (os : List Observation). length (map observed os)) v.unmerged,
  length-append (map observed s.conflated) (take (room_for limit s) s.queue),
  length-take (room_for limit s) s.queue,
  length-drop (room_for limit s) s.queue,
)

drain_unpending : (limit : ℕ) (s : Subscription) → pending (drain limit s).0.pending_gap ≡ 0
unfolding drain
drain_unpending limit s = refl

drain_policy : (limit : ℕ) (s : Subscription) → (drain limit s).0.policy ≡ s.policy
unfolding drain
drain_policy limit s = refl

-- From an open subscription that drops with a gap, over any offers and drains, no message is lost
-- silently. Where no offered message is itself a gap of a slow consumer: what the drains handed out but for
-- such gaps, followed by the queue, is in the order of the offers and holds nothing else; with the messages
-- that those gaps declare missed and those that the pending gap will, these are as many as were queued,
-- pending and offered; and the queue never holds more than its capacity.
pub run-accounted :
    (s : Subscription) (calls : List Call)
    → OffersNoLoss calls
    → IsDropping s
    → let (t, told) = run s calls in
      Sublist (genuine told ++ t.queue) (s.queue ++ offered calls)
      × (accounted told + length t.queue + pending t.pending_gap
          ≡ length s.queue + pending s.pending_gap + length (offered calls))
      × (length t.queue ≤ s.policy.queue_capacity)
unfolding run
run-accounted s [] quiet v = (rw append-nil (Sublist.refl s.queue), omega arith, v.within)
run-accounted s (offers message now ∷ calls) quiet v =
    let (still, more, same) = offer-Offered message now s quiet.0 v in
    let (order, total, bound) = run-accounted (offer message now s).0 calls quiet.1 still in
    (
      Sublist.trans order (
          rw (← append_assoc s.queue (message ∷ []) (offered calls))
            (Sublist.append (Sublist-offer message now s v) (Sublist.refl (offered calls)))),
      omega (arith, total, more),
      omega (arith, bound, ap (λ (p : DeliveryPolicy). p.queue_capacity) same),
    )
run-accounted s (drains limit ∷ calls) quiet v =
    let t = (drain limit s).0 in
    let (order, total, bound) = run-accounted t calls quiet (drain-IsDropping limit s v) in
    (
      Sublist-drain limit s v (offered calls) (run t calls).1 (run t calls).0.queue order,
      omega (
        arith,
        total,
        accounted-drain limit s v,
        drain_unpending limit s,
        accounted-append (drain limit s).1 (run t calls).1,
      ),
      omega (arith, bound, ap (λ (p : DeliveryPolicy). p.queue_capacity) (drain_policy limit s)),
    )
