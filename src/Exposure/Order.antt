-- ===== src/Exposure/Order.antt =====
-- vision_os/exposure/subscriptions.py: the order in which a subscription that drops with a gap keeps and
-- hands out its messages.
use mathlib.Core.List.{append_assoc}
use mathlib.Core.List.{Sublist}
use mathlib.Core.List.Sublist
use unityworks_vision_ai_bac.Prelude.{
  ℕ, ◌≡◌, refl, ap, not, keep_if, take, drop, take-append-drop, List, [], ◌∷◌, ◌++◌, map, Option,
  none, some, to_list, arith,
}
use unityworks_vision_ai_bac.Exposure.{
  Observation, Gap, Message, observed, gap, Subscription, drop_oldest, overflow, offer, announced,
  room_for, handed, drain,
}
use unityworks_vision_ai_bac.Exposure.Losses.{is_loss, NoLoss, NoLoss-take, IsLossGap, IsDropping}

-- The messages that are no gap of a slow consumer.
abbrev pub genuine : List Message → List Message
genuine ms = keep_if (λ m. not (is_loss m)) ms

genuine-append : (xs ys : List Message) → genuine (xs ++ ys) ≡ genuine xs ++ genuine ys
genuine-append [] ys = refl
genuine-append (x ∷ xs) ys = ground (arith, genuine-append xs ys)

genuine-NoLoss : (ms : List Message) → NoLoss ms → genuine ms ≡ ms
genuine-NoLoss [] h = refl
genuine-NoLoss (m ∷ ms) h = rw h.0 (ap (◌∷◌ m) (genuine-NoLoss ms h.1))

genuine-gap : (p : Option Gap) → IsLossGap p → genuine (map gap (to_list p)) ≡ []
genuine-gap none h = refl
genuine-gap (some g) h = ground arith

genuine-observed : (os : List Observation) → os ≡ [] → genuine (map observed os) ≡ []
genuine-observed [] h = refl
genuine-observed (o ∷ os) h = cc

-- But for the gap that announces the losses, a drain hands out the front of the queue.
genuine-drain :
    (limit : ℕ) (s : Subscription)
    → IsDropping s
    → genuine (drain limit s).1 ≡ take (room_for limit s) s.queue
unfolding drain
genuine-drain limit s v =
    rw
      (
        genuine-append (announced s) (handed limit s),
        genuine-append (map observed s.conflated) (take (room_for limit s) s.queue),
        genuine-gap s.pending_gap v.loss,
        genuine-observed s.conflated v.unmerged,
      )
      (genuine-NoLoss (take (room_for limit s) s.queue)
        (NoLoss-take (room_for limit s) s.queue v.unlost))

Sublist-drop_oldest :
    (queue : List Message) (message : Message) (now : ℕ) (s : Subscription)
    → Sublist (drop_oldest queue message now s).queue (queue ++ (message ∷ []))
Sublist-drop_oldest [] message now s = Sublist.refl (message ∷ [])
Sublist-drop_oldest (oldest ∷ rest) message now s =
    Sublist.cons oldest (Sublist.refl (rest ++ (message ∷ [])))

-- An offer puts the message at the end, or leaves it out, and keeps the order of the others.
pub Sublist-offer :
    (message : Message) (now : ℕ) (s : Subscription)
    → IsDropping s
    → Sublist (offer message now s).0.queue (s.queue ++ (message ∷ []))
unfolding offer overflow
Sublist-offer message now s v = ground (
  arith,
  Sublist.refl (s.queue ++ (message ∷ [])),
  Sublist-drop_oldest s.queue message now s,
  v.is_open,
  v.dropping,
)

split_sublist :
    (front back rest : List Message) {queue out : List Message}
    → front ++ back ≡ queue
    → Sublist out (back ++ rest)
    → Sublist (front ++ out) (queue ++ rest)
split_sublist front back rest parts order =
    rw (← parts, append_assoc) (Sublist.append (Sublist.refl front) order)

queue-drain :
    (limit : ℕ) (s : Subscription) → (drain limit s).0.queue ≡ drop (room_for limit s) s.queue
unfolding drain
queue-drain limit s = refl

-- What a drain hands out comes before what is told later, in the order of the queue.
pub Sublist-drain :
    (limit : ℕ) (s : Subscription)
    → IsDropping s
    → (rest told left : List Message)
    → Sublist (genuine told ++ left) ((drain limit s).0.queue ++ rest)
    → Sublist (genuine ((drain limit s).1 ++ told) ++ left) (s.queue ++ rest)
Sublist-drain limit s v rest told left order =
    let front = take (room_for limit s) s.queue in
    let back = drop (room_for limit s) s.queue in
    let behind : Sublist (genuine told ++ left) (back ++ rest) =
      rw (queue-drain limit s) at order in
    rw
      (
        genuine-append (drain limit s).1 told,
        genuine-drain limit s v,
        append_assoc front (genuine told) left,
      )
      (split_sublist front back rest (take-append-drop (room_for limit s) s.queue) behind)
