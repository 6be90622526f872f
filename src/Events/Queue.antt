-- ===== src/Events/Queue.antt =====
-- vision_os/kernel/events/bus.py: what a subscriber is told of the events that were offered to it,
-- over any sequence of offers and drains.
use mathlib.Core.List.{append-nil, append_assoc}
use mathlib.Core.List.{Sublist}
use mathlib.Core.List.Sublist
use unityworks_vision_ai_bac.Prelude.{
  ℕ, suc, ◌+◌, ◌≤◌, ◌≡◌, refl, ap, ◌≢◌, false, length, length-append, drop, length-drop,
  take-append-drop, List, [], ◌∷◌, ◌++◌, map, Option, none, some, arith,
}
use unityworks_vision_ai_bac.Events.{
  Event, Delivery, gap, event, DeliveryPolicy, conflate, Subscription, enqueue, offer, drained,
  kept, drain,
}

pub data Call : Type 0 where
  offers : Event → Call
  drains : (limit : Option ℕ) (now : ℕ) → Call

unfoldable pub run : Subscription → List Call → Subscription × List Delivery
run s [] = (s, [])
run s (offers e ∷ calls) = run (offer s e).0 calls
run s (drains limit now ∷ calls) =
    let (s', out) = drain s limit now in let (t, later) = run s' calls in (t, out ++ later)

abbrev pub offered : List Call → List Event
offered [] = []
offered (offers e ∷ calls) = e ∷ offered calls
offered (drains limit now ∷ calls) = offered calls

-- The events among what was drained, and the number of drops that its gaps declare.
abbrev pub events_of : List Delivery → List Event
events_of [] = []
events_of (gap g ∷ ds) = events_of ds
events_of (event e ∷ ds) = e ∷ events_of ds

abbrev pub declared_by : List Delivery → ℕ
declared_by [] = 0
declared_by (gap g ∷ ds) = g.dropped + declared_by ds
declared_by (event e ∷ ds) = declared_by ds

events_of-append : (xs ys : List Delivery) → events_of (xs ++ ys) ≡ events_of xs ++ events_of ys
events_of-append [] ys = refl
events_of-append (gap g ∷ xs) ys = events_of-append xs ys
events_of-append (event e ∷ xs) ys = ap (◌∷◌ e) (events_of-append xs ys)

declared_by-append :
    (xs ys : List Delivery) → declared_by (xs ++ ys) ≡ declared_by xs + declared_by ys
declared_by-append [] ys = omega arith
declared_by-append (gap g ∷ xs) ys = omega (arith, declared_by-append xs ys)
declared_by-append (event e ∷ xs) ys = declared_by-append xs ys

events_of-map : (es : List Event) → events_of (map event es) ≡ es
events_of-map [] = refl
events_of-map (e ∷ es) = ap (◌∷◌ e) (events_of-map es)

declared_by-map : (es : List Event) → declared_by (map event es) ≡ 0
declared_by-map [] = refl
declared_by-map (e ∷ es) = declared_by-map es

-- A drain hands out the front of the queue, and declares every drop that was not declared before.
drained-kept :
    (limit : Option ℕ) (queue : List Event) → drained limit queue ++ kept limit queue ≡ queue
drained-kept none queue = append-nil queue
drained-kept (some limit) queue = ground (arith, append-nil queue, take-append-drop limit queue)

pub events_of-drain :
    (s : Subscription) (limit : Option ℕ) (now : ℕ)
    → events_of (drain s limit now).1 ≡ drained limit s.queue
unfolding drain
events_of-drain s limit now = ground (arith, events_of-map (drained limit s.queue))

pub declared_by-drain :
    (s : Subscription) (limit : Option ℕ) (now : ℕ)
    → declared_by (drain s limit now).1 ≡ s.undeclared_drops
unfolding drain
declared_by-drain s limit now = ground (arith, declared_by-map (drained limit s.queue))

-- What an open subscription that does not conflate keeps fixed.
pub record IsOpen (s : Subscription) : Type 0 where
  pub is_open : s.closed ≡ false
  pub dropping : s.policy.overflow ≢ conflate
  pub capacity_pos : 1 ≤ s.policy.capacity
  pub within : length s.queue ≤ s.policy.capacity

pub offer-IsOpen : (s : Subscription) (e : Event) → IsOpen s → IsOpen (offer s e).0
unfolding offer enqueue
offer-IsOpen s e v = ground (
  arith,
  length-append s.queue (e ∷ []),
  length-append (drop 1 s.queue) (e ∷ []),
  length-drop 1 s.queue,
)

pub offer-accounted :
    (s : Subscription) (e : Event)
    → IsOpen s
    → let t = (offer s e).0 in
      length t.queue + t.undeclared_drops ≡ suc (length s.queue + s.undeclared_drops)
unfolding offer enqueue
offer-accounted s e v = ground (
  arith,
  length-append s.queue (e ∷ []),
  length-append (drop 1 s.queue) (e ∷ []),
  length-drop 1 s.queue,
)

offer-sublist :
    (s : Subscription) (e : Event) → IsOpen s → Sublist (offer s e).0.queue (s.queue ++ (e ∷ []))
unfolding offer enqueue
offer-sublist s e v = ground (
  arith,
  Sublist.refl (s.queue ++ (e ∷ [])),
  Sublist.append (Sublist.refl s.queue) (Sublist.cons e (Sublist.refl [])),
  append-nil s.queue,
  Sublist.append (drop_one-sublist s.queue) (Sublist.refl (e ∷ [])),
)
  where
    drop_one-sublist : (queue : List Event) → Sublist (drop 1 queue) queue
    drop_one-sublist [] = Sublist.refl []
    drop_one-sublist (x ∷ queue) = Sublist.cons x (Sublist.refl queue)

drain-IsOpen :
    (s : Subscription) (limit : Option ℕ) (now : ℕ) → IsOpen s → IsOpen (drain s limit now).0
unfolding drain
drain-IsOpen s none now v = ground arith
drain-IsOpen s (some limit) now v = ground (arith, length-drop limit s.queue)

policy-offer : (s : Subscription) (e : Event) → (offer s e).0.policy ≡ s.policy
unfolding offer enqueue
policy-offer s e = ground arith

-- What a subscriber is told over the calls `calls` that lead from `s` to `t`.
abbrev pub Told : Subscription → List Call → Subscription → List Delivery → Type 0
Told s calls t out =
    Sublist (events_of out ++ t.queue) (s.queue ++ offered calls)
    × (length (events_of out) + declared_by out + length t.queue + t.undeclared_drops
        ≡ length s.queue + s.undeclared_drops + length (offered calls))
    × (length t.queue ≤ s.policy.capacity)

Told-offer :
    (s : Subscription) (e : Event) (calls : List Call) (t : Subscription) (out : List Delivery)
    → IsOpen s
    → Told (offer s e).0 calls t out
    → Told s (offers e ∷ calls) t out
Told-offer s e calls t out v (order, total, bound) = (
  Sublist.trans order (
      rw (← append_assoc s.queue (e ∷ []) (offered calls))
        (Sublist.append (offer-sublist s e v) (Sublist.refl (offered calls)))),
  omega (arith, offer-accounted s e v),
  omega (arith, ap (λ (p : DeliveryPolicy). p.capacity) (policy-offer s e)),
)

split_sublist :
    (front back rest : List Event) {queue out : List Event}
    → front ++ back ≡ queue
    → Sublist out (back ++ rest)
    → Sublist (front ++ out) (queue ++ rest)
split_sublist front back rest parts order =
    rw (← parts, append_assoc) (Sublist.append (Sublist.refl front) order)

Told-drain :
    (s : Subscription) (limit : Option ℕ) (now : ℕ) (calls : List Call) (t : Subscription)
    (out : List Delivery)
    → Told (drain s limit now).0 calls t out
    → Told s (drains limit now ∷ calls) t ((drain s limit now).1 ++ out)
unfolding drain
Told-drain s limit now calls t out (order, total, bound) = (
  rw (events_of-append (drain s limit now).1 out, events_of-drain s limit now, append_assoc)
      (split_sublist (drained limit s.queue) (kept limit s.queue) (offered calls) parts order),
  told,
  bound,
)
  where
    parts : drained limit s.queue ++ kept limit s.queue ≡ s.queue
    parts = drained-kept limit s.queue

    told :
        length (events_of ((drain s limit now).1 ++ out))
          + declared_by ((drain s limit now).1 ++ out)
          + length t.queue
          + t.undeclared_drops
        ≡ length s.queue + s.undeclared_drops + length (offered calls)
    told =
        rw
          (
            events_of-append (drain s limit now).1 out,
            events_of-drain s limit now,
            declared_by-append (drain s limit now).1 out,
            declared_by-drain s limit now,
            length-append (drained limit s.queue) (events_of out),
          )
          (omega (
            arith,
            total,
            ap length parts,
            length-append (drained limit s.queue) (kept limit s.queue),
          ))

-- From an open subscription that does not conflate, over any offers and drains: what is handed out,
-- followed by what is left in the queue, is in the order of the offers and holds nothing else; every
-- event offered is handed out, queued, declared by a gap that was handed out, or counted for the gap of
-- the coming drain; and the queue is never longer than the capacity.
pub run-Told :
    (s : Subscription) (calls : List Call) → IsOpen s → Told s calls (run s calls).0 (run s calls).1
unfolding run
run-Told s [] v = (rw append-nil (Sublist.refl s.queue), omega arith, v.within)
run-Told s (offers e ∷ calls) v =
    Told-offer s e calls (run (offer s e).0 calls).0 (run (offer s e).0 calls).1 v
      (run-Told (offer s e).0 calls (offer-IsOpen s e v))
run-Told s (drains limit now ∷ calls) v =
    Told-drain s limit now calls (run (drain s limit now).0 calls).0
      (run (drain s limit now).0 calls).1
      (run-Told (drain s limit now).0 calls (drain-IsOpen s limit now v))
