-- ===== src/Events/Fanout.antt =====
-- vision_os/kernel/events/bus.py: to whom the bus delivers. The index of types stands for the list of
-- the registrations, and a publish reaches each of them once.
use unityworks_vision_ai_bac.Prelude.{
  ℕ, zero, suc, ◌+◌, ◌≡◌, refl, sym, String, Bool, false, ◌||◌, ◌==◌, if◌then◌else◌, keep_if,
  Bool-cases, Option-cases, inl, inr, List, [], ◌∷◌, ◌++◌, Option, none, some, ok, arith, count,
  count-append, is_empty,
}
use unityworks_vision_ai_bac.Events.{Event, Subscription, is_in, matches, offer}
use unityworks_vision_ai_bac.Events.Bus.{
  Cell, EventBus, listed, find_cell, put_cell, deliver_to, deliver_all, forward, note_publish,
  publish,
}
use unityworks_vision_ai_bac.Events.Registrations.{
  Registration, numbers_of, types_of, AllDistinct, once_if, count-numbers_of,
}

-- What a publish does to one subscription, if there is one.
abbrev pub after_event : Event → Option Subscription → Option Subscription
after_event e none = none
after_event e (some s) = some (if matches s e then (offer s e).0 else s)

abbrev pub times : Event → ℕ → Option Subscription → Option Subscription
times e zero found = found
times e (suc n) found = times e n (after_event e found)

pub find_cell-put_cell :
    (m n : ℕ) (s found : Subscription) (cells : List Cell)
    → find_cell n cells ≡ some found
    → find_cell m (put_cell n s cells) ≡ (if n == m then some s else find_cell m cells)
find_cell-put_cell m n s found [] h = cc
find_cell-put_cell m n s found (cell ∷ cells) h =
    ground (arith, find_cell-put_cell m n s found cells)

find_cell-deliver_to :
    (e : Event) (m n : ℕ) (bus : EventBus)
    → find_cell m (deliver_to e n bus).store
      ≡ (if n == m then after_event e (find_cell m bus.store) else find_cell m bus.store)
unfolding deliver_to
find_cell-deliver_to e m n bus = elim (Option-cases (find_cell n bus.store)) [
  | inl missing ↦ ground arith
  | inr (s, found) ↦ ground (arith, find_cell-put_cell m n (offer s e).0 s bus.store found)
]

find_cell-deliver_all :
    (e : Event) (m : ℕ) (ns : List ℕ) (bus : EventBus)
    → find_cell m (deliver_all e ns bus).store ≡ times e (count m ns) (find_cell m bus.store)
unfolding deliver_all
find_cell-deliver_all e m [] bus = refl
find_cell-deliver_all e m (n ∷ ns) bus =
    ground
      (arith, find_cell-deliver_all e m ns (deliver_to e n bus), find_cell-deliver_to e m n bus)

-- The bus stands for a list of registrations.
pub record Represents (regs : List Registration) (bus : EventBus) : Type 0 where
  pub indexed :
      (name : String)
      → listed name bus.by_type ≡ numbers_of (keep_if (λ r. is_in name r.types) regs)
  pub untyped : bus.all_types ≡ numbers_of (keep_if (λ r. is_empty r.types) regs)
  pub distinct : AllDistinct regs
  pub stored :
      (n : ℕ) (types : List String)
      → types_of n regs ≡ some types
      → (s : Subscription) × (find_cell n bus.store ≡ some s) × (s.types ≡ types)

count-targets :
    (name : String) (n : ℕ) (regs : List Registration) (bus : EventBus)
    → Represents regs bus
    → count n (listed name bus.by_type ++ bus.all_types)
      ≡ once_if (λ types. is_in name types || is_empty types) (types_of n regs)
count-targets name n regs bus v =
    rw
      (
        count-append n,
        v.indexed name,
        v.untyped,
        count-numbers_of (is_in name) n regs v.distinct,
        count-numbers_of is_empty n regs v.distinct,
      )
      (one_of (types_of n regs))
  where
    one_of :
        (found : Option (List String))
        → once_if (is_in name) found + once_if is_empty found
          ≡ once_if (λ types. is_in name types || is_empty types) found
    one_of none = refl
    one_of (some []) = refl
    one_of (some (t ∷ ts)) = ground arith

after_event-unmatched :
    (e : Event) (s : Subscription)
    → (is_in e.event_type s.types || is_empty s.types) ≡ false
    → after_event e (some s) ≡ some s
unfolding matches
after_event-unmatched e s h = ground arith

pub store-forward :
    (transport : Option (Event → Bool)) (e : Event) (bus : EventBus)
    → (forward transport e bus).store ≡ bus.store
store-forward none e bus = refl
store-forward (some takes) e bus = ground arith

store-publish :
    (transport : Option (Event → Bool)) (e : Event) (bus after : EventBus)
    → publish transport e bus ≡ ok after
    → (n : ℕ)
    → find_cell n after.store
      ≡ times e (count n (listed e.event_type bus.by_type ++ bus.all_types)) (find_cell n bus.store)
unfolding publish
store-publish transport e bus after h n = ground (
  arith,
  find_cell-deliver_all e n (listed e.event_type bus.by_type ++ bus.all_types)
      (record bus { stats = note_publish e.event_type bus.stats }),
  store-forward transport e (
      deliver_all e (listed e.event_type bus.by_type ++ bus.all_types)
        (record bus { stats = note_publish e.event_type bus.stats })),
)

-- What is to become of the subscription of a number: an event is offered where it is registered.
abbrev pub reached : Event → Option (List String) → Option Subscription → Option Subscription
reached e none found = found
reached e (some types) found = after_event e found

reached-registered :
    (e : Event) (types : List String) (s : Subscription)
    → s.types ≡ types
    → times e (once_if (λ ts. is_in e.event_type ts || is_empty ts) (some types)) (some s)
      ≡ after_event e (some s)
reached-registered e types s same = elim (Bool-cases (is_in e.event_type types || is_empty types)) [
  | inl yes_in ↦ rw yes_in refl
  | inr not_in ↦ rw not_in (sym (after_event-unmatched e s (rw same not_in)))
]

-- An event that is published reaches every registration exactly once, although only those listed under
-- its type are looked at: a registered subscription that matches it has been offered it once, and any
-- other subscription is as it was.
pub publish-reaches :
    (transport : Option (Event → Bool)) (e : Event) (regs : List Registration)
    (bus after : EventBus)
    → Represents regs bus
    → publish transport e bus ≡ ok after
    → (n : ℕ) → find_cell n after.store ≡ reached e (types_of n regs) (find_cell n bus.store)
publish-reaches transport e regs bus after v h n = elim (Option-cases (types_of n regs)) [
  | inl none_there ↦
      rw
        (
          store-publish transport e bus after h n,
          count-targets e.event_type n regs bus v,
          none_there,
        )
        refl
  | inr (types, registered) ↦
      let (s, found, same) = v.stored n types registered in
      rw
        (
          store-publish transport e bus after h n,
          count-targets e.event_type n regs bus v,
          registered,
          found,
        )
        (reached-registered e types s same)
]
