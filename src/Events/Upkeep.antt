-- ===== src/Events/Upkeep.antt =====
-- vision_os/kernel/events/bus.py: subscribing, unsubscribing and publishing keep the index of the bus
-- true to the registrations.
use mathlib.Core.List.{append-nil}
use unityworks_vision_ai_bac.Prelude.{
  ℕ, ◌≡◌, ◌≢◌, refl, ◌∙◌, String, Bool, true, false, ◌==◌, if◌then◌else◌, Bool-cases, Option-cases,
  inl, inr, List, [], ◌∷◌, ◌++◌, Option, none, some, ok, arith, is_empty,
}
use unityworks_vision_ai_bac.Events.{Event, Subscription, is_in, matches, enqueue, offer, close}
use unityworks_vision_ai_bac.Events.Bus.{
  Cell, EventBus, listed, list_subscription, find_cell, deliver_to, deliver_all, note_publish,
  publish, close_cell, unsubscribe,
}
use unityworks_vision_ai_bac.Events.Registrations.{
  Registration, types_of, unregister, remove_number-numbers_of, types_of-unregister,
  unregister-AllDistinct, types_of-append, append-AllDistinct, numbers_of-append, NamesDistinct,
  listed-list_under_all, listed-remove_number,
}
use unityworks_vision_ai_bac.Events.Fanout.{Represents, publish-reaches, find_cell-put_cell}

pub find_cell-append :
    (m n : ℕ) (s : Subscription) (cells : List Cell)
    → find_cell n cells ≡ none
    → find_cell m (cells ++ (record { number = n; subscription = s } ∷ []))
      ≡ (if n == m then some s else find_cell m cells)
find_cell-append m n s [] h = refl
find_cell-append m n s (cell ∷ cells) h = ground (arith, find_cell-append m n s cells)

-- A number that no object has is not registered.
absent-types_of :
    (n : ℕ) (regs : List Registration) (bus : EventBus)
    → Represents regs bus
    → find_cell n bus.store ≡ none
    → types_of n regs ≡ none
absent-types_of n regs bus v absent = elim (Option-cases (types_of n regs)) [
  | inl none_there ↦ none_there
  | inr (types, registered) ↦ let (s, found, same) = v.stored n types registered in absurd (cc)
]

stored-append :
    (n number : ℕ) (s : Subscription) (types : List String) (regs : List Registration)
    (bus : EventBus)
    → Represents regs bus
    → find_cell number bus.store ≡ none
    → types_of n (regs ++ (record { number = number; types = s.types } ∷ [])) ≡ some types
    → (t : Subscription) × (find_cell n
          (bus.store ++ (record { number = number; subscription = s } ∷ []))
        ≡ some t)
      × (t.types ≡ types)
stored-append n number s types regs bus v absent registered = elim (Bool-cases (number == n)) [
  | inl same ↦ (
    s,
    rw (find_cell-append n number s bus.store absent, same) refl,
    ground (
      arith,
      types_of-append n regs (record { number = number; types = s.types }),
      absent-types_of number regs bus v absent,
    ),
  )
  | inr other ↦
      let (t, found, held) = v.stored n types (
        ground (
          arith,
          types_of-append n regs (record { number = number; types = s.types }),
          absent-types_of number regs bus v absent,
        )) in
      (t, rw (find_cell-append n number s bus.store absent, other) found, held)
]

pub list_subscription-Represents :
    (number : ℕ) (s : Subscription) (regs : List Registration) (bus : EventBus)
    → NamesDistinct s.types
    → find_cell number bus.store ≡ none
    → Represents regs bus
    → Represents
        (regs ++ (record { number = number; types = s.types } ∷ []))
        (list_subscription number s bus)
list_subscription-Represents number s regs bus names absent v = record {
  indexed = λ name. ground (
    arith,
    v.indexed name,
    listed-list_under_all number s.types name bus.by_type names,
    numbers_of-append (is_in name) regs entry,
    no_types name s.types,
    append-nil (listed name bus.by_type),
  );
  untyped =
      ground (arith, v.untyped, numbers_of-append is_empty regs entry, append-nil bus.all_types);
  distinct = append-AllDistinct regs entry (absent-types_of number regs bus v absent) v.distinct;
  stored = λ n types registered.
      ground (arith, stored-append n number s types regs bus v absent registered);
}
  where
    entry : Registration
    entry = record { number = number; types = s.types }

    no_types :
        (name : String) (types : List String) → is_empty types ≡ true → is_in name types ≡ false
    no_types name [] h = refl
    no_types name (t ∷ ts) h = cc

find_cell-close_cell :
    (m n : ℕ) (cells : List Cell) → m ≢ n → find_cell m (close_cell n cells) ≡ find_cell m cells
find_cell-close_cell m n cells apart = elim (Option-cases (find_cell n cells)) [
  | inl missing ↦ rw (missing, close_cell) refl
  | inr (s, found) ↦ ground (arith, find_cell-put_cell m n (close s) s cells found)
]

pub unsubscribe-Represents :
    (number : ℕ) (regs : List Registration) (bus : EventBus)
    → Represents regs bus
    → Represents (unregister number regs) (unsubscribe number bus)
unfolding unsubscribe
unsubscribe-Represents number regs bus v = record {
  indexed = λ name.
      rw (listed-remove_number number name bus.by_type, v.indexed name)
        (remove_number-numbers_of (is_in name) number regs v.distinct);
  untyped = rw v.untyped (remove_number-numbers_of is_empty number regs v.distinct);
  distinct = unregister-AllDistinct number regs v.distinct;
  stored = λ n types registered.
      let still : types_of n regs ≡ some types =
        ground (arith, types_of-unregister n number regs v.distinct) in
      let apart : n ≢ number = ground (arith, types_of-unregister n number regs v.distinct) in
      let (s, found, same) = v.stored n types still in
      (s, find_cell-close_cell n number bus.store apart ∙ found, same);
}

-- The lists of a bus, which a publish leaves alone.
index-deliver_all :
    (e : Event) (ns : List ℕ) (bus : EventBus)
    → ((deliver_all e ns bus).by_type ≡ bus.by_type)
      × ((deliver_all e ns bus).all_types ≡ bus.all_types)
unfolding deliver_all deliver_to
index-deliver_all e [] bus = (refl, refl)
index-deliver_all e (n ∷ ns) bus = elim (Option-cases (find_cell n bus.store)) [
  | inl missing ↦ ground (arith, index-deliver_all e ns (deliver_to e n bus))
  | inr (s, found) ↦ ground (arith, index-deliver_all e ns (deliver_to e n bus))
]

index-publish :
    (transport : Option (Event → Bool)) (e : Event) (bus after : EventBus)
    → publish transport e bus ≡ ok after
    → (after.by_type ≡ bus.by_type) × (after.all_types ≡ bus.all_types)
unfolding publish
index-publish none e bus after h = ground (
  arith,
  index-deliver_all e (listed e.event_type bus.by_type ++ bus.all_types)
      (record bus { stats = note_publish e.event_type bus.stats }),
)
index-publish (some takes) e bus after h = ground (
  arith,
  index-deliver_all e (listed e.event_type bus.by_type ++ bus.all_types)
      (record bus { stats = note_publish e.event_type bus.stats }),
)

types-after :
    (s : Subscription) (e : Event) → (if matches s e then (offer s e).0 else s).types ≡ s.types
unfolding offer enqueue
types-after s e = ground arith

pub publish-Represents :
    (transport : Option (Event → Bool)) (e : Event) (regs : List Registration)
    (bus after : EventBus)
    → publish transport e bus ≡ ok after
    → Represents regs bus
    → Represents regs after
publish-Represents transport e regs bus after h v = record {
  indexed = λ name. rw (index-publish transport e bus after h).0 (v.indexed name);
  untyped = rw (index-publish transport e bus after h).1 v.untyped;
  distinct = v.distinct;
  stored = λ n types registered.
      let (s, found, same) = v.stored n types registered in
      (
        if matches s e then (offer s e).0 else s,
        rw (publish-reaches transport e regs bus after v h n, registered, found) refl,
        types-after s e ∙ same,
      );
}
