-- ===== src/Events/Calls.antt =====
-- vision_os/kernel/events/bus.py: the bus over any sequence of calls. A new subscription gets the
-- number of the objects made before it.
use unityworks_vision_ai_bac.Prelude.{
  ℕ, ◌≤◌, ◌≡◌, refl, ◌∙◌, String, Bool, Option-cases, inl, inr, length, length-append, List, [],
  ◌∷◌, ◌++◌, Option, none, Result, ok, raise, arith,
}
use unityworks_vision_ai_bac.Events.{
  Error, Event, DeliveryPolicy, Subscription, new_subscription, offer, close,
}
use unityworks_vision_ai_bac.Events.Bus.{
  Cell, EventBus, listed, find_cell, put_cell, deliver_to, deliver_all, note_publish, publish,
  subscribe, close_cell, close_cells, close_bus, listed_numbers, unsubscribe, frozen, new_bus,
}
use unityworks_vision_ai_bac.Events.Registrations.{
  Registration, types_of, unregister, frozen-Distinct,
}
use unityworks_vision_ai_bac.Events.Fanout.{reached, publish-reaches, Represents, store-forward}
use unityworks_vision_ai_bac.Events.Upkeep.{
  find_cell-append, list_subscription-Represents, unsubscribe-Represents, publish-Represents,
}

-- The calls of a bus. A call that raises changes nothing.
pub data BusCall : Type 0 where
  subscribes : String → List String → Option (Event → Option Bool) → DeliveryPolicy → BusCall
  unsubscribes : ℕ → BusCall
  publishes : Event → BusCall
  closes : BusCall

unfoldable pub perform : Option (Event → Bool) → BusCall → EventBus → Result Error EventBus
perform transport (subscribes subscription_id names predicate policy) bus =
    subscribe (length bus.store) subscription_id names predicate policy bus
perform transport (unsubscribes number) bus = ok (unsubscribe number bus)
perform transport (publishes e) bus = publish transport e bus
perform transport closes bus = ok (close_bus bus)

-- What a call that succeeded does to the list of registrations.
abbrev pub register : BusCall → EventBus → List Registration → List Registration
register (subscribes subscription_id names predicate policy) bus regs =
    regs ++ (record { number = length bus.store; types = frozen names } ∷ [])
register (unsubscribes number) bus regs = unregister number regs
register (publishes e) bus regs = regs
register closes bus regs = []

abbrev pub advance :
    BusCall → EventBus → List Registration → Result Error EventBus → EventBus × List Registration
advance call bus regs (ok after) = (after, register call bus regs)
advance call bus regs (raise error) = (bus, regs)

unfoldable pub run :
    Option (Event → Bool)
    → List BusCall
    → EventBus × List Registration
    → EventBus × List Registration
run transport [] st = st
run transport (call ∷ calls) (bus, regs) =
    run transport calls (advance call bus regs (perform transport call bus))

-- The objects are numbered below the length of the store.
abbrev pub Numbered : EventBus → Type 0
Numbered bus = (n : ℕ) → length bus.store ≤ n → find_cell n bus.store ≡ none

length-put_cell :
    (n : ℕ) (s : Subscription) (cells : List Cell) → length (put_cell n s cells) ≡ length cells
length-put_cell n s [] = refl
length-put_cell n s (cell ∷ cells) = ground (arith, length-put_cell n s cells)

find_cell-put_cell-none :
    (m n : ℕ) (s : Subscription) (cells : List Cell)
    → find_cell m cells ≡ none
    → find_cell m (put_cell n s cells) ≡ none
find_cell-put_cell-none m n s [] h = refl
find_cell-put_cell-none m n s (cell ∷ cells) h = ground (arith, find_cell-put_cell-none m n s cells)

-- A store with as many objects, and no new numbers.
abbrev pub Grows : List Cell → List Cell → Type 0
Grows cells later =
    (length later ≡ length cells) × ((m : ℕ) → find_cell m cells ≡ none → find_cell m later ≡ none)

close_cell-Grows : (n : ℕ) (cells : List Cell) → Grows cells (close_cell n cells)
close_cell-Grows n cells = elim (Option-cases (find_cell n cells)) [
  | inl missing ↦ rw (missing, close_cell) (refl, λ m h. h)
  | inr (s, found) ↦
      rw (found, close_cell)
        (length-put_cell n (close s) cells, λ m h. find_cell-put_cell-none m n (close s) cells h)
]

close_cells-Grows : (ns : List ℕ) (cells : List Cell) → Grows cells (close_cells ns cells)
close_cells-Grows [] cells = (refl, λ m h. h)
close_cells-Grows (n ∷ ns) cells =
    let (same, absent) = close_cell-Grows n cells in
    let (all_same, all_absent) = close_cells-Grows ns (close_cell n cells) in
    (all_same ∙ same, λ m h. all_absent m (absent m h))

deliver_to-Grows : (e : Event) (n : ℕ) (bus : EventBus) → Grows bus.store (deliver_to e n bus).store
unfolding deliver_to
deliver_to-Grows e n bus = elim (Option-cases (find_cell n bus.store)) [
  | inl missing ↦ rw (missing, deliver_to) (refl, λ m h. h)
  | inr (s, found) ↦ (
    ground (arith, length-put_cell n (offer s e).0 bus.store),
    λ m h. ground (arith, find_cell-put_cell-none m n (offer s e).0 bus.store h),
  )
]

deliver_all-Grows :
    (e : Event) (ns : List ℕ) (bus : EventBus) → Grows bus.store (deliver_all e ns bus).store
unfolding deliver_all
deliver_all-Grows e [] bus = (refl, λ m h. h)
deliver_all-Grows e (n ∷ ns) bus =
    let (same, absent) = deliver_to-Grows e n bus in
    let (all_same, all_absent) = deliver_all-Grows e ns (deliver_to e n bus) in
    (all_same ∙ same, λ m h. all_absent m (absent m h))

perform-Numbered :
    (transport : Option (Event → Bool)) (call : BusCall) (bus after : EventBus)
    → perform transport call bus ≡ ok after
    → Numbered bus
    → Numbered after
unfolding perform publish subscribe unsubscribe
perform-Numbered transport (subscribes subscription_id names predicate policy) bus after h fresh =
    λ n le. ground (
      arith,
      fresh n,
      fresh (length bus.store),
      length-append bus.store (
          record {
            number = length bus.store;
            subscription = new_subscription subscription_id (frozen names) predicate policy;
          }
          ∷ []),
      find_cell-append n (length bus.store)
          (new_subscription subscription_id (frozen names) predicate policy) bus.store,
    )
perform-Numbered transport (unsubscribes number) bus after h fresh = λ n le.
    ground (
      arith,
      (close_cell-Grows number bus.store).0,
      (close_cell-Grows number bus.store).1 n,
      fresh n,
    )
perform-Numbered transport (publishes e) bus after h fresh = λ n le. ground (
  arith,
  store-forward transport e (
      deliver_all e (listed e.event_type bus.by_type ++ bus.all_types)
        (record bus { stats = note_publish e.event_type bus.stats })),
  (deliver_all-Grows e (listed e.event_type bus.by_type ++ bus.all_types)
      (record bus { stats = note_publish e.event_type bus.stats })).0,
  (deliver_all-Grows e (listed e.event_type bus.by_type ++ bus.all_types)
        (record bus { stats = note_publish e.event_type bus.stats })).1
      n,
  fresh n,
)
perform-Numbered transport closes bus after h fresh = λ n le. ground (
  arith,
  (close_cells-Grows (bus.all_types ++ listed_numbers bus.by_type) bus.store).0,
  (close_cells-Grows (bus.all_types ++ listed_numbers bus.by_type) bus.store).1 n,
  fresh n,
)

perform-Represents :
    (transport : Option (Event → Bool)) (call : BusCall) (bus after : EventBus)
    (regs : List Registration)
    → perform transport call bus ≡ ok after
    → Numbered bus
    → Represents regs bus
    → Represents (register call bus regs) after
unfolding perform subscribe
perform-Represents transport (subscribes subscription_id names predicate policy) bus after regs h
      fresh v =
    ground (
      arith,
      list_subscription-Represents (length bus.store)
          (new_subscription subscription_id (frozen names) predicate policy) regs bus
          (frozen-Distinct names) (fresh (length bus.store) (omega arith)) v,
    )
perform-Represents transport (unsubscribes number) bus after regs h fresh v =
    ground (arith, unsubscribe-Represents number regs bus v)
perform-Represents transport (publishes e) bus after regs h fresh v =
    publish-Represents transport e regs bus after h v
perform-Represents transport closes bus after regs h fresh v = ground arith

-- A bus that stands for its registrations, with the numbers of its objects used up.
abbrev pub Sound : EventBus × List Registration → Type 0
Sound (bus, regs) = Numbered bus × Represents regs bus

advance-Sound :
    (transport : Option (Event → Bool)) (call : BusCall) (bus : EventBus) (regs : List Registration)
    (result : Result Error EventBus)
    → perform transport call bus ≡ result
    → Sound (bus, regs)
    → Sound (advance call bus regs result)
advance-Sound transport call bus regs (ok after) done (fresh, v) = (
  perform-Numbered transport call bus after done fresh,
  perform-Represents transport call bus after regs done fresh v,
)
advance-Sound transport call bus regs (raise error) done sound = sound

pub run-Sound :
    (transport : Option (Event → Bool)) (calls : List BusCall) (bus : EventBus)
    (regs : List Registration)
    → Sound (bus, regs)
    → Sound (run transport calls (bus, regs))
unfolding run
run-Sound transport [] bus regs sound = sound
run-Sound transport (call ∷ calls) bus regs sound =
    let (after, registered) = advance call bus regs (perform transport call bus) in
    run-Sound transport calls after registered
      (advance-Sound transport call bus regs (perform transport call bus) refl sound)

-- Whatever was subscribed, unsubscribed, published and closed on a new bus, its index of types and its
-- list of subscribers to everything stand for the registrations that were accepted and not taken back.
pub run-Represents :
    (transport : Option (Event → Bool)) (known : List String) (calls : List BusCall)
    → let (after, registered) = run transport calls (new_bus known, []) in
      Represents registered after
run-Represents transport known calls =
    (run-Sound transport calls (new_bus known) [] (
      λ n h. refl,
      record {
        indexed = λ name. refl;
        untyped = refl;
        distinct = tt;
        stored = λ n types h. absurd (cc);
      },
    )).1

-- Whatever was subscribed, unsubscribed, published and closed on a new bus, an event that is then
-- published without raising reaches every registration that was accepted and not taken back exactly once,
-- although only those listed under its type are looked at: a registered subscription that matches it
-- has been offered it once, and any other subscription is as it was.
pub run-reaches :
    (transport : Option (Event → Bool)) (known : List String) (calls : List BusCall) (e : Event)
    (after : EventBus) (n : ℕ)
    → publish transport e (run transport calls (new_bus known, [])).0 ≡ ok after
    → find_cell n after.store
      ≡ reached e
          (types_of n (run transport calls (new_bus known, [])).1)
          (find_cell n (run transport calls (new_bus known, [])).0.store)
run-reaches transport known calls e after n published =
    let (bus, registered) = run transport calls (new_bus known, []) in
    publish-reaches transport e registered bus after (run-Represents transport known calls)
      published n
