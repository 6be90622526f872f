-- ===== src/Events/Bus.antt =====
-- vision_os/kernel/events/bus.py: the event bus. A subscription is an object that the bus and its
-- subscriber share: `store` holds the objects by their number, and the index of types and the list of
-- those that receive everything hold numbers. The transport answers whether it took an event.
use unityworks_vision_ai_bac.Prelude.{
  ℕ, ◌+◌, String, Bool, leb, ◌==◌, str_eq, if◌then◌else◌, all, length, List, [], ◌∷◌, ◌++◌, map,
  Option, none, some, Result, ok, raise, is_empty, remove_number,
}
use unityworks_vision_ai_bac.Events.{
  Error, value_error, Event, DeliveryPolicy, Subscription, new_subscription, is_in, matches, offer,
  close,
}

pub record Stats : Type 0 where
  pub published : ℕ
  pub delivered : ℕ
  pub dropped : ℕ
  pub gaps_emitted : ℕ
  pub transport_failures : ℕ
  pub by_type : String → ℕ

pub record Cell : Type 0 where
  pub number : ℕ
  pub subscription : Subscription

pub record TypeIndex : Type 0 where
  pub event_type : String
  pub numbers : List ℕ

pub record EventBus : Type 0 where
  pub by_type : List TypeIndex
  pub all_types : List ℕ
  pub registered : List String
  pub stats : Stats
  pub store : List Cell

abbrev pub new_bus : (known : List String) → EventBus
new_bus known = record {
  by_type = [];
  all_types = [];
  registered = known;
  stats = record {
    published = 0;
    delivered = 0;
    dropped = 0;
    gaps_emitted = 0;
    transport_failures = 0;
    by_type = λ name. 0;
  };
  store = [];
}

abbrev pub register_event_type : EventBus → String → EventBus
register_event_type bus name = record bus {
  registered = if is_in name bus.registered then bus.registered else name ∷ bus.registered;
}

-- `self._by_type.get(event_type, ())` and `setdefault(name, []).append(subscription)`.
abbrev pub listed : String → List TypeIndex → List ℕ
listed name [] = []
listed name (entry ∷ index) =
    let rest = listed name index in if str_eq entry.event_type name then entry.numbers else rest

abbrev pub list_under : ℕ → String → List TypeIndex → List TypeIndex
list_under number name [] = record { event_type = name; numbers = number ∷ [] } ∷ []
list_under number name (entry ∷ index) =
    let rest = list_under number name index in
    if str_eq entry.event_type name
    then record entry { numbers = entry.numbers ++ (number ∷ []) } ∷ index
    else entry ∷ rest

abbrev pub list_under_all : ℕ → List String → List TypeIndex → List TypeIndex
list_under_all number [] index = index
list_under_all number (name ∷ names) index =
    list_under_all number names (list_under number name index)

-- The object with a number, and what becomes of it.
abbrev pub find_cell : ℕ → List Cell → Option Subscription
find_cell number [] = none
find_cell number (cell ∷ cells) =
    let rest = find_cell number cells in
    if cell.number == number then some cell.subscription else rest

abbrev pub put_cell : ℕ → Subscription → List Cell → List Cell
put_cell number s [] = []
put_cell number s (cell ∷ cells) =
    let rest = put_cell number s cells in
    if cell.number == number then record cell { subscription = s } ∷ cells else cell ∷ rest

-- The loop of `publish` over the targets.
abbrev pub note_offer : ℕ → Stats → Stats
note_offer dropped st =
    if leb 1 dropped
    then record st { dropped = st.dropped + dropped; gaps_emitted = st.gaps_emitted + dropped }
    else record st { delivered = st.delivered + 1 }

unfoldable pub deliver_to : Event → ℕ → EventBus → EventBus
deliver_to e number bus = elim (find_cell number bus.store) [
  | none ↦ bus
  | some s ↦
      let (s', dropped) = offer s e in
      if matches s e
      then record bus { store = put_cell number s' bus.store; stats = note_offer dropped bus.stats }
      else bus
]

unfoldable pub deliver_all : Event → List ℕ → EventBus → EventBus
deliver_all e [] bus = bus
deliver_all e (number ∷ numbers) bus = deliver_all e numbers (deliver_to e number bus)

-- `_forward`: no transport, or one that raises or not.
abbrev pub forward : Option (Event → Bool) → Event → EventBus → EventBus
forward none e bus = bus
forward (some takes) e bus = if takes e then bus else record bus {
  stats = record bus.stats { transport_failures = bus.stats.transport_failures + 1 };
}

abbrev pub note_publish : String → Stats → Stats
note_publish name st = record st {
  published = st.published + 1;
  by_type = λ other. if str_eq name other then st.by_type name + 1 else st.by_type other;
}

unfoldable pub publish : Option (Event → Bool) → Event → EventBus → Result Error EventBus
publish transport e bus =
    if is_in e.event_type bus.registered
    then ok (
        forward transport e (
          deliver_all e (listed e.event_type bus.by_type ++ bus.all_types)
            (record bus { stats = note_publish e.event_type bus.stats })))
    else raise value_error

-- `frozenset(resolved)`.
abbrev pub frozen : List String → List String
frozen [] = []
frozen (name ∷ names) = let rest = frozen names in if is_in name rest then rest else name ∷ rest

-- `subscribe`: `number` is the new object.
abbrev pub list_subscription : ℕ → Subscription → EventBus → EventBus
list_subscription number s bus =
    let store = bus.store ++ (record { number = number; subscription = s } ∷ []) in
    if is_empty s.types
    then record bus { all_types = bus.all_types ++ (number ∷ []); store = store }
    else record bus { by_type = list_under_all number s.types bus.by_type; store = store }

unfoldable pub subscribe :
    (number : ℕ)
    → String
    → List String
    → Option (Event → Option Bool)
    → DeliveryPolicy
    → EventBus
    → Result Error EventBus
subscribe number subscription_id event_types predicate policy bus =
    let names = frozen event_types in
    if all (λ name. is_in name bus.registered) names
    then ok (list_subscription number (new_subscription subscription_id names predicate policy) bus)
    else raise value_error

-- `subs.remove(subscription)`, where it is in.
abbrev pub unlist_entry : ℕ → TypeIndex → TypeIndex
unlist_entry number entry = record entry { numbers = remove_number number entry.numbers }

abbrev pub close_cell : ℕ → List Cell → List Cell
close_cell number cells = elim (find_cell number cells) [
  | none ↦ cells
  | some s ↦ put_cell number (close s) cells
]

abbrev pub close_cells : List ℕ → List Cell → List Cell
close_cells [] cells = cells
close_cells (number ∷ numbers) cells = close_cells numbers (close_cell number cells)

abbrev pub listed_numbers : List TypeIndex → List ℕ
listed_numbers [] = []
listed_numbers (entry ∷ index) = entry.numbers ++ listed_numbers index

unfoldable pub unsubscribe : ℕ → EventBus → EventBus
unsubscribe number bus = record bus {
  by_type = map (unlist_entry number) bus.by_type;
  all_types = remove_number number bus.all_types;
  store = close_cell number bus.store;
}

abbrev pub subscription_count : EventBus → ℕ
subscription_count bus = length bus.all_types + length (listed_numbers bus.by_type)

-- `EventBus.close`.
abbrev pub close_bus : EventBus → EventBus
close_bus bus = record bus {
  by_type = [];
  all_types = [];
  store = close_cells (bus.all_types ++ listed_numbers bus.by_type) bus.store;
}
