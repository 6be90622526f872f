-- ===== src/Events.antt =====
-- vision_os/kernel/events/bus.py: the bounded queue of one subscriber. Events are offered to it on the
-- publisher's side and drained by its owner. A predicate that raises is one without an answer.
pub mod Queue
pub mod Offers
pub mod Keys
pub mod Bus
pub mod Registrations
pub mod Fanout
pub mod Upkeep
pub mod Calls
mod Tests
use unityworks_vision_ai_bac.Prelude.{
  ℕ, ◌+◌, String, Bool, true, false, not, ◌||◌, ltb, leb, str_eq, if◌then◌else◌, any, length, take,
  drop, List, [], ◌∷◌, ◌++◌, map, Option, none, some, Result, ok, raise, is_empty,
}

pub data Error : Type 0 where
  value_error : Error

-- `Event`, with the `event_type` of its class.
pub record Event : Type 0 where
  pub event_type : String
  pub partition_key : String
  pub occurred_at : ℕ
  pub detail : String

-- The events that `drain` makes of drops, and those that it takes from the queue.
pub record Gap : Type 0 where
  pub occurred_at : ℕ
  pub subscription_id : String
  pub dropped : ℕ

pub data Delivery : Type 0 where
  gap : Gap → Delivery
  event : Event → Delivery

pub data OverflowPolicy : Type 0 where
  drop_oldest drop_newest conflate : OverflowPolicy

pub record DeliveryPolicy : Type 0 where
  pub capacity : ℕ
  pub overflow : OverflowPolicy

abbrev pub default_policy : DeliveryPolicy
default_policy = record { capacity = 1024; overflow = drop_oldest }

-- `__post_init__`.
abbrev pub check_policy : DeliveryPolicy → Result Error (Unit {0})
check_policy p = if ltb p.capacity 1 then raise value_error else ok tt

pub record Subscription : Type 0 where
  pub subscription_id : String
  pub types : List String
  pub predicate : Option (Event → Option Bool)
  pub policy : DeliveryPolicy
  pub queue : List Event
  pub dropped : ℕ
  pub undeclared_drops : ℕ
  pub closed : Bool

abbrev pub new_subscription :
    String → List String → Option (Event → Option Bool) → DeliveryPolicy → Subscription
new_subscription subscription_id types predicate policy = record {
  subscription_id = subscription_id;
  types = types;
  predicate = predicate;
  policy = policy;
  queue = [];
  dropped = 0;
  undeclared_drops = 0;
  closed = false;
}

abbrev pub is_in : String → List String → Bool
is_in name names = any (λ n. str_eq n name) names

-- `matches`.
abbrev pub passes : Option (Event → Option Bool) → Event → Bool
passes none e = true
passes (some p) e = elim (p e) [ none ↦ false | some b ↦ b ]

unfoldable pub matches : Subscription → Event → Bool
matches s e = if is_empty s.types || is_in e.event_type s.types then passes s.predicate e else false

-- `self._queue[index] = event`, at the first event of the same partition, if there is one.
unfoldable pub conflated : Event → List Event → Option (List Event)
conflated e [] = none
conflated e (x ∷ xs) =
    let rest = conflated e xs in
    if str_eq x.partition_key e.partition_key
    then some (e ∷ xs)
    else elim rest [ none ↦ none | some ys ↦ some (x ∷ ys) ]

-- `_offer` past the conflation.
unfoldable pub enqueue : Subscription → Event → Subscription × ℕ
enqueue s e =
    if ltb (length s.queue) s.policy.capacity
    then (record s { queue = s.queue ++ (e ∷ []) }, 0)
    else elim s.policy.overflow [
      | drop_newest ↦
          (record s { dropped = s.dropped + 1; undeclared_drops = s.undeclared_drops + 1 }, 1)
      | _ ↦ (
        record s {
          queue = drop 1 s.queue ++ (e ∷ []);
          dropped = s.dropped + 1;
          undeclared_drops = s.undeclared_drops + 1;
        },
        1,
      )
    ]

-- `_offer`: the subscription after it, and the number dropped.
unfoldable pub offer : Subscription → Event → Subscription × ℕ
unfolding conflated enqueue
offer s e = if s.closed then (s, 0) else elim s.policy.overflow [
  | conflate ↦ elim (conflated e s.queue) [
    | some queue ↦ (record s { queue = queue }, 0)
    | none ↦ enqueue s e
  ]
  | _ ↦ enqueue s e
]

-- `drain`: the `limit` is none or a number of events.
abbrev pub declared : Subscription → (now : ℕ) → List Delivery
declared s now =
    if leb 1 s.undeclared_drops
    then gap (record {
      occurred_at = now;
      subscription_id = s.subscription_id;
      dropped = s.undeclared_drops;
    })
      ∷ []
    else []

abbrev pub drained : Option ℕ → List Event → List Event
drained none queue = queue
drained (some limit) queue = if leb (length queue) limit then queue else take limit queue

abbrev pub kept : Option ℕ → List Event → List Event
kept none queue = []
kept (some limit) queue = if leb (length queue) limit then [] else drop limit queue

unfoldable pub drain : Subscription → Option ℕ → (now : ℕ) → Subscription × List Delivery
drain s limit now = (
  record s { queue = kept limit s.queue; undeclared_drops = 0 },
  declared s now ++ map event (drained limit s.queue),
)

abbrev pub close : Subscription → Subscription
close s = record s { closed = true; queue = [] }
