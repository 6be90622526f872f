-- ===== src/Exposure.antt =====
-- vision_os/exposure/subscriptions.py: the stream of one consumer, with the messages and policies of
-- vision_os/core/model/api.py. The clock is an argument. The values of `_conflated` stand in the order in
-- which their objects came first.
pub mod Losses
pub mod Order
pub mod Stream
pub mod Conflation
pub mod Hub
pub mod Index
pub mod Reach
mod Tests
use unityworks_vision_ai_bac.Prelude.{
  ℕ, zero, ◌+◌, ◌-◌, String, Bool, true, false, ltb, leb, str_eq, if◌then◌else◌, length, take, drop,
  List, [], ◌∷◌, ◌++◌, map, Option, none, some, to_list, Result, ok, raise,
}
use unityworks_vision_ai_bac.Authorization.Platform.{Scope}

pub data Error : Type 0 where
  value_error : Error

pub data ObservationType : Type 0 where
  presence spatial attribute identity lifecycle quality coverage : ObservationType

pub record Observation : Type 0 where
  pub observation_id : String
  pub observation_type : ObservationType
  pub tenant_id : String
  pub camera_id : String
  pub t_capture : ℕ
  pub object_id : Option String
  pub class_id : Option String
  pub attribute_keys : List String

pub data GapReason : Type 0 where
  slow_consumer platform_blind budget_shed partition_unavailable retention_expired : GapReason

abbrev pub recoverable_reason : GapReason → Bool
recoverable_reason platform_blind = false
recoverable_reason retention_expired = false
recoverable_reason _ = true

pub record Gap : Type 0 where
  pub start : ℕ
  pub end : ℕ
  pub reason : GapReason
  pub cameras : List String
  pub observations_missed : Option ℕ
  pub recoverable : Bool

pub data Message : Type 0 where
  observed : Observation → Message
  state_delta :
      (camera_id : String) → (changed_objects changed_regions : List String) → Option ℕ → Message
  gap : Gap → Message
  heartbeat : (at : ℕ) → (cursor : Option String) → Message
  coverage_change : (camera_id status reason : String) → (at : ℕ) → Message

pub data OverflowPolicy : Type 0 where
  conflate drop_with_gap disconnect : OverflowPolicy

pub record DeliveryPolicy : Type 0 where
  pub overflow : OverflowPolicy
  pub heartbeat : ℕ
  pub resume_from : Option String
  pub queue_capacity : ℕ

abbrev pub check_policy : DeliveryPolicy → Result Error (Unit {0})
check_policy p =
    if ltb p.queue_capacity 1
    then raise value_error
    else if leb p.heartbeat 0
    then raise value_error
    else ok tt

pub record SubscriptionFilter : Type 0 where
  pub observation_types : List ObservationType
  pub class_ids : List String
  pub object_ids : List String
  pub attribute_keys : List String

pub record SubscriptionStats : Type 0 where
  pub delivered : ℕ
  pub dropped : ℕ
  pub gaps : ℕ
  pub conflated : ℕ
  pub heartbeats : ℕ

pub record Subscription : Type 0 where
  pub subscription_id : String
  pub scope : Scope
  pub filter : SubscriptionFilter
  pub policy : DeliveryPolicy
  pub stats : SubscriptionStats
  pub queue : List Message
  pub conflated : List Observation
  pub cursor : Option String
  pub pending_gap : Option Gap
  pub last_heartbeat : ℕ
  pub closed : Bool

abbrev pub new_subscription :
    String → Scope → SubscriptionFilter → DeliveryPolicy → (now : ℕ) → Subscription
new_subscription subscription_id scope filter policy now = record {
  subscription_id = subscription_id;
  scope = scope;
  filter = filter;
  policy = policy;
  stats = record { delivered = 0; dropped = 0; gaps = 0; conflated = 0; heartbeats = 0 };
  queue = [];
  conflated = [];
  cursor = policy.resume_from;
  pending_gap = none;
  last_heartbeat = now;
  closed = false;
}

-- `_moment_of(around) or now`, `_cameras_of` and `_cursor_of`.
abbrev pub moment_of : Message → (now : ℕ) → ℕ
moment_of (observed o) now = o.t_capture
moment_of (state_delta camera_id objects regions none) now = now
moment_of (state_delta camera_id objects regions (some at)) now = at
moment_of (gap g) now = g.start
moment_of (heartbeat at cursor) now = at
moment_of (coverage_change camera_id status reason at) now = at

abbrev pub cameras_of : Message → List String
cameras_of (observed o) = o.camera_id ∷ []
cameras_of (state_delta camera_id objects regions at) = camera_id ∷ []
cameras_of (coverage_change camera_id status reason at) = camera_id ∷ []
cameras_of _ = []

abbrev pub cursor_of : Message → Option String
cursor_of (observed o) = some o.observation_id
cursor_of _ = none

-- `missed or 0`.
abbrev pub or_zero : Option ℕ → ℕ
or_zero none = 0
or_zero (some n) = n

-- `_note_gap`: the pending gap is widened, or there is a first one.
abbrev pub widened : Option Gap → Message → GapReason → (missed now : ℕ) → Gap
widened none around reason missed now = record {
  start = moment_of around now;
  end = moment_of around now;
  reason = reason;
  cameras = cameras_of around;
  observations_missed = some missed;
  recoverable = recoverable_reason reason;
}
widened (some g) around reason missed now = record g {
  end = moment_of around now;
  observations_missed = some (or_zero g.observations_missed + missed);
}

abbrev pub count_gap : Option Gap → SubscriptionStats → SubscriptionStats
count_gap none st = record st { gaps = st.gaps + 1 }
count_gap (some g) st = st

abbrev pub note_gap : Message → GapReason → (missed now : ℕ) → Subscription → Subscription
note_gap around reason missed now s = record s {
  pending_gap = some (widened s.pending_gap around reason missed now);
  stats = count_gap s.pending_gap s.stats;
}

-- `_conflate`: the latest observation of each object.
abbrev pub has_object : String → List Observation → Bool
has_object object [] = false
has_object object (o ∷ os) =
    let rest = has_object object os in
    elim o.object_id [ none ↦ rest | some held ↦ if str_eq held object then true else rest ]

abbrev pub put_object : String → Observation → List Observation → List Observation
put_object object new [] = new ∷ []
put_object object new (o ∷ os) =
    let rest = put_object object new os in
    elim o.object_id [
      | none ↦ o ∷ rest
      | some held ↦ if str_eq held object then new ∷ os else o ∷ rest
    ]

abbrev pub count_dropped : Subscription → Subscription
count_dropped s = record s { stats = record s.stats { dropped = s.stats.dropped + 1 } }

abbrev pub conflate_object : Observation → String → (now : ℕ) → Subscription → Subscription × Bool
conflate_object o object now s =
    let held = record s { conflated = put_object object o s.conflated } in
    let noted =
      if has_object object s.conflated
      then held
      else note_gap (observed o) slow_consumer 0 now held in
    (record noted { stats = record noted.stats { conflated = noted.stats.conflated + 1 } }, true)

unfoldable pub conflate_message : Message → (now : ℕ) → Subscription → Subscription × Bool
conflate_message (observed o) now s = elim o.object_id [
  | none ↦ (note_gap (observed o) slow_consumer 1 now (count_dropped s), false)
  | some object ↦ conflate_object o object now s
]
conflate_message message now s = (note_gap message slow_consumer 1 now (count_dropped s), false)

-- `_overflow` with the policy to drop the oldest, at a queue that holds a message.
abbrev pub drop_oldest : List Message → Message → (now : ℕ) → Subscription → Subscription
drop_oldest [] message now s = record s { queue = message ∷ [] }
drop_oldest (oldest ∷ rest) message now s =
    note_gap oldest slow_consumer 1 now
      (count_dropped (record s { queue = rest ++ (message ∷ []) }))

unfoldable pub overflow : Message → (now : ℕ) → Subscription → Subscription × Bool
unfolding conflate_message
overflow message now s = elim s.policy.overflow [
  | conflate ↦ conflate_message message now s
  | disconnect ↦
      (note_gap message slow_consumer (length s.queue) now (record s { closed = true }), false)
  | drop_with_gap ↦ (drop_oldest s.queue message now s, true)
]

-- `offer`, with whether the message was accepted.
unfoldable pub offer : Message → (now : ℕ) → Subscription → Subscription × Bool
unfolding overflow
offer message now s =
    if s.closed
    then (s, false)
    else if ltb (length s.queue) s.policy.queue_capacity
    then (
      record s {
        queue = s.queue ++ (message ∷ []);
        stats = record s.stats { delivered = s.stats.delivered + 1 };
      },
      true,
    )
    else overflow message now s

-- `drain`: the pending gap, the conflated observations, and messages of the queue up to the limit on all.
abbrev pub announced : Subscription → List Message
announced s = map gap (to_list s.pending_gap)

abbrev pub room_for : (limit : ℕ) → Subscription → ℕ
room_for limit s = limit - length (announced s ++ map observed s.conflated)

abbrev pub handed : (limit : ℕ) → Subscription → List Message
handed limit s = map observed s.conflated ++ take (room_for limit s) s.queue

abbrev pub last_cursor : Option String → List Message → Option String
last_cursor cursor [] = cursor
last_cursor cursor (m ∷ ms) =
    last_cursor (elim (cursor_of m) [ none ↦ cursor | some c ↦ some c ]) ms

unfoldable pub drain : (limit : ℕ) → Subscription → Subscription × List Message
drain limit s =
    let out = announced s ++ handed limit s in
    (
      record s {
        pending_gap = none;
        conflated = [];
        queue = drop (room_for limit s) s.queue;
        cursor = last_cursor s.cursor out;
      },
      out,
    )

abbrev pub heartbeat_due : (now : ℕ) → Subscription → Bool
heartbeat_due now s = leb (s.last_heartbeat + s.policy.heartbeat) now

abbrev pub beat : (now : ℕ) → Subscription → Subscription × Message
beat now s = (
  record s { last_heartbeat = now; stats = record s.stats { heartbeats = s.stats.heartbeats + 1 } },
  heartbeat now s.cursor,
)

abbrev pub close : Subscription → Subscription
close s = record s { closed = true; queue = []; conflated = [] }

abbrev pub depth : Subscription → ℕ
depth s = length s.queue + length s.conflated

abbrev pub lagging : Subscription → Bool
lagging s = leb s.policy.queue_capacity (depth s)
