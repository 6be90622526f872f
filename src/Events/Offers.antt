-- ===== src/Events/Offers.antt =====
-- vision_os/kernel/events/bus.py: what the two dropping policies keep of a burst of events.
use unityworks_vision_ai_bac.Prelude.{ℕ, ◌-◌, ◌≡◌, length, take, drop, List, [], ◌∷◌}
use unityworks_vision_ai_bac.Events.{Event, OverflowPolicy, drop_newest, Subscription, offer}

-- The events of a burst, one after the other.
unfoldable pub offer_all : Subscription → List Event → Subscription
offer_all s [] = s
offer_all s (e ∷ es) = offer_all (offer s e).0 es

-- What a policy keeps of the events that arrived: the last ones, or the first ones.
abbrev pub survivors : OverflowPolicy → (capacity : ℕ) → List Event → List Event
survivors drop_newest capacity es = take capacity es
survivors _ capacity es = drop (length es - capacity) es

-- The queue holds what the policy keeps of the events that arrived, and the others are counted.
pub record Holds (s : Subscription) (arrived : List Event) : Type 0 where
  pub survives : s.queue ≡ survivors s.policy.overflow s.policy.capacity arrived
  pub counted : s.undeclared_drops ≡ length arrived - s.policy.capacity
