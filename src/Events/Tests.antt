-- ===== src/Events/Tests.antt =====
-- The queue of a subscriber and the bus on concrete events.
use unityworks_vision_ai_bac.Prelude.{ℕ, ◌≡◌, refl, String, List, [], ◌∷◌, none, some, arith}
use unityworks_vision_ai_bac.Events.{
  Event, gap, event, OverflowPolicy, drop_oldest, conflate, Subscription, new_subscription, matches,
  enqueue, offer, drain,
}
use unityworks_vision_ai_bac.Events.Bus.{
  EventBus, new_bus, publish, subscribe, deliver_all, deliver_to, find_cell, note_publish,
}
use unityworks_vision_ai_bac.Events.Queue
use unityworks_vision_ai_bac.Events.Queue.{Call, offers, drains, IsOpen, Told, run-Told}
use unityworks_vision_ai_bac.Events.Keys.{Latest, history, run-Latest}
use unityworks_vision_ai_bac.Events.Registrations.{Registration}
use unityworks_vision_ai_bac.Events.Calls.{BusCall, subscribes, perform, run, run-reaches}

abbrev seen : Event
seen = record { event_type = "seen"; partition_key = "cam-1"; occurred_at = 1; detail = "first" }

abbrev seen_later : Event
seen_later = record {
  event_type = "seen";
  partition_key = "cam-1";
  occurred_at = 2;
  detail = "second";
}

abbrev lost : Event
lost = record { event_type = "lost"; partition_key = "cam-2"; occurred_at = 3; detail = "third" }

abbrev of_policy : ℕ → OverflowPolicy → Subscription
of_policy capacity overflow =
    new_subscription "sub-1" [] none (record { capacity = capacity; overflow = overflow })

abbrev two_of_three : List Call
two_of_three = offers seen ∷ offers seen_later ∷ offers lost ∷ drains (some 1) 7 ∷ []

small-IsOpen : IsOpen (of_policy 2 drop_oldest)
small-IsOpen = record {
  is_open = refl;
  dropping = λ h. cc;
  capacity_pos = omega arith;
  within = omega arith;
}

-- The oldest of three events is dropped; the drain declares it and hands out the second.
oldest_dropped : Queue.run (of_policy 2 drop_oldest) two_of_three ≡ (
  record (of_policy 2 drop_oldest) { queue = lost ∷ []; dropped = 1 },
  gap (record { occurred_at = 7; subscription_id = "sub-1"; dropped = 1 }) ∷ event seen_later ∷ [],
)
unfolding Queue.run offer enqueue drain
oldest_dropped = refl

run-Told_example :
    Told
      (of_policy 2 drop_oldest)
      two_of_three
      (Queue.run (of_policy 2 drop_oldest) two_of_three).0
      (Queue.run (of_policy 2 drop_oldest) two_of_three).1
run-Told_example = run-Told (of_policy 2 drop_oldest) two_of_three small-IsOpen

run-Latest_example :
    Latest (history [] two_of_three) (Queue.run (of_policy 2 conflate) two_of_three).0.queue
run-Latest_example =
    run-Latest (of_policy 2 conflate) [] two_of_three (record { is_open = refl; conflating = refl })
      (tt, tt)

-- A subscriber to one type, and one to everything.
abbrev two_subscribers : List BusCall
two_subscribers =
    subscribes "sub-1" ("seen" ∷ "seen" ∷ []) none (record { capacity = 2; overflow = drop_oldest })
    ∷ subscribes "sub-2" [] none (record { capacity = 2; overflow = drop_oldest })
    ∷ []

abbrev known_types : List String
known_types = "seen" ∷ "lost" ∷ []

-- The bus that those calls leave, and what a publish of `lost` makes of it.
abbrev first_sub : Subscription
first_sub =
    new_subscription "sub-1" ("seen" ∷ []) none (record { capacity = 2; overflow = drop_oldest })

abbrev second_sub : Subscription
second_sub = new_subscription "sub-2" [] none (record { capacity = 2; overflow = drop_oldest })

abbrev two_registered : List Registration
two_registered = record { number = 0; types = "seen" ∷ [] } ∷ record { number = 1; types = [] } ∷ []

abbrev used_bus : EventBus
used_bus = record (new_bus known_types) {
  by_type = record { event_type = "seen"; numbers = 0 ∷ [] } ∷ [];
  all_types = 1 ∷ [];
  store =
      record { number = 0; subscription = first_sub }
      ∷ record { number = 1; subscription = second_sub }
      ∷ [];
}

abbrev published_bus : EventBus
published_bus = record used_bus {
  store =
      record { number = 0; subscription = first_sub }
      ∷ record { number = 1; subscription = record second_sub { queue = lost ∷ [] } }
      ∷ [];
  stats = record (note_publish "lost" used_bus.stats) { delivered = 1 };
}

left_bus : run none two_subscribers (new_bus known_types, []) ≡ (used_bus, two_registered)
unfolding run perform subscribe
left_bus = refl

run-reaches_example :
    find_cell 1 published_bus.store ≡ some (record second_sub { queue = lost ∷ [] })
unfolding run perform subscribe publish deliver_all deliver_to matches offer enqueue
run-reaches_example = run-reaches none known_types two_subscribers lost published_bus 1 refl
