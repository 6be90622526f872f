-- ===== src/Exposure/Tests.antt =====
-- Subscriptions and the hub on concrete messages.
use mathlib.Core.List.{Sublist}
use unityworks_vision_ai_bac.Prelude.{
  ◌+◌, ◌≤◌, ◌≡◌, refl, String, Bool, true, false, length, List, [], ◌∷◌, ◌++◌, none, some, arith,
}
use unityworks_vision_ai_bac.Authorization.Platform.{Scope}
use unityworks_vision_ai_bac.Exposure.{
  Observation, presence, Message, observed, gap, slow_consumer, coverage_change, platform_blind,
  OverflowPolicy, conflate, drop_with_gap, SubscriptionFilter, Subscription, new_subscription,
  offer, overflow, drain, depth,
}
use unityworks_vision_ai_bac.Exposure.Order.{genuine}
use unityworks_vision_ai_bac.Exposure.Losses.{pending, accounted}
use unityworks_vision_ai_bac.Exposure.Stream
use unityworks_vision_ai_bac.Exposure.Stream.{Call, offers, drains, run-accounted}
use unityworks_vision_ai_bac.Exposure.Conflation.{offer_observations, offer_observations-depth}
use unityworks_vision_ai_bac.Exposure.Hub.{
  new_hub, add, offer_where, publish_one, publish_camera, publish_gap, gap_from, matches,
}
use unityworks_vision_ai_bac.Exposure.Reach.{
  HubCall, adds, scan_one, scan_camera, perform, run, run-scans,
}

abbrev under : String → String → Bool
under class known = false

abbrev scope_of : String → Scope
scope_of tenant = record { tenant_id = tenant; site_ids = []; camera_ids = []; region_ids = [] }

abbrev any_filter : SubscriptionFilter
any_filter = record { observation_types = []; class_ids = []; object_ids = []; attribute_keys = [] }

abbrev stream_of : String → String → OverflowPolicy → Subscription
stream_of id tenant policy =
    new_subscription id (scope_of tenant) any_filter
      (record { overflow = policy; heartbeat = 10; resume_from = none; queue_capacity = 1 }) 0

abbrev seen : String → String → Observation
seen id object = record {
  observation_id = id;
  observation_type = presence;
  tenant_id = "acme";
  camera_id = "cam-1";
  t_capture = 5;
  object_id = some object;
  class_id = none;
  attribute_keys = [];
}

abbrev two_offers : List Call
two_offers =
    offers (observed (seen "obs-1" "obj-1")) 6
    ∷ offers (observed (seen "obs-2" "obj-2")) 7
    ∷ drains 9
    ∷ []

-- The second offer drops the first message, and the drain announces that.
abbrev one_dropped : Message
one_dropped = gap (record {
  start = 5;
  end = 5;
  reason = slow_consumer;
  cameras = "cam-1" ∷ [];
  observations_missed = some 1;
  recoverable = true;
})

drop_told :
    (Stream.run (stream_of "sub-1" "acme" drop_with_gap) two_offers).1
    ≡ one_dropped ∷ observed (seen "obs-2" "obj-2") ∷ []
unfolding Stream.run offer overflow drain
drop_told = refl

run-accounted_example :
    let (t, told) = Stream.run (stream_of "sub-1" "acme" drop_with_gap) two_offers in
    Sublist
      (genuine told ++ t.queue)
      (observed (seen "obs-1" "obj-1") ∷ observed (seen "obs-2" "obj-2") ∷ [])
    × (accounted told + length t.queue + pending t.pending_gap ≡ 2)
    × (length t.queue ≤ 1)
run-accounted_example =
    run-accounted (stream_of "sub-1" "acme" drop_with_gap) two_offers (refl, (refl, tt))
      (record {
        is_open = refl;
        dropping = refl;
        capacity_pos = omega arith;
        within = omega arith;
        unmerged = refl;
        unlost = tt;
        loss = tt;
      })

-- A conflating stream of capacity 1 with a message in its queue.
abbrev full_stream : Subscription
full_stream = record (stream_of "sub-1" "acme" conflate) {
  queue = observed (seen "obs-0" "obj-0") ∷ [];
}

offer_observations-depth_example :
    depth (offer_observations (seen "obs-1" "obj-1" ∷ seen "obs-2" "obj-2" ∷ []) 8 full_stream) ≡ 3
offer_observations-depth_example =
    offer_observations-depth (seen "obs-1" "obj-1" ∷ seen "obs-2" "obj-2" ∷ []) 8 full_stream
      (record { is_open = refl; conflating = refl; full = omega arith })
      ("obj-1", refl, refl, ("obj-2", refl, refl, tt))

-- Two subscribers to everything, of two tenants.
abbrev two_tenants : List HubCall
two_tenants =
    adds (stream_of "sub-1" "acme" drop_with_gap)
    ∷ adds (stream_of "sub-2" "other" drop_with_gap)
    ∷ []

-- One of them is reached by an observation, both by a coverage change of the camera, and neither by a
-- gap that names no camera.
reached_by_observation :
    (publish_one under 9 (seen "obs-1" "obj-1") (run under two_tenants new_hub)).1 ≡ 1
unfolding run perform add publish_one offer_where matches offer
reached_by_observation = refl

reached_by_coverage :
    (publish_camera 9 "cam-1"
      (coverage_change "cam-1" "blind" "dark" 8)
      (run under two_tenants new_hub)).1
    ≡ 2
unfolding run perform add publish_camera offer_where offer
reached_by_coverage = refl

reached_by_gap :
    (publish_gap 9
      (record {
        start = 8;
        end = 9;
        reason = platform_blind;
        cameras = [];
        observations_missed = none;
        recoverable = false;
      })
      (run under two_tenants new_hub)).1
    ≡ 0
unfolding run perform add publish_gap gap_from offer_where offer
reached_by_gap = refl

run-scans_example :
    let hub = run under two_tenants new_hub in
    (publish_one under 9 (seen "obs-1" "obj-1") hub ≡ scan_one under 9 (seen "obs-1" "obj-1") hub)
    × (publish_camera 9 "cam-1" (coverage_change "cam-1" "blind" "dark" 8) hub
        ≡ scan_camera 9 "cam-1" (coverage_change "cam-1" "blind" "dark" 8) hub)
run-scans_example =
    run-scans under two_tenants 9 (seen "obs-1" "obj-1") "cam-1"
      (coverage_change "cam-1" "blind" "dark" 8)
