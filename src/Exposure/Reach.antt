-- ===== src/Exposure/Reach.antt =====
-- vision_os/exposure/subscriptions.py: whom the hub reaches, whatever was called on it before.
use unityworks_vision_ai_bac.Prelude.{
  ℕ, ◌≡◌, refl, ap, String, Bool, true, false, ◌&&◌, All, Bool-cases, inl, inr, List, [], ◌∷◌,
  arith,
}
use unityworks_vision_ai_bac.Authorization.Platform.{covers_camera}
use unityworks_vision_ai_bac.Exposure.{
  ObservationType, SubscriptionFilter, Message, observed, Gap, Observation, Subscription,
}
use unityworks_vision_ai_bac.Exposure.Hub.{
  is_in, CameraIndex, SubscriptionHub, new_hub, cameras_of_gap, matches, wants_type, holds_camera,
  is_candidate, in_scope, add, remove, offer_where, with_subs, publish_one, publish, publish_camera,
  publish_gap, beats,
}
use unityworks_vision_ai_bac.Exposure.Index.{
  IsListed, IsCovered, add-IsCovered, remove-IsCovered, offer_where-IsListed, beat_all-IsListed,
  gap_from-IsCovered,
}

offer_where-picks :
    (picks chooses : Subscription → Bool) (message : Message) (now : ℕ) (subs : List Subscription)
    → All (λ s. picks s ≡ chooses s) subs
    → offer_where picks message now subs ≡ offer_where chooses message now subs
unfolding offer_where
offer_where-picks picks chooses message now [] same = refl
offer_where-picks picks chooses message now (s ∷ subs) same =
    ground (arith, same, offer_where-picks picks chooses message now subs same.1)

-- A scan of all subscriptions, with no index.
abbrev pub scan_one :
    (String → String → Bool) → (now : ℕ) → Observation → SubscriptionHub → SubscriptionHub × ℕ
scan_one under now o hub =
    with_subs
      (offer_where (λ s. in_scope s o && matches under s.filter o) (observed o) now hub.subs) hub

abbrev pub scan_camera : (now : ℕ) → String → Message → SubscriptionHub → SubscriptionHub × ℕ
scan_camera now camera_id message hub =
    with_subs (offer_where (λ s. covers_camera s.scope camera_id) message now hub.subs) hub

matches-wants_type :
    (under : String → String → Bool) (f : SubscriptionFilter) (o : Observation)
    → matches under f o ≡ true
    → wants_type f o.observation_type ≡ true
unfolding matches
matches-wants_type under f o h = ground arith

-- Where a subscription is listed, the candidates miss it for no observation that it is to have.
candidate-picks :
    (under : String → String → Bool) (hub : SubscriptionHub) (o : Observation) (s : Subscription)
    → IsListed hub.by_type hub.by_camera s
    → (is_candidate hub o s && in_scope s o && matches under s.filter o)
      ≡ (in_scope s o && matches under s.filter o)
candidate-picks under hub o s (typed, placed) = elim (Bool-cases (matches under s.filter o)) [
  | inr no_match ↦ ground arith
  | inl match ↦ elim (Bool-cases (is_in o.camera_id s.scope.camera_ids)) [
    | inl inside ↦ ground (
      arith,
      typed o.observation_type (matches-wants_type under s.filter o match),
      placed o.camera_id inside,
    )
    | inr outside ↦
        ground (arith, typed o.observation_type (matches-wants_type under s.filter o match))
  ]
]

camera-picks :
    (hub : SubscriptionHub) (camera_id : String) (s : Subscription)
    → IsListed hub.by_type hub.by_camera s
    → (holds_camera hub camera_id s && covers_camera s.scope camera_id)
      ≡ covers_camera s.scope camera_id
camera-picks hub camera_id s (typed, placed) =
    elim (Bool-cases (is_in camera_id s.scope.camera_ids)) [
      | inl inside ↦ ground (arith, placed camera_id inside)
      | inr outside ↦ ground arith
    ]

All-of_listed :
    (by_type : ObservationType → List String) (by_camera : List CameraIndex)
    (P : Subscription → Type 0) (subs : List Subscription)
    → ((s : Subscription) → IsListed by_type by_camera s → P s)
    → All (IsListed by_type by_camera) subs
    → All P subs
All-of_listed by_type by_camera P [] imply held = tt
All-of_listed by_type by_camera P (s ∷ subs) imply held =
    (imply s held.0, All-of_listed by_type by_camera P subs imply held.1)

publish_one-scan :
    (under : String → String → Bool) (now : ℕ) (o : Observation) (hub : SubscriptionHub)
    → IsCovered hub
    → publish_one under now o hub ≡ scan_one under now o hub
unfolding publish_one
publish_one-scan under now o hub covered =
    ap (λ (r : List Subscription × ℕ). with_subs r hub)
      (offer_where-picks (λ s. is_candidate hub o s && in_scope s o && matches under s.filter o)
        (λ s. in_scope s o && matches under s.filter o) (observed o) now hub.subs
        (All-of_listed hub.by_type hub.by_camera _ hub.subs (candidate-picks under hub o) covered))

publish_camera-scan :
    (now : ℕ) (camera_id : String) (message : Message) (hub : SubscriptionHub)
    → IsCovered hub
    → publish_camera now camera_id message hub ≡ scan_camera now camera_id message hub
unfolding publish_camera
publish_camera-scan now camera_id message hub covered =
    ap (λ (r : List Subscription × ℕ). with_subs r hub)
      (offer_where-picks (λ s. holds_camera hub camera_id s && covers_camera s.scope camera_id)
        (λ s. covers_camera s.scope camera_id) message now hub.subs
        (All-of_listed hub.by_type hub.by_camera _ hub.subs (camera-picks hub camera_id) covered))

publish-IsCovered :
    (under : String → String → Bool) (now : ℕ) (os : List Observation) (hub : SubscriptionHub)
    → IsCovered hub
    → IsCovered (publish under now os hub).0
unfolding publish publish_one
publish-IsCovered under now [] hub covered = covered
publish-IsCovered under now (o ∷ os) hub covered =
    publish-IsCovered under now os (publish_one under now o hub).0 (
      offer_where-IsListed hub.by_type hub.by_camera
        (λ s. is_candidate hub o s && in_scope s o && matches under s.filter o) (observed o) now
        hub.subs covered)

-- The calls of the hub.
pub data HubCall : Type 0 where
  adds : Subscription → HubCall
  removes : String → HubCall
  publishes : (now : ℕ) → List Observation → HubCall
  publishes_camera : (now : ℕ) → String → Message → HubCall
  publishes_gap : (now : ℕ) → Gap → HubCall
  beats_at : ℕ → HubCall

unfoldable pub perform : (String → String → Bool) → HubCall → SubscriptionHub → SubscriptionHub
perform under (adds s) hub = add s hub
perform under (removes id) hub = remove id hub
perform under (publishes now os) hub = (publish under now os hub).0
perform under (publishes_camera now camera_id message) hub =
    (publish_camera now camera_id message hub).0
perform under (publishes_gap now g) hub = (publish_gap now g hub).0
perform under (beats_at now) hub = (beats now hub).0

unfoldable pub run : (String → String → Bool) → List HubCall → SubscriptionHub → SubscriptionHub
run under [] hub = hub
run under (call ∷ calls) hub = run under calls (perform under call hub)

perform-IsCovered :
    (under : String → String → Bool) (call : HubCall) (hub : SubscriptionHub)
    → IsCovered hub
    → IsCovered (perform under call hub)
unfolding perform publish_camera publish_gap beats
perform-IsCovered under (adds s) hub covered = add-IsCovered s hub covered
perform-IsCovered under (removes id) hub covered = remove-IsCovered id hub covered
perform-IsCovered under (publishes now os) hub covered = publish-IsCovered under now os hub covered
perform-IsCovered under (publishes_camera now camera_id message) hub covered =
    offer_where-IsListed hub.by_type hub.by_camera
      (λ s. holds_camera hub camera_id s && covers_camera s.scope camera_id) message now hub.subs
      covered
perform-IsCovered under (publishes_gap now g) hub covered =
    gap_from-IsCovered now g (cameras_of_gap g hub) (λ s. false) hub covered
perform-IsCovered under (beats_at now) hub covered =
    beat_all-IsListed hub.by_type hub.by_camera now hub.subs covered

run-IsCovered :
    (under : String → String → Bool) (calls : List HubCall) (hub : SubscriptionHub)
    → IsCovered hub
    → IsCovered (run under calls hub)
unfolding run
run-IsCovered under [] hub covered = covered
run-IsCovered under (call ∷ calls) hub covered =
    run-IsCovered under calls (perform under call hub) (perform-IsCovered under call hub covered)

-- Whatever was called on a new hub, an observation is offered to exactly the subscriptions that a scan of
-- all of them would pick: those of its tenant whose scope covers its camera and whose filter it matches.
-- A state delta or a coverage change is offered to exactly those whose scope covers its camera, of
-- whichever tenant they are.
pub run-scans :
    (under : String → String → Bool) (calls : List HubCall) (now : ℕ) (o : Observation)
    (camera_id : String) (message : Message)
    → let hub = run under calls new_hub in
      (publish_one under now o hub ≡ scan_one under now o hub)
      × (publish_camera now camera_id message hub ≡ scan_camera now camera_id message hub)
run-scans under calls now o camera_id message =
    let covered = run-IsCovered under calls new_hub tt in
    (
      publish_one-scan under now o (run under calls new_hub) covered,
      publish_camera-scan now camera_id message (run under calls new_hub) covered,
    )
