-- ===== src/Exposure/Hub.antt =====
-- vision_os/exposure/subscriptions.py: the hub that fans messages out. A set is a list that is only
-- tested for membership. The candidates are taken in the order of the dictionary of subscriptions, as an
-- offer to one changes no other. `under` is the text test `class_id.startswith(known + ".")`.
use unityworks_vision_ai_bac.Prelude.{
  ℕ, ◌+◌, String, Bool, true, false, not, ◌&&◌, ◌||◌, str_eq, if◌then◌else◌, any, keep_if, is_empty,
  List, [], ◌∷◌, map, Option, none, some,
}
use unityworks_vision_ai_bac.Authorization.Platform.{covers_camera}
use unityworks_vision_ai_bac.Exposure.{
  ObservationType, presence, spatial, attribute, identity, lifecycle, quality, coverage,
  Observation, Gap, Message, observed, gap as gap_message, SubscriptionFilter, Subscription, offer,
  close, heartbeat_due, beat,
}

abbrev pub same_type : ObservationType → ObservationType → Bool
same_type presence presence = true
same_type spatial spatial = true
same_type attribute attribute = true
same_type identity identity = true
same_type lifecycle lifecycle = true
same_type quality quality = true
same_type coverage coverage = true
same_type _ _ = false

abbrev pub is_in : String → List String → Bool
is_in x xs = any (λ y. str_eq y x) xs

abbrev pub is_type_in : ObservationType → List ObservationType → Bool
is_type_in kind kinds = any (λ k. same_type k kind) kinds

-- `_class_matches` and `SubscriptionFilter.matches`.
abbrev pub class_matches : (String → String → Bool) → Option String → List String → Bool
class_matches under none wanted = false
class_matches under (some class) wanted =
    any (λ known. str_eq class known || under class known) wanted

abbrev pub object_matches : Option String → List String → Bool
object_matches none wanted = false
object_matches (some object) wanted = is_in object wanted

unfoldable pub matches : (String → String → Bool) → SubscriptionFilter → Observation → Bool
matches under f o =
    if not (is_empty f.observation_types || is_type_in o.observation_type f.observation_types)
    then false
    else if not (is_empty f.class_ids || class_matches under o.class_id f.class_ids)
    then false
    else if not (is_empty f.object_ids || object_matches o.object_id f.object_ids)
    then false
    else is_empty f.attribute_keys || any (λ key. is_in key f.attribute_keys) o.attribute_keys

pub record CameraIndex : Type 0 where
  pub camera_id : String
  pub holders : List String

pub record SubscriptionHub : Type 0 where
  pub subs : List Subscription
  pub by_type : ObservationType → List String
  pub by_camera : List CameraIndex

abbrev pub new_hub : SubscriptionHub
new_hub = record { subs = []; by_type = λ kind. []; by_camera = [] }

-- `set.add` and `set.discard`.
abbrev pub with_id : String → List String → List String
with_id id ids = if is_in id ids then ids else id ∷ ids

abbrev pub without_id : String → List String → List String
without_id id ids = keep_if (λ x. not (str_eq x id)) ids

abbrev pub holders_of : String → List CameraIndex → List String
holders_of camera_id [] = []
holders_of camera_id (entry ∷ index) =
    let rest = holders_of camera_id index in
    if str_eq entry.camera_id camera_id then entry.holders else rest

abbrev pub hold_camera : String → String → List CameraIndex → List CameraIndex
hold_camera id camera_id [] = record { camera_id = camera_id; holders = id ∷ [] } ∷ []
hold_camera id camera_id (entry ∷ index) =
    let rest = hold_camera id camera_id index in
    if str_eq entry.camera_id camera_id
    then record entry { holders = with_id id entry.holders } ∷ index
    else entry ∷ rest

abbrev pub hold_cameras : String → List String → List CameraIndex → List CameraIndex
hold_cameras id [] index = index
hold_cameras id (camera_id ∷ cameras) index =
    hold_cameras id cameras (hold_camera id camera_id index)

abbrev pub put_subscription : Subscription → List Subscription → List Subscription
put_subscription s [] = s ∷ []
put_subscription s (x ∷ subs) =
    let rest = put_subscription s subs in
    if str_eq x.subscription_id s.subscription_id then s ∷ subs else x ∷ rest

abbrev pub wants_type : SubscriptionFilter → ObservationType → Bool
wants_type f kind = is_empty f.observation_types || is_type_in kind f.observation_types

unfoldable pub add : Subscription → SubscriptionHub → SubscriptionHub
add s hub = record {
  subs = put_subscription s hub.subs;
  by_type = λ kind.
      if wants_type s.filter kind
      then with_id s.subscription_id (hub.by_type kind)
      else hub.by_type kind;
  by_camera = hold_cameras s.subscription_id s.scope.camera_ids hub.by_camera;
}

-- `remove`: the keys of the dictionary are distinct, so that one subscription goes. It is closed.
abbrev pub is_subscribed : String → List Subscription → Bool
is_subscribed id subs = any (λ s. str_eq s.subscription_id id) subs

abbrev pub discard_holder : String → CameraIndex → CameraIndex
discard_holder id entry = record entry { holders = without_id id entry.holders }

unfoldable pub remove : String → SubscriptionHub → SubscriptionHub
remove id hub =
    if is_subscribed id hub.subs
    then record {
      subs = keep_if (λ s. not (str_eq s.subscription_id id)) hub.subs;
      by_type = λ kind. without_id id (hub.by_type kind);
      by_camera = map (discard_holder id) hub.by_camera;
    }
    else hub

-- The subscription that `remove` takes out, closed, for the consumer that still has it; and `close_all`.
abbrev pub removed : String → List Subscription → Option Subscription
removed id [] = none
removed id (s ∷ subs) =
    let rest = removed id subs in if str_eq s.subscription_id id then some (close s) else rest

abbrev pub remove_all : List Subscription → SubscriptionHub → SubscriptionHub
remove_all [] hub = hub
remove_all (s ∷ subs) hub = remove_all subs (remove s.subscription_id hub)

abbrev pub close_all : SubscriptionHub → SubscriptionHub
close_all hub = remove_all hub.subs hub

-- An offer to each subscription that a test picks, with the number accepted.
unfoldable pub offer_where :
    (Subscription → Bool) → Message → (now : ℕ) → List Subscription → List Subscription × ℕ
offer_where picks message now [] = ([], 0)
offer_where picks message now (s ∷ subs) =
    let (rest, accepted) = offer_where picks message now subs in
    let (s', taken) = offer message now s in
    if picks s then (s' ∷ rest, if taken then accepted + 1 else accepted) else (s ∷ rest, accepted)

-- `_candidates` and `_for_camera`, as tests.
abbrev pub holds_camera : SubscriptionHub → String → Subscription → Bool
holds_camera hub camera_id s =
    is_in s.subscription_id (holders_of camera_id hub.by_camera) || is_empty s.scope.camera_ids

abbrev pub is_candidate : SubscriptionHub → Observation → Subscription → Bool
is_candidate hub o s =
    is_in s.subscription_id (hub.by_type o.observation_type) && holds_camera hub o.camera_id s

abbrev pub in_scope : Subscription → Observation → Bool
in_scope s o =
    if not (str_eq o.tenant_id s.scope.tenant_id) then false else covers_camera s.scope o.camera_id

abbrev pub with_subs : List Subscription × ℕ → SubscriptionHub → SubscriptionHub × ℕ
with_subs (subs, accepted) hub = (record hub { subs = subs }, accepted)

unfoldable pub publish_one :
    (String → String → Bool) → (now : ℕ) → Observation → SubscriptionHub → SubscriptionHub × ℕ
unfolding offer_where matches
publish_one under now o hub =
    with_subs
      (offer_where (λ s. is_candidate hub o s && in_scope s o && matches under s.filter o)
        (observed o) now hub.subs)
      hub

unfoldable pub publish :
    (String → String → Bool) → (now : ℕ) → List Observation → SubscriptionHub → SubscriptionHub × ℕ
unfolding publish_one
publish under now [] hub = (hub, 0)
publish under now (o ∷ os) hub =
    let (after, accepted) = publish_one under now o hub in
    let (final, more) = publish under now os after in (final, accepted + more)

-- `publish_delta` and `publish_coverage`.
unfoldable pub publish_camera : (now : ℕ) → String → Message → SubscriptionHub → SubscriptionHub × ℕ
unfolding offer_where
publish_camera now camera_id message hub =
    with_subs
      (offer_where (λ s. holds_camera hub camera_id s && covers_camera s.scope camera_id) message
        now hub.subs)
      hub

-- `publish_gap`: each subscription at the first camera of the gap that it holds.
abbrev pub cameras_of_gap : Gap → SubscriptionHub → List String
cameras_of_gap g hub =
    if is_empty g.cameras then map (λ entry. entry.camera_id) hub.by_camera else g.cameras

unfoldable pub gap_from :
    (now : ℕ)
    → Gap
    → List String
    → (seen : Subscription → Bool) → SubscriptionHub
    → SubscriptionHub × ℕ
unfolding offer_where
gap_from now g [] seen hub = (hub, 0)
gap_from now g (camera_id ∷ cameras) seen hub =
    let holds = holds_camera hub camera_id in
    let (after, accepted) =
      with_subs (offer_where (λ s. holds s && not (seen s)) (gap_message g) now hub.subs) hub in
    let (final, more) = gap_from now g cameras (λ s. seen s || holds s) after in
    (final, accepted + more)

unfoldable pub publish_gap : (now : ℕ) → Gap → SubscriptionHub → SubscriptionHub × ℕ
unfolding gap_from
publish_gap now g hub = gap_from now g (cameras_of_gap g hub) (λ s. false) hub

-- `beat`: a heartbeat for each subscription that is due one, with their number.
unfoldable pub beat_all : (now : ℕ) → List Subscription → List Subscription × ℕ
beat_all now [] = ([], 0)
beat_all now (s ∷ subs) =
    let (rest, sent) = beat_all now subs in
    let (beaten, message) = beat now s in
    if heartbeat_due now s
    then ((offer message now beaten).0 ∷ rest, sent + 1)
    else (s ∷ rest, sent)

unfoldable pub beats : (now : ℕ) → SubscriptionHub → SubscriptionHub × ℕ
unfolding beat_all
beats now hub = with_subs (beat_all now hub.subs) hub
