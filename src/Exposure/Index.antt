-- ===== src/Exposure/Index.antt =====
-- vision_os/exposure/subscriptions.py: the hub's two indices hold every subscription where its filter and
-- its scope look for it.
use unityworks_vision_ai_bac.Prelude.{
  ℕ, ◌≡◌, refl, ap, String, Bool, true, false, not, ◌&&◌, ◌||◌, str_eq, eq_iff, if◌then◌else◌, All,
  keep_if, Bool-cases, inl, inr, List, [], ◌∷◌, map, arith,
}
use unityworks_vision_ai_bac.Exposure.{
  ObservationType, Message, observed, state_delta, gap as gap_message, heartbeat, coverage_change,
  Gap, heartbeat_due, Subscription, conflate_message, overflow, offer, beat, drop_oldest,
}
use unityworks_vision_ai_bac.Exposure.Hub.{
  is_in, CameraIndex, SubscriptionHub, with_id, without_id, holders_of, hold_camera, hold_cameras,
  put_subscription, wants_type, add, discard_holder, remove, offer_where, with_subs, holds_camera,
  gap_from, beat_all,
}

is_in-with_id :
    (x id : String) (ids : List String) → is_in x (with_id id ids) ≡ (str_eq id x || is_in x ids)
is_in-with_id x id ids = elim (Bool-cases (str_eq id x)) [
  | inl same ↦
      let one : id ≡ x = (eq_iff id x).0 same in
      ground (arith, ap (λ (y : String). is_in y ids) one)
  | inr apart ↦ ground arith
]

is_in-without_id :
    (x id : String) (ids : List String)
    → is_in x (without_id id ids) ≡ (if str_eq x id then false else is_in x ids)
is_in-without_id x id [] = ground arith
is_in-without_id x id (y ∷ ids) = elim (Bool-cases (str_eq y x)) [
  | inl same ↦
      let one : y ≡ x = (eq_iff y x).0 same in
      ground (arith, is_in-without_id x id ids, ap (λ (z : String). str_eq z id) one)
  | inr apart ↦ ground (arith, is_in-without_id x id ids)
]

holders_of-hold_camera :
    (id camera_id other : String) (index : List CameraIndex)
    → holders_of other (hold_camera id camera_id index) ≡ (
        if str_eq camera_id other
        then with_id id (holders_of other index)
        else holders_of other index)
holders_of-hold_camera id camera_id other [] = ground arith
holders_of-hold_camera id camera_id other (entry ∷ index) = ground (
  arith,
  holders_of-hold_camera id camera_id other index,
  eq_iff entry.camera_id camera_id,
  eq_iff entry.camera_id other,
  eq_iff camera_id other,
)

-- Holding cameras puts the subscription under each of them, and takes nobody away.
holders_of-hold_cameras :
    (id x : String) (cameras : List String) (other : String) (index : List CameraIndex)
    → is_in x (holders_of other (hold_cameras id cameras index))
      ≡ (is_in x (holders_of other index) || (str_eq id x && is_in other cameras))
holders_of-hold_cameras id x [] other index = ground arith
holders_of-hold_cameras id x (camera_id ∷ cameras) other index = ground (
  arith,
  holders_of-hold_cameras id x cameras other (hold_camera id camera_id index),
  holders_of-hold_camera id camera_id other index,
  is_in-with_id x id (holders_of other index),
)

holders_of-discard_holder :
    (id other : String) (index : List CameraIndex)
    → holders_of other (map (discard_holder id) index) ≡ without_id id (holders_of other index)
holders_of-discard_holder id other [] = refl
holders_of-discard_holder id other (entry ∷ index) =
    ground (arith, holders_of-discard_holder id other index)

-- A subscription stands in the index of each type that its filter wants, and of each camera of its scope.
abbrev pub IsListed : (ObservationType → List String) → List CameraIndex → Subscription → Type 0
IsListed by_type by_camera s =
    ((kind : ObservationType)
      → wants_type s.filter kind ≡ true
      → is_in s.subscription_id (by_type kind) ≡ true)
    × ((camera_id : String)
        → is_in camera_id s.scope.camera_ids ≡ true
        → is_in s.subscription_id (holders_of camera_id by_camera) ≡ true)

abbrev pub IsCovered : SubscriptionHub → Type 0
IsCovered hub = All (IsListed hub.by_type hub.by_camera) hub.subs

All-put_subscription :
    (P : Subscription → Type 0) (s : Subscription) (subs : List Subscription)
    → P s
    → All P subs
    → All P (put_subscription s subs)
All-put_subscription P s [] p held = (p, tt)
All-put_subscription P s (x ∷ subs) p held =
    elim (Bool-cases (str_eq x.subscription_id s.subscription_id)) [
      | inl same ↦ rw same (p, held.1)
      | inr apart ↦ rw apart (held.0, All-put_subscription P s subs p held.1)
    ]

All-map {ℓ} :
    {A : Type ℓ} (P Q : A → Type 0) (xs : List A) → ((x : A) → P x → Q x) → All P xs → All Q xs
All-map P Q [] imply held = tt
All-map P Q (x ∷ xs) imply held = (imply x held.0, All-map P Q xs imply held.1)

pub add-IsCovered :
    (s : Subscription) (hub : SubscriptionHub) → IsCovered hub → IsCovered (add s hub)
unfolding add
add-IsCovered s hub covered =
    All-put_subscription (IsListed (add s hub).by_type (add s hub).by_camera) s hub.subs own (
      All-map (IsListed hub.by_type hub.by_camera)
        (IsListed (add s hub).by_type (add s hub).by_camera) hub.subs others covered)
  where
    own : IsListed (add s hub).by_type (add s hub).by_camera s
    own = (
      λ kind wanted. ground (
        arith,
        is_in-with_id s.subscription_id s.subscription_id (hub.by_type kind),
        eq_iff s.subscription_id s.subscription_id,
      ),
      λ camera_id inside. ground (
        arith,
        holders_of-hold_cameras s.subscription_id s.subscription_id s.scope.camera_ids camera_id
            hub.by_camera,
        eq_iff s.subscription_id s.subscription_id,
      ),
    )

    others :
        (x : Subscription)
        → IsListed hub.by_type hub.by_camera x
        → IsListed (add s hub).by_type (add s hub).by_camera x
    others x (typed, placed) = (
      λ kind wanted. ground (
        arith,
        typed kind wanted,
        is_in-with_id x.subscription_id s.subscription_id (hub.by_type kind),
      ),
      λ camera_id inside. ground (
        arith,
        placed camera_id inside,
        holders_of-hold_cameras s.subscription_id x.subscription_id s.scope.camera_ids camera_id
            hub.by_camera,
      ),
    )

pub remove-IsCovered :
    (id : String) (hub : SubscriptionHub) → IsCovered hub → IsCovered (remove id hub)
unfolding remove
remove-IsCovered id hub covered = ground (arith, others hub.subs covered)
  where
    discarded : List CameraIndex
    discarded = map (discard_holder id) hub.by_camera

    kept :
        (x : Subscription)
        → str_eq x.subscription_id id ≡ false
        → IsListed hub.by_type hub.by_camera x
        → IsListed (λ kind. without_id id (hub.by_type kind)) discarded x
    kept x other (typed, placed) = (
      λ kind wanted.
          ground
            (arith, typed kind wanted, is_in-without_id x.subscription_id id (hub.by_type kind)),
      λ camera_id inside. ground (
        arith,
        placed camera_id inside,
        holders_of-discard_holder id camera_id hub.by_camera,
        is_in-without_id x.subscription_id id (holders_of camera_id hub.by_camera),
      ),
    )

    others :
        (subs : List Subscription)
        → All (IsListed hub.by_type hub.by_camera) subs
        → All
            (IsListed (λ kind. without_id id (hub.by_type kind)) discarded)
            (keep_if (λ s. not (str_eq s.subscription_id id)) subs)
    others [] held = tt
    others (x ∷ subs) held = elim (Bool-cases (str_eq x.subscription_id id)) [
      | inl gone ↦ rw gone (others subs held.1)
      | inr stays ↦ rw stays (kept x stays held.0, others subs held.1)
    ]

-- An offer changes neither what a subscription is nor what it asks for.
abbrev pub IsSame : Subscription → Subscription → Type 0
IsSame s t = (t.subscription_id ≡ s.subscription_id) × (t.filter ≡ s.filter) × (t.scope ≡ s.scope)

conflate_message-IsSame :
    (message : Message) (now : ℕ) (s : Subscription) → IsSame s (conflate_message message now s).0
unfolding conflate_message
conflate_message-IsSame (observed o) now s = ground arith
conflate_message-IsSame (state_delta camera_id objects regions at) now s = (refl, refl, refl)
conflate_message-IsSame (gap_message g) now s = (refl, refl, refl)
conflate_message-IsSame (heartbeat at cursor) now s = (refl, refl, refl)
conflate_message-IsSame (coverage_change camera_id status reason at) now s = (refl, refl, refl)

drop_oldest-IsSame :
    (queue : List Message) (message : Message) (now : ℕ) (s : Subscription)
    → IsSame s (drop_oldest queue message now s)
drop_oldest-IsSame [] message now s = (refl, refl, refl)
drop_oldest-IsSame (oldest ∷ rest) message now s = (refl, refl, refl)

offer-IsSame : (message : Message) (now : ℕ) (s : Subscription) → IsSame s (offer message now s).0
unfolding offer overflow
offer-IsSame message now s =
    ground (arith, conflate_message-IsSame message now s, drop_oldest-IsSame s.queue message now s)

IsListed-same :
    (by_type : ObservationType → List String) (by_camera : List CameraIndex) (s t : Subscription)
    → (t.subscription_id ≡ s.subscription_id) × (t.filter ≡ s.filter) × (t.scope ≡ s.scope)
    → IsListed by_type by_camera s
    → IsListed by_type by_camera t
IsListed-same by_type by_camera s t (named, asked, scoped) (typed, placed) = (
  λ kind wanted. rw named (typed kind (rw (← asked) wanted)),
  λ camera_id inside. rw named (placed camera_id (rw (← scoped) inside)),
)

pub offer_where-IsListed :
    (by_type : ObservationType → List String) (by_camera : List CameraIndex)
    (picks : Subscription → Bool) (message : Message) (now : ℕ) (subs : List Subscription)
    → All (IsListed by_type by_camera) subs
    → All (IsListed by_type by_camera) (offer_where picks message now subs).0
unfolding offer_where
offer_where-IsListed by_type by_camera picks message now [] held = tt
offer_where-IsListed by_type by_camera picks message now (s ∷ subs) held =
    elim (Bool-cases (picks s)) [
      | inl picked ↦ rw picked (
        IsListed-same by_type by_camera s (offer message now s).0 (offer-IsSame message now s)
            held.0,
        offer_where-IsListed by_type by_camera picks message now subs held.1,
      )
      | inr passed ↦
          rw passed (held.0, offer_where-IsListed by_type by_camera picks message now subs held.1)
    ]

pub beat_all-IsListed :
    (by_type : ObservationType → List String) (by_camera : List CameraIndex) (now : ℕ)
    (subs : List Subscription)
    → All (IsListed by_type by_camera) subs
    → All (IsListed by_type by_camera) (beat_all now subs).0
unfolding beat_all
beat_all-IsListed by_type by_camera now [] held = tt
beat_all-IsListed by_type by_camera now (s ∷ subs) held = elim (Bool-cases (heartbeat_due now s)) [
  | inl due ↦ rw due (
    IsListed-same by_type by_camera s (offer (beat now s).1 now (beat now s).0).0
        (offer-IsSame (beat now s).1 now (beat now s).0) held.0,
    beat_all-IsListed by_type by_camera now subs held.1,
  )
  | inr early ↦ rw early (held.0, beat_all-IsListed by_type by_camera now subs held.1)
]

pub gap_from-IsCovered :
    (now : ℕ) (g : Gap) (cameras : List String) (seen : Subscription → Bool) (hub : SubscriptionHub)
    → IsCovered hub
    → IsCovered (gap_from now g cameras seen hub).0
unfolding gap_from
gap_from-IsCovered now g [] seen hub covered = covered
gap_from-IsCovered now g (camera_id ∷ cameras) seen hub covered =
    let holds = holds_camera hub camera_id in
    let (after, accepted) =
      with_subs (offer_where (λ s. holds s && not (seen s)) (gap_message g) now hub.subs) hub in
    gap_from-IsCovered now g cameras (λ s. seen s || holds s) after
      (offer_where-IsListed hub.by_type hub.by_camera (λ s. holds s && not (seen s)) (gap_message g)
        now hub.subs covered)
