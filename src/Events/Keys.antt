-- ===== src/Events/Keys.antt =====
-- vision_os/kernel/events/bus.py: what a conflating subscription holds.
use unityworks_vision_ai_bac.Prelude.{
  ℕ, zero, suc, ◌≡◌, refl, Bool, false, ◌||◌, ltb, Bool-cases, length, if◌then◌else◌, String,
  str_eq, eq_iff, any, Option-cases, inl, inr, All, drop, List, [], ◌∷◌, ◌++◌, Option, none, some,
  arith, count,
}
use unityworks_vision_ai_bac.Events.{
  Event, conflate, Subscription, conflated, enqueue, offer, drain,
}
use unityworks_vision_ai_bac.Events.Queue.{Call, offers, drains, run}

-- The events of a history, the latest first.
abbrev pub history : List Event → List Call → List Event
history past [] = past
history past (offers e ∷ calls) = history (e ∷ past) calls
history past (drains limit now ∷ calls) = history past calls

abbrev pub newest : String → List Event → Option Event
newest key [] = none
newest key (e ∷ past) =
    let rest = newest key past in if str_eq e.partition_key key then some e else rest

abbrev pub has_key : String → List Event → Bool
has_key key queue = any (λ e. str_eq e.partition_key key) queue

abbrev pub KeysDistinct : List Event → Type 0
KeysDistinct [] = Unit {0}
KeysDistinct (e ∷ es) = (has_key e.partition_key es ≡ false) × KeysDistinct es

-- Each partition key stands in the queue at most once, with the latest event that came for it.
abbrev pub Latest : List Event → List Event → Type 0
Latest past queue = KeysDistinct queue × All (λ e. newest e.partition_key past ≡ some e) queue

has_key-conflated :
    (key : String) (e : Event) (queue out : List Event)
    → conflated e queue ≡ some out
    → has_key key out ≡ has_key key queue
unfolding conflated
has_key-conflated key e [] out h = cc
has_key-conflated key e (x ∷ queue) out h = elim (Option-cases (conflated e queue)) [
  | inl missing ↦ ground (arith, eq_iff x.partition_key e.partition_key)
  | inr (rest, found) ↦
      ground
        (arith, eq_iff x.partition_key e.partition_key, has_key-conflated key e queue rest found)
]

conflated-Distinct :
    (e : Event) (queue out : List Event)
    → KeysDistinct queue
    → conflated e queue ≡ some out
    → KeysDistinct out
unfolding conflated
conflated-Distinct e [] out d h = cc
conflated-Distinct e (x ∷ queue) out d h = elim (Option-cases (conflated e queue)) [
  | inl missing ↦ ground (arith, eq_iff x.partition_key e.partition_key)
  | inr (rest, found) ↦ ground (
    arith,
    eq_iff x.partition_key e.partition_key,
    has_key-conflated x.partition_key e queue rest found,
    conflated-Distinct e queue rest d.1 found,
  )
]

conflated_none :
    (e : Event) (queue : List Event)
    → conflated e queue ≡ none
    → has_key e.partition_key queue ≡ false
unfolding conflated
conflated_none e [] h = refl
conflated_none e (x ∷ queue) h = elim (Option-cases (conflated e queue)) [
  | inl missing ↦ ground (arith, conflated_none e queue missing)
  | inr (rest, found) ↦ ground arith
]

other-Newest :
    (e : Event) (past queue : List Event)
    → has_key e.partition_key queue ≡ false
    → All (λ x. newest x.partition_key past ≡ some x) queue
    → All (λ x. newest x.partition_key (e ∷ past) ≡ some x) queue
other-Newest e past [] apart held = tt
other-Newest e past (x ∷ queue) apart held = (
  ground (arith, eq_iff x.partition_key e.partition_key, eq_iff e.partition_key x.partition_key),
  other-Newest e past queue (ground arith) held.1,
)

conflated-Newest :
    (e : Event) (past queue out : List Event)
    → KeysDistinct queue
    → All (λ x. newest x.partition_key past ≡ some x) queue
    → conflated e queue ≡ some out
    → All (λ x. newest x.partition_key (e ∷ past) ≡ some x) out
unfolding conflated
conflated-Newest e past [] out d held h = cc
conflated-Newest e past (x ∷ queue) out d held h =
    elim (Bool-cases (str_eq x.partition_key e.partition_key)) [
      | inl same ↦ ground (
        arith,
        eq_iff x.partition_key e.partition_key,
        eq_iff e.partition_key e.partition_key,
        other-Newest e past queue,
      )
      | inr apart ↦ elim (Option-cases (conflated e queue)) [
        | inl missing ↦ ground arith
        | inr (rest, found) ↦ ground (
          arith,
          eq_iff x.partition_key e.partition_key,
          eq_iff e.partition_key x.partition_key,
          conflated-Newest e past queue rest d.1 held.1 found,
        )
      ]
    ]

has_key-append :
    (key : String) (e : Event) (queue : List Event)
    → has_key key (queue ++ (e ∷ [])) ≡ has_key key queue || str_eq e.partition_key key
has_key-append key e [] = ground arith
has_key-append key e (x ∷ queue) = ground (arith, has_key-append key e queue)

append-Latest :
    (e : Event) (past queue : List Event)
    → has_key e.partition_key queue ≡ false
    → Latest past queue
    → Latest (e ∷ past) (queue ++ (e ∷ []))
append-Latest e past [] apart held = ground (arith, eq_iff e.partition_key e.partition_key)
append-Latest e past (x ∷ queue) apart held = ground (
  arith,
  append-Latest e past queue,
  eq_iff x.partition_key e.partition_key,
  eq_iff e.partition_key x.partition_key,
  has_key-append x.partition_key e queue,
)

drop-Latest :
    (count : ℕ) (past queue : List Event) → Latest past queue → Latest past (drop count queue)
drop-Latest zero past queue held = held
drop-Latest (suc count) past [] held = held
drop-Latest (suc count) past (x ∷ queue) held = drop-Latest count past queue (held.0.1, held.1.1)

has_key-drop :
    (key : String) (count : ℕ) (queue : List Event)
    → has_key key queue ≡ false
    → has_key key (drop count queue) ≡ false
has_key-drop key zero queue apart = apart
has_key-drop key (suc count) [] apart = apart
has_key-drop key (suc count) (x ∷ queue) apart = has_key-drop key count queue (ground arith)

conflated-Latest :
    (e : Event) (past queue out : List Event)
    → Latest past queue
    → conflated e queue ≡ some out
    → Latest (e ∷ past) out
conflated-Latest e past queue out held h =
    (conflated-Distinct e queue out held.0 h, conflated-Newest e past queue out held.0 held.1 h)

-- An open subscription that conflates.
pub record Conflates (s : Subscription) : Type 0 where
  pub is_open : s.closed ≡ false
  pub conflating : s.policy.overflow ≡ conflate

offer-Conflates : (s : Subscription) (e : Event) → Conflates s → Conflates (offer s e).0
unfolding offer enqueue
offer-Conflates s e v = ground arith

drain-Conflates :
    (s : Subscription) (limit : Option ℕ) (now : ℕ) → Conflates s → Conflates (drain s limit now).0
unfolding drain
drain-Conflates s limit now v = ground arith

enqueue-Latest :
    (s : Subscription) (e : Event) (past : List Event)
    → Conflates s
    → has_key e.partition_key s.queue ≡ false
    → Latest past s.queue
    → Latest (e ∷ past) (enqueue s e).0.queue
unfolding enqueue
enqueue-Latest s e past v apart held = elim (Bool-cases (ltb (length s.queue) s.policy.capacity)) [
  | inl room ↦ rw room (append-Latest e past s.queue apart held)
  | inr full ↦
      rw (full, v.conflating)
        (append-Latest e past (drop 1 s.queue) (has_key-drop e.partition_key 1 s.queue apart)
          (drop-Latest 1 past s.queue held))
]

offer-Latest :
    (s : Subscription) (e : Event) (past : List Event)
    → Conflates s
    → Latest past s.queue
    → Latest (e ∷ past) (offer s e).0.queue
unfolding offer
offer-Latest s e past v held = elim (Option-cases (conflated e s.queue)) [
  | inl missing ↦
      rw (v.is_open, v.conflating, missing)
        (enqueue-Latest s e past v (conflated_none e s.queue missing) held)
  | inr (out, found) ↦
      rw (v.is_open, v.conflating, found) (conflated-Latest e past s.queue out held found)
]

drain-Latest :
    (s : Subscription) (limit : Option ℕ) (now : ℕ) (past : List Event)
    → Latest past s.queue
    → Latest past (drain s limit now).0.queue
unfolding drain
drain-Latest s none now past held = (tt, tt)
drain-Latest s (some limit) now past held = ground (arith, drop-Latest limit past s.queue held)

-- Over any offers and drains, an open subscription that conflates holds at most one event of each
-- partition key, and that event is the latest one that was offered for the key.
pub run-Latest :
    (s : Subscription) (past : List Event) (calls : List Call)
    → Conflates s
    → Latest past s.queue
    → Latest (history past calls) (run s calls).0.queue
unfolding run
run-Latest s past [] v held = held
run-Latest s past (offers e ∷ calls) v held =
    run-Latest (offer s e).0 (e ∷ past) calls (offer-Conflates s e v) (offer-Latest s e past v held)
run-Latest s past (drains limit now ∷ calls) v held =
    run-Latest (drain s limit now).0 past calls (drain-Conflates s limit now v)
      (drain-Latest s limit now past held)
