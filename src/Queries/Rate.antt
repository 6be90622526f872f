-- ===== src/Queries/Rate.antt =====
-- vision_os/exposure/api.py: the bound that the rate limit keeps.
use unityworks_vision_ai_bac.Prelude.{
  ℕ, ◌+◌, ◌≤◌, ◌≡◌, refl, ◌∙◌, Bool, true, ◌&&◌, leb, if◌then◌else◌, Bool-cases, inl, inr, length,
  List, [], ◌∷◌, ◌++◌, Result, ok, raise, arith,
}
use unityworks_vision_ai_bac.Queries.{Error, recent, charge}

-- The calls of one subject at the given times, in order: the bucket, and the times that were granted, the
-- latest first.
abbrev pub noted : {Float : Type 0} → ℕ → List Float × Result Error (Unit {0}) → List ℕ → List ℕ
noted now (window, ok u) granted = now ∷ granted
noted now (window, raise e) granted = granted

-- The times go on from `last`, none before the one before it.
abbrev pub Rising : ℕ → List ℕ → Type 0
Rising last [] = Unit {0}
Rising last (now ∷ times) = (last ≤ now) × Rising now times

module _ {Float : Type 0} (seconds : ℕ → Float) (minute_before : Float → Float)
    (later : Float → Float → Bool) where
  unfoldable pub serve : (requests_per_minute : ℕ) → List ℕ → List Float → List ℕ → List ℕ
  unfolding charge
  serve requests_per_minute [] window granted = granted
  serve requests_per_minute (now ∷ times) window granted =
      let outcome = charge seconds minute_before later requests_per_minute now window in
      serve requests_per_minute times outcome.0 (noted now outcome granted)

  -- How many times are less than a minute before `now`, as the floats have it, and how many of the grants
  -- are also not after it.
  abbrev late : (now : ℕ) → List Float → ℕ
  late now [] = 0
  late now (t ∷ ts) =
      let rest = late now ts in if later t (minute_before (seconds now)) then rest + 1 else rest

  abbrev granted_late : (now : ℕ) → List ℕ → ℕ
  granted_late now [] = 0
  granted_late now (t ∷ ts) =
      let rest = granted_late now ts in
      if later (seconds t) (minute_before (seconds now)) then rest + 1 else rest

  abbrev pub last_minute : (now : ℕ) → List ℕ → ℕ
  last_minute now [] = 0
  last_minute now (t ∷ ts) =
      let rest = last_minute now ts in
      if leb t now && later (seconds t) (minute_before (seconds now)) then rest + 1 else rest

  last_minute-le : (now : ℕ) (granted : List ℕ) → last_minute now granted ≤ granted_late now granted
  last_minute-le now [] = omega arith
  last_minute-le now (t ∷ ts) = ground (arith, last_minute-le now ts)

  late-append : (now : ℕ) (xs ys : List Float) → late now (xs ++ ys) ≡ late now xs + late now ys
  late-append now [] ys = omega arith
  late-append now (x ∷ xs) ys = ground (arith, late-append now xs ys)

  length-recent :
      (now : ℕ) (window : List Float)
      → length (recent seconds minute_before later (seconds now) window) ≡ late now window
  length-recent now [] = refl
  length-recent now (t ∷ window) = ground (arith, length-recent now window)

  module _
      (goes_on : (a b : ℕ) (t : Float)
        → a ≤ b
        → later t (minute_before (seconds b)) ≡ true
        → later t (minute_before (seconds a)) ≡ true) where
    late-antitone :
        (a b : ℕ) (granted : List ℕ) → a ≤ b → granted_late b granted ≤ granted_late a granted
    late-antitone a b [] le = omega arith
    late-antitone a b (t ∷ ts) le =
        ground (arith, late-antitone a b ts le, goes_on a b (seconds t) le)

    late-recent :
        (a b : ℕ) (window : List Float)
        → a ≤ b
        → late b (recent seconds minute_before later (seconds a) window) ≡ late b window
    late-recent a b [] le = refl
    late-recent a b (t ∷ window) le = ground (arith, late-recent a b window le, goes_on a b t le)

    -- The bucket counts the grants of the last minute, and no minute has too many.
    record IsBounded (requests_per_minute last : ℕ) (window : List Float) (granted : List ℕ)
        : Type 0 where
      pub counted : (now : ℕ) → last ≤ now → late now window ≡ granted_late now granted
      pub bounded : (now : ℕ) → last_minute now granted ≤ requests_per_minute

    charge-IsBounded :
        (requests_per_minute last now : ℕ) (window : List Float) (granted : List ℕ)
        → last ≤ now
        → IsBounded requests_per_minute last window granted
        → let outcome = charge seconds minute_before later requests_per_minute now window in
          IsBounded requests_per_minute now outcome.0 (noted now outcome granted)
    unfolding charge
    charge-IsBounded requests_per_minute last now window granted le v =
        let kept = recent seconds minute_before later (seconds now) window in
        elim (Bool-cases (leb requests_per_minute (length kept))) [
          | inl exhausted ↦ rw exhausted (record {
            counted = λ next h. late-recent now next window h ∙ v.counted next (omega arith);
            bounded = v.bounded;
          })
          | inr room ↦ rw room (record {
            counted = λ next h. ground (
              arith,
              late-append next kept (seconds now ∷ []),
              late-recent now next window h,
              v.counted next (omega arith),
            );
            bounded = λ next. elim (Bool-cases (leb now next)) [
              | inl after ↦ ground (
                arith,
                v.bounded next,
                v.counted now le,
                length-recent now window,
                last_minute-le next granted,
                late-antitone now next granted,
              )
              | inr before ↦ ground (arith, v.bounded next)
            ];
          })
        ]

    serve-IsBounded :
        (requests_per_minute : ℕ) (times : List ℕ) (last : ℕ) (window : List Float)
        (granted : List ℕ)
        → Rising last times
        → IsBounded requests_per_minute last window granted
        → (now : ℕ)
        → last_minute now (serve requests_per_minute times window granted) ≤ requests_per_minute
    unfolding serve
    serve-IsBounded requests_per_minute [] last window granted rising v = v.bounded
    serve-IsBounded requests_per_minute (now ∷ times) last window granted rising v =
        let outcome = charge seconds minute_before later requests_per_minute now window in
        serve-IsBounded requests_per_minute times now outcome.0 (noted now outcome granted) rising.1
          (charge-IsBounded requests_per_minute last now window granted rising.0 v)

    -- Where the calls of a subject come at times that do not go back, and a float that is in the minute
    -- before a time is also in the minute before any earlier one, no time sees more grants up to it in the
    -- minute before it, as the floats measure it, than the limit allows.
    pub serve-bounded :
        (requests_per_minute : ℕ) (times : List ℕ) (now : ℕ)
        → Rising 0 times
        → last_minute now (serve requests_per_minute times [] []) ≤ requests_per_minute
    serve-bounded requests_per_minute times now rising =
        (serve-IsBounded requests_per_minute times 0 [] [] rising
            (record { counted = λ later_on h. refl; bounded = λ later_on. omega arith }))
          now
