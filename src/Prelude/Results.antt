-- ===== src/Prelude/Results.antt =====
-- The result of code that may raise: an exception is a value of the component's error type.
use mathlib.Core.Path.{◌≡◌, refl}
use mathlib.Core.Logic.{◌⊎◌, inl, inr}

pub data Result {ℓ κ} (E : Type ℓ) (A : Type κ) : Type (ℓ ⊔ κ) where
  ok : A → Result E A
  raise : E → Result E A

infixl 5 ◌>>=◌ ◌>>◌
abbrev pub ◌>>=◌ {ℓ κ μ} :
    {E : Type ℓ} {A : Type κ} {B : Type μ} → Result E A → (A → Result E B) → Result E B
ok a >>= f = f a
raise e >>= f = raise e

abbrev pub ◌>>◌ {ℓ κ} : {E : Type ℓ} {B : Type κ} → Result E (Unit {0}) → Result E B → Result E B
m >> k = m >>= λ _. k

-- The code returns, and its result satisfies the predicate.
abbrev pub Returns {ℓ κ} : {E : Type ℓ} {A : Type κ} → Result E A → (A → Type 0) → Type 0
Returns (ok a) P = P a
Returns (raise e) P = ⊥

-- The code raises.
abbrev pub Raises {ℓ κ} : {E : Type ℓ} {A : Type κ} → Result E A → Type 0
Raises (ok a) = ⊥
Raises (raise e) = Unit

pub Returns-value {ℓ κ} :
    {E : Type ℓ} {A : Type κ} (r : Result E A) {P : A → Type 0}
    → Returns r P
    → (a : A) × (r ≡ ok a) × P a
Returns-value (ok a) h = (a, refl, h)
Returns-value (raise e) h = absurd h

-- A chain that returned has returned at its first step, and its rest has returned on that value.
pub >>=-eq-ok {ℓ κ μ} :
    {E : Type ℓ} {A : Type κ} {B : Type μ} (step : Result E A) (rest : A → Result E B) {out : B}
    → (step >>= rest) ≡ ok out
    → (x : A) × (step ≡ ok x) × (rest x ≡ ok out)
>>=-eq-ok (raise e) rest returned = cc
>>=-eq-ok (ok x) rest returned = (x, refl, returned)

pub Result-cases {ℓ κ} :
    {E : Type ℓ} {A : Type κ} (r : Result E A) → ((a : A) × (r ≡ ok a)) ⊎ ((e : E) × (r ≡ raise e))
Result-cases (ok a) = inl (a, refl)
Result-cases (raise e) = inr (e, refl)
