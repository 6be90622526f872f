-- ===== src/Prelude/Lists.antt =====
-- Lists measured by the native numbers, and the Python idioms on sequences that the components share.
use Prim.Native.Nat.{ℕ, zero, suc, ◌+◌, ◌-◌, ◌≤◌, min}
use mathlib.Core.Path.{◌≡◌, refl, ap}
use mathlib.Core.Logic.{◌⊎◌, inr}
use mathlib.Core.Bool.{Bool, true, false, ◌&&◌, ◌||◌}
use mathlib.Core.List.{List, [], ◌∷◌, ◌++◌}
use mathlib.Core.Option.{Option, none, some}
use native.Mathlib.Omega.{arith}
use unityworks_vision_ai_bac.Prelude.Tests.{◌==◌, if◌then◌else◌}

module _ {ℓ} {A : Type ℓ} where
  abbrev pub length : List A → ℕ
  length [] = 0
  length (x ∷ xs) = suc (length xs)

  pub length-append : (xs ys : List A) → length (xs ++ ys) ≡ length xs + length ys
  length-append [] ys = omega arith
  length-append (x ∷ xs) ys = omega (arith, length-append xs ys)

  -- `any(p(x) for x in xs)` and `all(p(x) for x in xs)`.
  abbrev pub any : (A → Bool) → List A → Bool
  any p [] = false
  any p (x ∷ xs) = p x || any p xs

  abbrev pub all : (A → Bool) → List A → Bool
  all p [] = true
  all p (x ∷ xs) = p x && all p xs

  -- `[x for x in xs if p(x)]`.
  abbrev pub keep_if : (A → Bool) → List A → List A
  keep_if p [] = []
  keep_if p (x ∷ xs) = let rest = keep_if p xs in if p x then x ∷ rest else rest

  pub length-keep_if-le : (p : A → Bool) (xs : List A) → length (keep_if p xs) ≤ length xs
  length-keep_if-le p [] = omega arith
  length-keep_if-le p (x ∷ xs) = ground (arith, length-keep_if-le p xs)

  abbrev pub to_list : Option A → List A
  to_list none = []
  to_list (some x) = x ∷ []

  -- Every element satisfies the predicate.
  abbrev pub All {κ} : (A → Type κ) → List A → Type κ
  All P [] = Unit
  All P (x ∷ xs) = P x × All P xs

module _ {ℓ} {A : Type ℓ} where
  -- `items[:limit]`.
  abbrev pub take : ℕ → List A → List A
  take zero items = []
  take (suc limit) [] = []
  take (suc limit) (item ∷ items) = item ∷ take limit items

  pub length-take-le : (limit : ℕ) (items : List A) → length (take limit items) ≤ limit
  length-take-le (suc limit) (item ∷ items) = omega (arith, length-take-le limit items)
  length-take-le (suc limit) [] = omega arith
  length-take-le zero items = omega arith

  -- `items[count:]`.
  abbrev pub drop : ℕ → List A → List A
  drop zero items = items
  drop (suc count) [] = []
  drop (suc count) (item ∷ items) = drop count items

  pub length-drop : (count : ℕ) (items : List A) → length (drop count items) ≡ length items - count
  length-drop zero items = omega arith
  length-drop (suc count) [] = omega arith
  length-drop (suc count) (item ∷ items) = omega (arith, length-drop count items)

  pub length-take :
      (count : ℕ) (items : List A) → length (take count items) ≡ min count (length items)
  length-take zero items = omega arith
  length-take (suc count) [] = omega arith
  length-take (suc count) (item ∷ items) = omega (arith, length-take count items)

  pub take-append-drop : (count : ℕ) (items : List A) → take count items ++ drop count items ≡ items
  take-append-drop zero items = refl
  take-append-drop (suc count) [] = refl
  take-append-drop (suc count) (item ∷ items) = ap (◌∷◌ item) (take-append-drop count items)

-- `x in items`, as a statement.
abbrev pub In : {A : Type 0} → A → List A → Type 0
In x [] = ⊥
In x (y ∷ ys) = (x ≡ y) ⊎ In x ys

pub In-append-right : {A : Type 0} (x : A) (xs ys : List A) → In x ys → In x (xs ++ ys)
In-append-right x [] ys m = m
In-append-right x (y ∷ xs) ys m = inr (In-append-right x xs ys m)

abbrev pub is_empty {ℓ} : {A : Type ℓ} → List A → Bool
is_empty [] = true
is_empty (x ∷ xs) = false

-- How often a number stands in a list, and the list less its first place.
abbrev pub count : ℕ → List ℕ → ℕ
count n [] = 0
count n (m ∷ ms) = let rest = count n ms in if m == n then suc rest else rest

pub count-append : (n : ℕ) (xs ys : List ℕ) → count n (xs ++ ys) ≡ count n xs + count n ys
count-append n [] ys = omega arith
count-append n (x ∷ xs) ys = ground (arith, count-append n xs ys)

abbrev pub remove_number : ℕ → List ℕ → List ℕ
remove_number n [] = []
remove_number n (m ∷ ms) = let rest = remove_number n ms in if m == n then ms else m ∷ rest

pub count-remove_number :
    (k n : ℕ) (ns : List ℕ) → count k (remove_number n ns) ≡ count k ns - (if n == k then 1 else 0)
count-remove_number k n [] = ground arith
count-remove_number k n (m ∷ ns) = ground (arith, count-remove_number k n ns)

pub length-remove_number :
    (n : ℕ) (ns : List ℕ) → 1 ≤ count n ns → length ns ≡ suc (length (remove_number n ns))
length-remove_number n [] h = absurd (omega arith)
length-remove_number n (m ∷ ns) h = ground (arith, length-remove_number n ns)
