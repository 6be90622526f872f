-- ===== src/Events/Registrations.antt =====
-- vision_os/kernel/events/bus.py: the registrations that stand behind the index of the bus, in the
-- order in which they were made.
use mathlib.Core.List.{append-nil}
use unityworks_vision_ai_bac.Prelude.{
  ℕ, ◌≡◌, refl, sym, String, str_eq, eq_iff, Bool, false, ◌==◌, if◌then◌else◌, keep_if, List, [],
  ◌∷◌, ◌++◌, map, Option, none, some, arith, count, remove_number,
}
use unityworks_vision_ai_bac.Events.{is_in}
use unityworks_vision_ai_bac.Events.Bus.{
  TypeIndex, listed, list_under, list_under_all, unlist_entry, frozen,
}

pub record Registration : Type 0 where
  pub number : ℕ
  pub types : List String

abbrev pub numbers_of : List Registration → List ℕ
numbers_of regs = map (λ r. r.number) regs

abbrev pub types_of : ℕ → List Registration → Option (List String)
types_of number [] = none
types_of number (r ∷ regs) =
    let rest = types_of number regs in if r.number == number then some r.types else rest

abbrev pub unregister : ℕ → List Registration → List Registration
unregister number [] = []
unregister number (r ∷ regs) =
    let rest = unregister number regs in if r.number == number then regs else r ∷ rest

-- No number is registered twice.
abbrev pub AllDistinct : List Registration → Type 0
AllDistinct [] = Unit {0}
AllDistinct (r ∷ regs) = (types_of r.number regs ≡ none) × AllDistinct regs

-- How often a number stands among those of the registrations whose types pass a test.
abbrev pub once_if : (List String → Bool) → Option (List String) → ℕ
once_if test none = 0
once_if test (some types) = if test types then 1 else 0

pub count-numbers_of :
    (test : List String → Bool) (n : ℕ) (regs : List Registration)
    → AllDistinct regs
    → count n (numbers_of (keep_if (λ r. test r.types) regs)) ≡ once_if test (types_of n regs)
count-numbers_of test n [] d = refl
count-numbers_of test n (r ∷ regs) d = ground (arith, count-numbers_of test n regs d.1)

remove_number-absent :
    (test : List String → Bool) (n : ℕ) (regs : List Registration)
    → types_of n regs ≡ none
    → remove_number n (numbers_of (keep_if (λ r. test r.types) regs))
      ≡ numbers_of (keep_if (λ r. test r.types) regs)
remove_number-absent test n [] absent = refl
remove_number-absent test n (r ∷ regs) absent = ground (arith, remove_number-absent test n regs)

pub remove_number-numbers_of :
    (test : List String → Bool) (n : ℕ) (regs : List Registration)
    → AllDistinct regs
    → remove_number n (numbers_of (keep_if (λ r. test r.types) regs))
      ≡ numbers_of (keep_if (λ r. test r.types) (unregister n regs))
remove_number-numbers_of test n [] d = refl
remove_number-numbers_of test n (r ∷ regs) d =
    ground (arith, remove_number-numbers_of test n regs d.1, remove_number-absent test n regs)

pub types_of-unregister :
    (m n : ℕ) (regs : List Registration)
    → AllDistinct regs
    → types_of m (unregister n regs) ≡ (if m == n then none else types_of m regs)
types_of-unregister m n [] d = ground arith
types_of-unregister m n (r ∷ regs) d = ground (arith, types_of-unregister m n regs d.1)

pub unregister-AllDistinct :
    (n : ℕ) (regs : List Registration) → AllDistinct regs → AllDistinct (unregister n regs)
unregister-AllDistinct n [] d = d
unregister-AllDistinct n (r ∷ regs) d =
    ground (arith, unregister-AllDistinct n regs d.1, types_of-unregister r.number n regs d.1)

pub types_of-append :
    (m : ℕ) (regs : List Registration) (r : Registration)
    → types_of r.number regs ≡ none
    → types_of m (regs ++ (r ∷ [])) ≡ (if r.number == m then some r.types else types_of m regs)
types_of-append m [] r h = refl
types_of-append m (x ∷ regs) r h = ground (arith, types_of-append m regs r)

pub append-AllDistinct :
    (regs : List Registration) (r : Registration)
    → types_of r.number regs ≡ none
    → AllDistinct regs
    → AllDistinct (regs ++ (r ∷ []))
append-AllDistinct [] r h d = (refl, tt)
append-AllDistinct (x ∷ regs) r h d =
    ground (arith, append-AllDistinct regs r, types_of-append x.number regs r)

pub numbers_of-append :
    (test : List String → Bool) (regs : List Registration) (r : Registration)
    → numbers_of (keep_if (λ x. test x.types) (regs ++ (r ∷ [])))
      ≡ numbers_of (keep_if (λ x. test x.types) regs)
        ++ (if test r.types then r.number ∷ [] else [])
numbers_of-append test [] r = ground arith
numbers_of-append test (x ∷ regs) r = ground (arith, numbers_of-append test regs r)

listed-list_under :
    (number : ℕ) (name other : String) (index : List TypeIndex)
    → listed other (list_under number name index)
      ≡ (if str_eq name other then listed other index ++ (number ∷ []) else listed other index)
listed-list_under number name other [] = ground arith
listed-list_under number name other (entry ∷ index) = ground (
  arith,
  listed-list_under number name other index,
  eq_iff entry.event_type name,
  eq_iff entry.event_type other,
  eq_iff name other,
)

-- No name stands twice.
abbrev pub NamesDistinct : List String → Type 0
NamesDistinct [] = Unit {0}
NamesDistinct (name ∷ names) = (is_in name names ≡ false) × NamesDistinct names

pub frozen-Distinct : (names : List String) → NamesDistinct (frozen names)
frozen-Distinct [] = tt
frozen-Distinct (name ∷ names) = ground (arith, frozen-Distinct names)

pub listed-list_under_all :
    (number : ℕ) (names : List String) (other : String) (index : List TypeIndex)
    → NamesDistinct names
    → listed other (list_under_all number names index)
      ≡ listed other index ++ (if is_in other names then number ∷ [] else [])
listed-list_under_all number [] other index d = sym (append-nil _)
listed-list_under_all number (name ∷ names) other index d = ground (
  arith,
  listed-list_under_all number names other (list_under number name index) d.1,
  listed-list_under number name other index,
  eq_iff name other,
  append-nil (listed other index ++ (number ∷ [])),
)

pub listed-remove_number :
    (n : ℕ) (other : String) (index : List TypeIndex)
    → listed other (map (unlist_entry n) index) ≡ remove_number n (listed other index)
listed-remove_number n other [] = refl
listed-remove_number n other (entry ∷ index) = ground (arith, listed-remove_number n other index)
