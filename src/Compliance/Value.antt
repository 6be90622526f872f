-- ===== src/Compliance/Value.antt =====
-- The values that attributes hold and that rules expect: Python's None, booleans, texts and numbers. A
-- number is a whole number of millionths, so that `1` and `1.5` are both exact; NaN does not occur.
use unityworks_vision_ai_bac.Prelude.{
  ℕ, Bool, true, false, ltb, ◌==◌, str_eq, String, List, [], ◌∷◌,
}

-- `negsuc n` is -(n + 1).
pub data ℤ : Type 0 where
  pos : ℕ → ℤ
  negsuc : ℕ → ℤ

abbrev pub equal : ℤ → ℤ → Bool
equal (pos a) (pos b) = a == b
equal (negsuc a) (negsuc b) = a == b
equal _ _ = false

abbrev pub less : ℤ → ℤ → Bool
less (pos a) (pos b) = ltb a b
less (pos a) (negsuc b) = false
less (negsuc a) (pos b) = true
less (negsuc a) (negsuc b) = ltb b a

pub data Value : Type 0 where
  null : Value
  flag : Bool → Value
  number : ℤ → Value
  text : String → Value

-- Millionths in 1, and `True == 1`, `False == 0`.
abbrev pub one : ℕ
one = 1_000_000

abbrev pub as_number : Bool → ℤ
as_number true = pos one
as_number false = pos 0

abbrev same_flag : Bool → Bool → Bool
same_flag true true = true
same_flag false false = true
same_flag _ _ = false

-- `a == b`.
abbrev pub same_value : Value → Value → Bool
same_value null null = true
same_value (flag a) (flag b) = same_flag a b
same_value (flag a) (number n) = equal (as_number a) n
same_value (number n) (flag b) = equal n (as_number b)
same_value (number a) (number b) = equal a b
same_value (text a) (text b) = str_eq a b
same_value _ _ = false

-- What a rule expects: one value, or a list of them.
pub data Expected : Type 0 where
  single : Value → Expected
  several : List Value → Expected

-- `tuple(s)` for a text: its characters.
abbrev pub characters : String → List Value
characters String.[] = []
characters (String.◌∷◌ c s) = text (String.◌∷◌ c String.[]) ∷ characters s
