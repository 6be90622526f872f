-- ===== src/Buffer/Counts.antt =====
-- vision_os/acquisition/buffer/buffer.py: the counters of leases and pins are exact, and the holds that
-- stand in the entries are out.
use unityworks_vision_ai_bac.Prelude.{
  ℕ, ◌+◌, ◌-◌, ◌≤◌, ◌≡◌, ltb, ◌==◌, if◌then◌else◌, Bool-cases, inl, inr, count, count-remove_number,
  length-remove_number, length, List, [], ◌∷◌, ◌++◌, map, arith,
}
use unityworks_vision_ai_bac.Buffer.{Hold, Entry, Ring, Tally, Book, give, take_back, lapse}

-- Leases or pins.
pub data Kind : Type 0 where
  lease pin : Kind

abbrev pub holds : Kind → Entry → List Hold
holds lease e = e.leases
holds pin e = e.pins

abbrev pub tally : Kind → Book → Tally
tally lease book = book.leases
tally pin book = book.pins

abbrev pub numbers : List Hold → List ℕ
numbers hs = map (λ h. h.number) hs

-- The numbers of the holds that stand in the entries of rings.
abbrev pub numbers_in : Kind → List Entry → List ℕ
numbers_in kind [] = []
numbers_in kind (e ∷ es) = numbers (holds kind e) ++ numbers_in kind es

abbrev pub numbers_of_rings : Kind → List Ring → List ℕ
numbers_of_rings kind [] = []
numbers_of_rings kind (ring ∷ rings) = numbers_in kind ring.entries ++ numbers_of_rings kind rings

-- A tally that is exact where the entries hold the number `n` as often as `held n`: what they hold is
-- out, no number is out twice or issued too early, and `active` counts the numbers that are out.
pub record IsExact (held : ℕ → ℕ) (new_number : ℕ) (t : Tally) : Type 0 where
  pub covered : (n : ℕ) → held n ≤ count n t.out
  pub single : (n : ℕ) → count n t.out ≤ 1
  pub issued : (n : ℕ) → new_number ≤ n → count n t.out ≡ 0
  pub exact : t.active ≡ length t.out

-- Entries may lose holds, and numbers may be skipped.
pub IsExact-mono :
    {held less : ℕ → ℕ} {new_number : ℕ} {t : Tally}
    → IsExact held new_number t
    → ((n : ℕ) → less n ≤ held n)
    → IsExact less new_number t
IsExact-mono v fewer = record {
  covered = λ n. omega (arith, v.covered n, fewer n);
  single = v.single;
  issued = v.issued;
  exact = v.exact;
}

pub IsExact-later :
    {held : ℕ → ℕ} {new_number : ℕ} {t : Tally}
    → IsExact held new_number t
    → IsExact held (new_number + 1) t
IsExact-later v = record {
  covered = v.covered;
  single = v.single;
  issued = λ n h. v.issued n (omega arith);
  exact = v.exact;
}

pub give-IsExact :
    {held : ℕ → ℕ} {new_number : ℕ} {t : Tally}
    → IsExact held new_number t
    → IsExact
        (λ n. held n + (if new_number == n then 1 else 0))
        (new_number + 1)
        (give new_number t)
give-IsExact {held} {new_number} {t} v = record {
  covered = λ n. ground (arith, v.covered n);
  single = λ n. ground (arith, v.single n, v.issued n);
  issued = λ n h. ground (arith, v.issued n (omega arith));
  exact = ground (arith, v.exact);
}

pub take_back-IsExact :
    (number : ℕ) {held : ℕ → ℕ} {new_number : ℕ} {t : Tally}
    → IsExact held new_number t
    → 1 ≤ count number t.out
    → IsExact (λ n. held n - (if number == n then 1 else 0)) new_number (take_back number t)
take_back-IsExact number {held} {new_number} {t} v out = record {
  covered = λ n. ground (arith, v.covered n, count-remove_number n number t.out);
  single = λ n. ground (arith, v.single n, count-remove_number n number t.out);
  issued = λ n h. ground (arith, v.issued n h, count-remove_number n number t.out);
  exact = omega (arith, v.exact, length-remove_number number t.out out);
}

-- The holds whose time is over leave, and the tally follows.
pub lapse-IsExact :
    (now : ℕ) (hs : List Hold) (other : ℕ → ℕ) {new_number : ℕ} {t : Tally}
    → IsExact (λ n. other n + count n (numbers hs)) new_number t
    → IsExact (λ n. other n + count n (numbers (lapse now hs t).0)) new_number (lapse now hs t).1
lapse-IsExact now [] other v = v
lapse-IsExact now (h ∷ hs) other {new_number} {t} v = elim (Bool-cases (ltb h.until now)) [
  | inl over ↦
      let taken : IsExact (λ n. other n + count n (numbers hs)) new_number (take_back h.number t) =
        IsExact-mono (take_back-IsExact h.number v (ground (arith, v.covered h.number)))
          (λ n. ground arith) in
      rw (over) (lapse-IsExact now hs other taken)
  | inr stays ↦
      let apart : IsExact (λ n. (other n + (if h.number == n then 1 else 0)) + count n (numbers hs))
          new_number t =
        IsExact-mono v (λ n. ground arith) in
      rw (stays) (
        IsExact-mono (lapse-IsExact now hs (λ n. other n + (if h.number == n then 1 else 0)) apart)
          (λ n. ground arith))
]
