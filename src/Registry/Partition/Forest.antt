-- ===== src/Registry/Partition/Forest.antt =====
-- The chains of merged objects (`merged_into`): they never close to a cycle, so that `resolve` arrives.
use unityworks_vision_ai_bac.Prelude.{
  ℕ, ◌+◌, ◌<◌, ◌≡◌, refl, inl, inr, String, false, str_eq, if◌then◌else◌, List, [], ◌∷◌, none, some,
  All, arith, eq_iff, Bool-cases, Option-cases,
}
use unityworks_vision_ai_bac.Registry.Partition.{ObjectRecord, find_record, put_record, pop_record}

-- No two records have the same id: the table is a dictionary.
abbrev pub Unique : List ObjectRecord → Type 0
Unique [] = Unit
Unique (r ∷ records) = (find_record r.object_id records ≡ none) × Unique records

-- The object that a record was merged into has a lower rank than the record.
abbrev pub Falls : (String → ℕ) → ObjectRecord → Type 0
Falls rank r = elim r.merged_into [ none ↦ Unit | some k ↦ rank k < rank r.object_id ]

abbrev pub Descends : (String → ℕ) → List ObjectRecord → Type 0
Descends rank records = All (Falls rank) records

abbrev pub IsForest : List ObjectRecord → Type 0
IsForest records = Unique records × (rank : String → ℕ) × Descends rank records

pub found_id :
    (k : String) (records : List ObjectRecord) (r : ObjectRecord)
    → find_record k records ≡ some r
    → r.object_id ≡ k
found_id k [] r h = cc
found_id k (q ∷ records) r h = elim (Bool-cases (str_eq q.object_id k)) [
  | inl e ↦ let same : q ≡ r = ground arith in rw (← same) (ground (arith, eq_iff q.object_id k))
  | inr e ↦ found_id k records r (ground arith)
]

pub found-Falls :
    (rank : String → ℕ) (k : String) (records : List ObjectRecord) (r : ObjectRecord)
    → Descends rank records
    → find_record k records ≡ some r
    → Falls rank r
found-Falls rank k [] r d h = cc
found-Falls rank k (q ∷ records) r d h = elim (Bool-cases (str_eq q.object_id k)) [
  | inl e ↦ let same : q ≡ r = ground arith in rw (← same) d.0
  | inr e ↦ found-Falls rank k records r d.1 (ground arith)
]

pub put-Descends :
    (rank : String → ℕ) (r : ObjectRecord) (records : List ObjectRecord)
    → Falls rank r
    → Descends rank records
    → Descends rank (put_record r records)
put-Descends rank r [] f d = (f, tt)
put-Descends rank r (q ∷ records) f d = elim (Bool-cases (str_eq q.object_id r.object_id)) [
  | inl e ↦ rw e (f, d.1)
  | inr e ↦ rw e (d.0, put-Descends rank r records f d.1)
]

pub pop-Descends :
    (rank : String → ℕ) (k : String) (records : List ObjectRecord)
    → Descends rank records
    → Descends rank (pop_record k records)
pop-Descends rank k [] d = tt
pop-Descends rank k (q ∷ records) d = elim (Bool-cases (str_eq q.object_id k)) [
  | inl e ↦ rw e d.1
  | inr e ↦ rw e (d.0, pop-Descends rank k records d.1)
]

-- Absence of a key, through the changes of the table.
absent-put :
    (k : String) (r : ObjectRecord) (records : List ObjectRecord)
    → str_eq r.object_id k ≡ false
    → find_record k records ≡ none
    → find_record k (put_record r records) ≡ none
absent-put k r [] n h = ground arith
absent-put k r (q ∷ records) n h = elim (Bool-cases (str_eq q.object_id r.object_id)) [
  | inl e ↦ rw e (ground arith)
  | inr e ↦ rw e (ground (arith, absent-put k r records))
]

absent-pop :
    (k j : String) (records : List ObjectRecord)
    → find_record k records ≡ none
    → find_record k (pop_record j records) ≡ none
absent-pop k j [] h = refl
absent-pop k j (q ∷ records) h = elim (Bool-cases (str_eq q.object_id j)) [
  | inl e ↦ rw e (ground arith)
  | inr e ↦ rw e (ground (arith, absent-pop k j records))
]

pub put-Unique :
    (r : ObjectRecord) (records : List ObjectRecord)
    → Unique records
    → Unique (put_record r records)
put-Unique r [] u = (refl, tt)
put-Unique r (q ∷ records) u = elim (Bool-cases (str_eq q.object_id r.object_id)) [
  | inl e ↦
      let same : q.object_id ≡ r.object_id = ground (arith, eq_iff q.object_id r.object_id) in
      rw e (rw same at u.0, u.1)
  | inr e ↦
      let other : str_eq r.object_id q.object_id ≡ false =
        ground (arith, eq_iff q.object_id r.object_id, eq_iff r.object_id q.object_id) in
      rw e (absent-put q.object_id r records other u.0, put-Unique r records u.1)
]

pub pop-Unique :
    (k : String) (records : List ObjectRecord) → Unique records → Unique (pop_record k records)
pop-Unique k [] u = tt
pop-Unique k (q ∷ records) u = elim (Bool-cases (str_eq q.object_id k)) [
  | inl e ↦ rw e u.1
  | inr e ↦ rw e (absent-pop q.object_id k records u.0, pop-Unique k records u.1)
]

-- The rank after a merge into a root: everything but the root is lifted above it.
abbrev pub lifted : (String → ℕ) → String → String → ℕ
lifted rank t k = if str_eq k t then rank t else rank k + (rank t + 1)

lifted-Falls :
    (rank : String → ℕ) (t : String) (r : ObjectRecord)
    → str_eq r.object_id t ≡ false
    → Falls rank r
    → Falls (lifted rank t) r
lifted-Falls rank t r n f = elim (Option-cases r.merged_into) [
  | inl e ↦ rw (Falls, e) tt
  | inr (k, e) ↦
      let falls : rank k < rank r.object_id = rw (Falls, e) at f in
      rw (Falls, e, n)
        (elim (Bool-cases (str_eq k t)) [ inl q ↦ rw q (omega arith) | inr q ↦ rw q (omega arith) ])
]

absent-Descends :
    (rank : String → ℕ) (t : String) (records : List ObjectRecord)
    → find_record t records ≡ none
    → Descends rank records
    → Descends (lifted rank t) records
absent-Descends rank t [] h d = tt
absent-Descends rank t (r ∷ records) h d =
    (lifted-Falls rank t r (ground arith) d.0, absent-Descends rank t records (ground arith) d.1)

pub lifted-Descends :
    (rank : String → ℕ) (t : String) (records : List ObjectRecord) (target : ObjectRecord)
    → find_record t records ≡ some target
    → target.merged_into ≡ none
    → Unique records
    → Descends rank records
    → Descends (lifted rank t) records
lifted-Descends rank t [] target h n u d = cc
lifted-Descends rank t (r ∷ records) target h n u d = elim (Bool-cases (str_eq r.object_id t)) [
  | inl e ↦
      let same : r ≡ target = ground arith in
      let root : r.merged_into ≡ none = rw same n in
      let id : r.object_id ≡ t = ground (arith, eq_iff r.object_id t) in
      let gone : find_record t records ≡ none = rw id at u.0 in
      (rw (Falls, root) tt, absent-Descends rank t records gone d.1)
  | inr e ↦
      (lifted-Falls rank t r e d.0, lifted-Descends rank t records target (ground arith) n u.1 d.1)
]
