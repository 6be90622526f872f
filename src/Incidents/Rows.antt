-- ===== src/Incidents/Rows.antt =====
-- How a row of the incident table may change, and that a change to one row keeps the open incidents
-- unique.
use unityworks_vision_ai_bac.Prelude.{
  ℕ, ◌≤◌, ◌≡◌, refl, ◌⊎◌, inl, inr, Bool, false, not, ◌&&◌, any, List, [], ◌∷◌, ◌++◌, some, arith,
  Bool-cases,
}
use unityworks_vision_ai_bac.Incidents.{
  Incident, IncidentStatus, active, acknowledged, resolved, is_resolved, Subject, is_open_for,
  first, change_first,
}

abbrev pub subject_of : Incident → Subject
subject_of i = record {
  organization_id = i.organization_id;
  camera_key = i.camera_key;
  object_id = i.object_id;
  rule_id = i.rule_id;
}

-- The order in which a status may move.
abbrev pub rank : IncidentStatus → ℕ
rank active = 0
rank acknowledged = 1
rank resolved = 2

-- The row `j` is a later version of the row `i`: it is the same incident, its snapshot is frozen, its
-- clock and its status do not go back, and once it is resolved nothing changes.
pub record Later (i j : Incident) : Type 0 where
  pub same_id : j.id ≡ i.id
  pub same_subject : subject_of j ≡ subject_of i
  pub snapshot : j.finding_snapshot ≡ i.finding_snapshot
  pub rules : j.ruleset_version ≡ i.ruleset_version
  pub created : j.created_at ≡ i.created_at
  pub clock : i.observed_at ≤ j.observed_at
  pub forward : rank i.status ≤ rank j.status
  pub final : (is_resolved i.status ≡ false) ⊎ (j ≡ i)

pub Later-refl : (i : Incident) → Later i i
Later-refl i = record {
  same_id = refl;
  same_subject = refl;
  snapshot = refl;
  rules = refl;
  created = refl;
  clock = omega arith;
  forward = omega arith;
  final = inr refl;
}

pub Later-trans : {i j k : Incident} → Later i j → Later j k → Later i k
Later-trans l m = ground arith

-- Every row of the first list is still in its place of the second, in a later version.
abbrev pub Extends : List Incident → List Incident → Type 0
Extends [] rows' = Unit
Extends (i ∷ rows) [] = ⊥
Extends (i ∷ rows) (j ∷ rows') = Later i j × Extends rows rows'

pub Extends-refl : (rows : List Incident) → Extends rows rows
Extends-refl [] = tt
Extends-refl (i ∷ rows) = (Later-refl i, Extends-refl rows)

pub Extends-trans : (a b c : List Incident) → Extends a b → Extends b c → Extends a c
Extends-trans [] b c h k = tt
Extends-trans (i ∷ a) [] c h k = absurd h
Extends-trans (i ∷ a) (j ∷ b) [] h k = absurd k
Extends-trans (i ∷ a) (j ∷ b) (l ∷ c) h k = (Later-trans h.0 k.0, Extends-trans a b c h.1 k.1)

pub Extends-snoc : (rows : List Incident) (i : Incident) → Extends rows (rows ++ i ∷ [])
Extends-snoc [] i = tt
Extends-snoc (j ∷ rows) i = (Later-refl j, Extends-snoc rows i)

-- No two rows of the list are open for the same subject.
abbrev pub OpenUnique : List Incident → Type 0
OpenUnique [] = Unit
OpenUnique (i ∷ rows) =
    ((not (is_resolved i.status) && any (is_open_for (subject_of i)) rows) ≡ false)
    × OpenUnique rows

open-Later :
    (s : Subject) (i j : Incident) → Later i j → is_open_for s i ≡ false → is_open_for s j ≡ false
open-Later s i j l h = ground arith

unique-Later :
    (i j : Incident) (rows : List Incident)
    → Later i j
    → (not (is_resolved i.status) && any (is_open_for (subject_of i)) rows) ≡ false
    → (not (is_resolved j.status) && any (is_open_for (subject_of j)) rows) ≡ false
unique-Later i j rows l h = rw l.same_subject (ground arith)

module _ (p : Incident → Bool) (f : Incident → Incident) where
  pub change_first-Extends :
      (rows : List Incident) (i : Incident)
      → first p rows ≡ some i
      → Later i (f i)
      → Extends rows (change_first p f rows)
  change_first-Extends [] i h l = tt
  change_first-Extends (r ∷ rows) i h l = elim (Bool-cases (p r)) [
    | inl e ↦ let same : r ≡ i = ground arith in rw (e, same) (l, Extends-refl rows)
    | inr e ↦ rw e (Later-refl r, change_first-Extends rows i (ground arith) l)
  ]

  -- A later version is open for no subject that the row was not open for.
  open-change :
      (s : Subject) (rows : List Incident) (i : Incident)
      → first p rows ≡ some i
      → Later i (f i)
      → any (is_open_for s) rows ≡ false
      → any (is_open_for s) (change_first p f rows) ≡ false
  open-change s [] i h l q = refl
  open-change s (r ∷ rows) i h l q = elim (Bool-cases (p r)) [
    | inl e ↦ let same : r ≡ i = ground arith in rw e (ground (arith, open-Later s r (f r)))
    | inr e ↦ rw e (ground (arith, open-change s rows i))
  ]

  pub change_first-OpenUnique :
      (rows : List Incident) (i : Incident)
      → first p rows ≡ some i
      → Later i (f i)
      → OpenUnique rows
      → OpenUnique (change_first p f rows)
  change_first-OpenUnique [] i h l u = tt
  change_first-OpenUnique (r ∷ rows) i h l u = elim (Bool-cases (p r)) [
    | inl e ↦
        let same : r ≡ i = ground arith in
        let m : Later r (f r) = rw same l in rw e (unique-Later r (f r) rows m u.0, u.1)
    | inr e ↦ rw e (
      ground (arith, open-change (subject_of r) rows i),
      change_first-OpenUnique rows i (ground arith) l u.1,
    )
  ]
