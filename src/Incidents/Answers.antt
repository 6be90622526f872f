-- ===== src/Incidents/Answers.antt =====
-- What the incident service answers (app/domain/incidents.py): how incidents are closed.
use unityworks_vision_ai_bac.Prelude.{
  ℕ, ◌≡◌, refl, ◌⊎◌, inl, inr, String, Bool, true, false, not, ◌&&◌, any, List, [], ◌∷◌, some,
  arith, eq_iff, Bool-cases, Option-cases, ok, Returns,
}
use unityworks_vision_ai_bac.Incidents.{
  Incident, is_resolved, Subject, is_open_for, has_id, first, change_first, get, resolve,
  resolve_row, resolve_by_observation,
}
use unityworks_vision_ai_bac.Incidents.Rows.{subject_of, OpenUnique}
use unityworks_vision_ai_bac.Incidents.Steps.{first-fits, none_of_first}

module _ (is_blank : String → Bool) (now : ℕ) where
  -- A resolution that is accepted leaves the incident resolved, and was made for an observation, or by
  -- an operator who gave a reason that is not blank.
  pub resolve-reason :
      (org id actor kind note : String) (rows : List Incident) (out : List Incident × Incident)
      → resolve is_blank now org id actor kind note rows ≡ ok out
      → (is_resolved out.1.status ≡ true)
        × ((kind ≡ "observation") ⊎ ((kind ≡ "operator") × (is_blank note ≡ false)))
  unfolding resolve
  resolve-reason org id actor kind note rows out h =
      (ground arith, ground (arith, eq_iff kind "observation", eq_iff kind "operator"))

-- No two rows of a tenant have the same id.
abbrev pub IdsUnique : List Incident → Type 0
IdsUnique [] = Unit
IdsUnique (i ∷ rows) = (any (has_id i.organization_id i.id) rows ≡ false) × IdsUnique rows

not_first :
    (p q : Incident → Bool) (rows : List Incident) (i : Incident)
    → any p rows ≡ false
    → first q rows ≡ some i
    → p i ≡ false
not_first p q [] i h f = cc
not_first p q (r ∷ rows) i h f = elim (Bool-cases (q r)) [
  | inl e ↦ let same : r ≡ i = ground arith in rw (← same) (ground arith)
  | inr e ↦ not_first p q rows i (ground arith) (ground arith)
]

-- With unique ids the row of an open incident is not the row of another with its id.
has_id-first :
    (s : Subject) (rows : List Incident) (r i : Incident)
    → any (has_id r.organization_id r.id) rows ≡ false
    → first (is_open_for s) rows ≡ some i
    → has_id s.organization_id i.id r ≡ false
has_id-first s rows r i h f =
    let fits = first-fits (is_open_for s) rows i f in
    let other = not_first (has_id r.organization_id r.id) (is_open_for s) rows i h f in
    ground (
      arith,
      eq_iff r.organization_id s.organization_id,
      eq_iff r.id i.id,
      eq_iff i.organization_id s.organization_id,
      eq_iff i.organization_id r.organization_id,
      eq_iff i.id r.id,
    )

has_id_self :
    (s : Subject) (i : Incident) → is_open_for s i ≡ true → has_id s.organization_id i.id i ≡ true
has_id_self s i h = ground (arith, eq_iff i.id i.id)

found_by_id :
    (s : Subject) (rows : List Incident) (i : Incident)
    → IdsUnique rows
    → first (is_open_for s) rows ≡ some i
    → first (has_id s.organization_id i.id) rows ≡ some i
found_by_id s [] i u f = cc
found_by_id s (r ∷ rows) i u f = elim (Bool-cases (is_open_for s r)) [
  | inl e ↦
      let same : r ≡ i = ground arith in let self = has_id_self s r e in rw (← same) (ground arith)
  | inr e ↦
      let later : first (is_open_for s) rows ≡ some i = ground arith in
      rw (has_id-first s rows r i u.0 later) (found_by_id s rows i u.1 later)
]

subject_of_open : (s : Subject) (i : Incident) → is_open_for s i ≡ true → subject_of i ≡ s
subject_of_open s i h = ground (
  arith,
  eq_iff i.organization_id s.organization_id,
  eq_iff i.camera_key s.camera_key,
  eq_iff i.object_id s.object_id,
  eq_iff i.rule_id s.rule_id,
)

alone_of_open :
    (r : Incident) (rows : List Incident)
    → is_resolved r.status ≡ false
    → (not (is_resolved r.status) && any (is_open_for (subject_of r)) rows) ≡ false
    → any (is_open_for (subject_of r)) rows ≡ false
alone_of_open r rows h u = ground arith

none_open :
    (f : Incident → Incident) (s : Subject) (rows : List Incident) (i : Incident)
    → is_open_for s (f i) ≡ false
    → OpenUnique rows
    → IdsUnique rows
    → first (is_open_for s) rows ≡ some i
    → any (is_open_for s) (change_first (has_id s.organization_id i.id) f rows) ≡ false
none_open f s [] i c u w h = cc
none_open f s (r ∷ rows) i c u w h = elim (Bool-cases (is_open_for s r)) [
  | inl e ↦
      let same : i ≡ r = ground arith in
      let alone : any (is_open_for s) rows ≡ false =
        rw (subject_of_open s r e) at (alone_of_open r rows (ground arith) u.0) in
      rw (same, has_id_self s r e) (ground arith)
  | inr e ↦
      let later : first (is_open_for s) rows ≡ some i = ground arith in
      rw (has_id-first s rows r i w.0 later) (ground (arith, none_open f s rows i c u.1 w.1 later))
]

module _ (is_blank : String → Bool) (now : ℕ) where
  resolve-observed :
      (org actor note : String) (rows : List Incident) (i : Incident)
      → first (has_id org i.id) rows ≡ some i
      → is_resolved i.status ≡ false
      → resolve is_blank now org i.id actor "observation" note rows
        ≡ ok (
          change_first (has_id org i.id) (resolve_row is_blank now actor "observation" note) rows,
          resolve_row is_blank now actor "observation" note i,
        )
  unfolding resolve get
  resolve-observed org actor note rows i f h = rw (resolve, get, f, h) refl

  not_resolved :
      (s : Subject) (i : Incident) → is_open_for s i ≡ true → is_resolved i.status ≡ false
  not_resolved s i h = ground arith

  closed :
      (s : Subject) (actor note : String) (i : Incident)
      → is_open_for s (resolve_row is_blank now actor "observation" note i) ≡ false
  closed s actor note i = ground arith

  -- Where incidents are unique and so are their ids, a later observation that shows the rule satisfied
  -- is always accepted, and leaves no incident open for its subject.
  pub observation-closes :
      (s : Subject) (rows : List Incident)
      → OpenUnique rows
      → IdsUnique rows
      → Returns
          (resolve_by_observation is_blank now s rows)
          (λ out. any (is_open_for s) out.0 ≡ false)
  unfolding resolve_by_observation
  observation-closes s rows u w = elim (Option-cases (first (is_open_for s) rows)) [
    | inl e ↦ rw (e, resolve_by_observation) (none_of_first (is_open_for s) rows e)
    | inr (i, e) ↦
        let fits = first-fits (is_open_for s) rows i e in
        let done =
          resolve-observed s.organization_id "vision-os"
            "a later observation showed the rule satisfied" rows i (found_by_id s rows i w e)
            (not_resolved s i fits) in
        rw (e, resolve_by_observation, done)
          (none_open
            (resolve_row is_blank now "vision-os" "observation"
              "a later observation showed the rule satisfied")
            s rows i (closed s "vision-os" "a later observation showed the rule satisfied" i) u w e)
  ]
