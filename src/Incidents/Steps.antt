-- ===== src/Incidents/Steps.antt =====
-- What one call of the incident service does to the table (app/domain/incidents.py).
use unityworks_vision_ai_bac.Prelude.{
  ℕ, ◌≡◌, refl, inl, inr, String, Bool, true, false, ◌||◌, any, if◌then◌else◌, List, [], ◌∷◌, ◌++◌,
  Option, none, some, arith, eq_iff, Bool-cases, Option-cases, Result, ok, raise, ◌>>=◌, >>=-eq-ok,
}
use unityworks_vision_ai_bac.Incidents.{
  Incident, IncidentStatus, active, acknowledged, resolved, is_resolved, Subject, Report, Error,
  conflict, is_open_for, has_id, first, change_first, repeat_finding, new_incident, open_incident,
  get, acknowledge, resolve, resolve_row, resolve_by_observation,
}
use unityworks_vision_ai_bac.Incidents.Rows.{
  subject_of, Later, Extends, Extends-refl, Extends-snoc, OpenUnique, change_first-Extends,
  change_first-OpenUnique,
}

-- What a call may do to the table.
abbrev pub Moves : List Incident → List Incident → Type 0
Moves rows rows' = Extends rows rows' × OpenUnique rows'

-- A change to the first row that fits moves the table, if it makes that row a later version.
change-Moves :
    (p : Incident → Bool) (f : Incident → Incident) (rows : List Incident) (i : Incident)
    → first p rows ≡ some i
    → Later i (f i)
    → OpenUnique rows
    → Moves rows (change_first p f rows)
change-Moves p f rows i h l u =
    (change_first-Extends p f rows i h l, change_first-OpenUnique p f rows i h l u)

pub first-fits :
    (p : Incident → Bool) (rows : List Incident) (i : Incident) → first p rows ≡ some i → p i ≡ true
first-fits p [] i h = cc
first-fits p (r ∷ rows) i h = elim (Bool-cases (p r)) [
  | inl e ↦ let same : r ≡ i = ground arith in rw (← same) e
  | inr e ↦ first-fits p rows i (ground arith)
]

pub none_of_first :
    (p : Incident → Bool) (rows : List Incident) → first p rows ≡ none → any p rows ≡ false
none_of_first p [] h = refl
none_of_first p (r ∷ rows) h = ground (arith, none_of_first p rows)

any-snoc :
    (p : Incident → Bool) (rows : List Incident) (i : Incident)
    → any p (rows ++ i ∷ []) ≡ (any p rows || p i)
any-snoc p [] i = ground arith
any-snoc p (r ∷ rows) i = ground (arith, any-snoc p rows i)

-- Being open for the other's subject goes both ways between open rows.
open_sym :
    (i j : Incident)
    → is_resolved i.status ≡ false
    → is_open_for (subject_of j) i ≡ false
    → is_open_for (subject_of i) j ≡ false
open_sym i j r h = ground (
  arith,
  eq_iff i.organization_id j.organization_id,
  eq_iff i.camera_key j.camera_key,
  eq_iff i.object_id j.object_id,
  eq_iff i.rule_id j.rule_id,
  eq_iff j.organization_id i.organization_id,
  eq_iff j.camera_key i.camera_key,
  eq_iff j.object_id i.object_id,
  eq_iff j.rule_id i.rule_id,
)

OpenUnique-snoc :
    (rows : List Incident) (i : Incident)
    → OpenUnique rows
    → any (is_open_for (subject_of i)) rows ≡ false
    → OpenUnique (rows ++ i ∷ [])
OpenUnique-snoc [] i u h = (ground arith, tt)
OpenUnique-snoc (r ∷ rows) i u h = (
  ground (arith, any-snoc (is_open_for (subject_of r)) rows i, open_sym r i),
  OpenUnique-snoc rows i u.1 (ground arith),
)

repeat-Later :
    (i : Incident) (t : ℕ) (refs : List String)
    → is_resolved i.status ≡ false
    → Later i (repeat_finding t refs i)
repeat-Later i t refs h = ground arith

pub open_incident-Moves :
    (id : String) (now : ℕ) (r : Report) (rows : List Incident)
    → OpenUnique rows
    → Moves rows (open_incident id now r rows).0
unfolding open_incident
open_incident-Moves id now r rows u = elim (Option-cases (first (is_open_for r.subject) rows)) [
  | inl e ↦
      rw (e, open_incident)
        (
          Extends-snoc rows (new_incident id now r),
          OpenUnique-snoc rows (new_incident id now r) u
              (none_of_first (is_open_for r.subject) rows e),
        )
  | inr (i, e) ↦
      rw (e, open_incident)
        (change-Moves (is_open_for r.subject) (repeat_finding r.observed_at r.evidence_refs) rows i
          e
          (repeat-Later i r.observed_at r.evidence_refs
            (let fits = first-fits (is_open_for r.subject) rows i e in ground arith))
          u)
]

pub get-first :
    (org id : String) (rows : List Incident) (i : Incident)
    → get org id rows ≡ ok i
    → first (has_id org id) rows ≡ some i
unfolding get
get-first org id rows i h = ground arith

pub acknowledge-Moves :
    (now : ℕ) (org id actor : String) (rows : List Incident) (out : List Incident × Incident)
    → acknowledge now org id actor rows ≡ ok out
    → OpenUnique rows
    → Moves rows out.0
unfolding acknowledge
acknowledge-Moves now org id actor rows out h u =
    let (i, e, k) = >>=-eq-ok (get org id rows) _ h in
    go i (get-first org id rows i e) i.status refl k
  where
    acked : Incident → Incident
    acked r = record r {
      status = acknowledged;
      acknowledged_at = some now;
      acknowledged_by = some actor;
    }

    go :
        (i : Incident)
        → first (has_id org id) rows ≡ some i
        → (s : IncidentStatus) → i.status ≡ s
        → (elim s as (λ _. Result Error (List Incident × Incident)) [
          | resolved ↦ raise conflict
          | acknowledged ↦ ok (rows, i)
          | active ↦ ok (change_first (has_id org id) acked rows, acked i)
        ])
          ≡ ok out
        → Moves rows out.0
    go i f resolved e k = cc
    go i f acknowledged e k =
        let same : rows ≡ out.0 = ground arith in rw (← same) (Extends-refl rows, u)
    go i f active e k =
        let same : change_first (has_id org id) acked rows ≡ out.0 = ground arith in
        rw (← same) (change-Moves (has_id org id) acked rows i f (ground arith) u)

module _ (is_blank : String → Bool) (now : ℕ) where
  pub resolve-Moves :
      (org id actor kind note : String) (rows : List Incident) (out : List Incident × Incident)
      → resolve is_blank now org id actor kind note rows ≡ ok out
      → OpenUnique rows
      → Moves rows out.0
  unfolding resolve
  resolve-Moves org id actor kind note rows out h u =
      let k : (get org id rows >>= λ i.
      if is_resolved i.status
      then ok (rows, i)
      else ok (
        change_first (has_id org id) (resolve_row is_blank now actor kind note) rows,
        resolve_row is_blank now actor kind note i,
      ))
          ≡ ok out =
        ground arith in
      let (i, e, l) = >>=-eq-ok (get org id rows) _ k in
      elim (Bool-cases (is_resolved i.status)) [
        | inl y ↦ let same : rows ≡ out.0 = ground arith in rw (← same) (Extends-refl rows, u)
        | inr n ↦
            let same : change_first (has_id org id) (resolve_row is_blank now actor kind note) rows
                ≡ out.0 =
              ground arith in
            rw (← same) (
              change-Moves (has_id org id) (resolve_row is_blank now actor kind note) rows i
                (get-first org id rows i e) (ground arith) u)
      ]

  pub observe-Moves :
      (s : Subject) (rows : List Incident) (out : List Incident × Option Incident)
      → resolve_by_observation is_blank now s rows ≡ ok out
      → OpenUnique rows
      → Moves rows out.0
  unfolding resolve_by_observation
  observe-Moves s rows out h u = elim (Option-cases (first (is_open_for s) rows)) [
    | inl e ↦ let same : rows ≡ out.0 = ground arith in rw (← same) (Extends-refl rows, u)
    | inr (i, e) ↦
        let k : (resolve is_blank now s.organization_id i.id "vision-os" "observation"
                "a later observation showed the rule satisfied" rows
              >>= λ (rows', r). ok (rows', some r))
            ≡ ok out =
          rw (e, resolve_by_observation) at h in
        let (done, q, l) =
          >>=-eq-ok
            (resolve is_blank now s.organization_id i.id "vision-os" "observation"
              "a later observation showed the rule satisfied" rows)
            _ k in
        let same : done.0 ≡ out.0 = ground arith in
        rw (← same) (
          resolve-Moves s.organization_id i.id "vision-os" "observation"
            "a later observation showed the rule satisfied" rows done q u)
  ]
