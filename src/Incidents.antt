-- ===== src/Incidents.antt =====
-- app/domain/incidents.py: `IncidentService`. The session is the list of the rows of the table, in the
-- order of insertion; times are UTC instants, and the wall clock, the new row's id and Python's test for
-- a blank text are arguments. The column `evidence_refs` holds handles joined by commas; a handle
-- contains none, so it is a list of handles here.
pub mod Listing
pub mod Rows
pub mod Steps
pub mod Calls
pub mod Answers
pub mod Repeats
pub mod Lists
mod Tests
use Prim.Native.String
use unityworks_vision_ai_bac.Prelude.{
  ℕ, zero, suc, max, min, String, Bool, true, false, not, ◌&&◌, ◌||◌, any, keep_if, leb, ltb,
  str_eq, if◌then◌else◌, List, [], ◌∷◌, ◌++◌, Option, none, some, Result, ok, raise, ◌>>=◌, take,
}

pub data IncidentStatus : Type 0 where
  active acknowledged resolved : IncidentStatus

abbrev pub is_resolved : IncidentStatus → Bool
is_resolved resolved = true
is_resolved _ = false

pub data Error : Type 0 where
  conflict not_found validation : Error

pub record Incident : Type 0 where
  pub id : String
  pub organization_id : String
  pub restaurant_id : Option String
  pub zone_id : Option String
  pub camera_key : String
  pub object_id : String
  pub track_id : String
  pub rule_id : String
  pub ruleset_version : String
  pub severity : String
  pub summary : String
  pub status : IncidentStatus
  pub observed_at : ℕ
  pub created_at : ℕ
  pub finding_snapshot : String
  pub evidence_refs : List String
  pub acknowledged_at : Option ℕ
  pub acknowledged_by : Option String
  pub resolved_at : Option ℕ
  pub resolved_by : Option String
  pub resolution_kind : Option String
  pub resolution_note : Option String

-- What one finding is about.
pub record Subject : Type 0 where
  pub organization_id : String
  pub camera_key : String
  pub object_id : String
  pub rule_id : String

-- The condition of `_open_for`.
abbrev pub is_open_for : Subject → Incident → Bool
is_open_for s i =
    str_eq i.organization_id s.organization_id
    && str_eq i.camera_key s.camera_key
    && str_eq i.object_id s.object_id
    && str_eq i.rule_id s.rule_id
    && not (is_resolved i.status)

-- The condition of `get`.
abbrev pub has_id : (organization_id incident_id : String) → Incident → Bool
has_id organization_id incident_id i =
    str_eq i.organization_id organization_id && str_eq i.id incident_id

abbrev pub first : (Incident → Bool) → List Incident → Option Incident
first p [] = none
first p (i ∷ rows) = if p i then some i else first p rows

-- A change to the object that `first` returned is a change to its row.
abbrev pub change_first : (Incident → Bool) → (Incident → Incident) → List Incident → List Incident
change_first p f [] = []
change_first p f (i ∷ rows) =
    let rest = change_first p f rows in if p i then f i ∷ rows else i ∷ rest

-- `_merge_refs`.
abbrev pub is_blank_ref : String → Bool
is_blank_ref r = str_eq r ""

abbrev pub add_refs : List String → List String → List String
add_refs seen [] = seen
add_refs seen (r ∷ refs) =
    add_refs
      (if not (is_blank_ref r) && not (any (λ s. str_eq s r) seen) then seen ++ r ∷ [] else seen)
      refs

unfoldable pub merge_refs : List String → List String → List String
merge_refs existing incoming =
    take 50 (add_refs (keep_if (λ r. not (is_blank_ref r)) existing) incoming)

abbrev pub is_empty {ℓ} : {A : Type ℓ} → List A → Bool
is_empty [] = true
is_empty (x ∷ xs) = false

-- The repeat of a finding moves the clock and adds evidence; the rest of the row stays.
abbrev pub repeat_finding : (observed_at : ℕ) → List String → Incident → Incident
repeat_finding observed_at refs i = record i {
  observed_at = max i.observed_at observed_at;
  evidence_refs = if is_empty refs then i.evidence_refs else merge_refs i.evidence_refs refs;
}

-- The arguments of `open`; `finding` is the text of its JSON.
pub record Report : Type 0 where
  pub subject : Subject
  pub observed_at : ℕ
  pub severity : String
  pub summary : String
  pub ruleset_version : String
  pub finding : String
  pub restaurant_id : Option String
  pub zone_id : Option String
  pub track_id : String
  pub evidence_refs : List String

-- The first characters of a text, `s[:n]`.
abbrev pub take_characters : ℕ → String → String
take_characters zero s = ""
take_characters (suc n) String.[] = ""
take_characters (suc n) (String.◌∷◌ c s) = String.◌∷◌ c (take_characters n s)

abbrev pub new_incident : (id : String) → (now : ℕ) → Report → Incident
new_incident id now r = record {
  id = id;
  organization_id = r.subject.organization_id;
  restaurant_id = r.restaurant_id;
  zone_id = r.zone_id;
  camera_key = r.subject.camera_key;
  object_id = r.subject.object_id;
  track_id = r.track_id;
  rule_id = r.subject.rule_id;
  ruleset_version = r.ruleset_version;
  severity = r.severity;
  summary = r.summary;
  status = active;
  observed_at = r.observed_at;
  created_at = now;
  finding_snapshot = take_characters 8000 r.finding;
  evidence_refs = r.evidence_refs;
  acknowledged_at = none;
  acknowledged_by = none;
  resolved_at = none;
  resolved_by = none;
  resolution_kind = none;
  resolution_note = none;
}

-- `open`; the flag tells whether a row was added.
unfoldable pub open_incident :
    (id : String) → (now : ℕ) → Report → List Incident → List Incident × Incident × Bool
open_incident id now r rows =
    let new = new_incident id now r in
    let change = repeat_finding r.observed_at r.evidence_refs in
    elim (first (is_open_for r.subject) rows) [
      | none ↦ (rows ++ new ∷ [], new, true)
      | some i ↦ (change_first (is_open_for r.subject) change rows, change i, false)
    ]

unfoldable pub get : (organization_id incident_id : String) → List Incident → Result Error Incident
get organization_id incident_id rows = elim (first (has_id organization_id incident_id) rows) [
  | none ↦ raise not_found
  | some i ↦ ok i
]

-- A method that changes the row of `get`, and returns it.
abbrev pub changed_row :
    (organization_id incident_id : String)
    → (Incident → Incident)
    → List Incident
    → Incident
    → List Incident × Incident
changed_row organization_id incident_id f rows i =
    (change_first (has_id organization_id incident_id) f rows, f i)

unfoldable pub acknowledge :
    (now : ℕ)
    → (organization_id incident_id actor : String) → List Incident
    → Result Error (List Incident × Incident)
unfolding get
acknowledge now organization_id incident_id actor rows = do
  i ← get organization_id incident_id rows
  elim i.status [
    | resolved ↦ raise conflict
    | acknowledged ↦ ok (rows, i)
    | active ↦ ok (
        changed_row organization_id incident_id
          (λ r. record r {
            status = acknowledged;
            acknowledged_at = some now;
            acknowledged_by = some actor;
          })
          rows i)
  ]

-- `note[:2000] or None`.
unfoldable pub clip_note : String → Option String
clip_note note = let kept = take_characters 2000 note in if str_eq kept "" then none else some kept

module _ (is_blank : String → Bool) (now : ℕ) where
  abbrev pub resolve_row : (actor kind note : String) → Incident → Incident
  resolve_row actor kind note r = record r {
    status = resolved;
    resolved_at = some now;
    resolved_by = some actor;
    resolution_kind = some kind;
    resolution_note = clip_note note;
  }

  unfoldable pub resolve :
      (organization_id incident_id actor kind note : String)
      → List Incident
      → Result Error (List Incident × Incident)
  unfolding get
  resolve organization_id incident_id actor kind note rows =
      if not (str_eq kind "observation" || str_eq kind "operator")
      then raise validation
      else if str_eq kind "operator" && is_blank note
      then raise validation
      else (get organization_id incident_id rows >>= λ i.
          if is_resolved i.status
          then ok (rows, i)
          else ok (changed_row organization_id incident_id (resolve_row actor kind note) rows i))

  -- `None` is returned where nothing is open.
  unfoldable pub resolve_by_observation :
      Subject → List Incident → Result Error (List Incident × Option Incident)
  unfolding resolve
  resolve_by_observation s rows = elim (first (is_open_for s) rows) [
    | none ↦ ok (rows, none)
    | some i ↦
        (resolve s.organization_id i.id "vision-os" "observation"
            "a later observation showed the rule satisfied" rows
          >>= λ (rows', r). ok (rows', some r))
  ]
