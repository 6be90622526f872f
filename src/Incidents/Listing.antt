-- ===== src/Incidents/Listing.antt =====
-- The list of incidents, `list` of app/domain/incidents.py.
use unityworks_vision_ai_bac.Prelude.{
  ℕ, max, min, String, Bool, true, false, ◌&&◌, any, keep_if, ltb, str_eq, if◌then◌else◌, List, [],
  ◌∷◌, Option, none, some, take,
}
use unityworks_vision_ai_bac.Incidents.{Incident, IncidentStatus, active, acknowledged, resolved}

-- `ORDER BY created_at DESC`, the order of insertion among equals.
abbrev pub insert_newest : Incident → List Incident → List Incident
insert_newest i [] = i ∷ []
insert_newest i (j ∷ rows) =
    let rest = insert_newest i rows in
    if ltb i.created_at j.created_at then j ∷ rest else i ∷ j ∷ rows

abbrev pub newest_first : List Incident → List Incident
newest_first [] = []
newest_first (i ∷ rows) = insert_newest i (newest_first rows)

abbrev pub same_status : IncidentStatus → IncidentStatus → Bool
same_status active active = true
same_status acknowledged acknowledged = true
same_status resolved resolved = true
same_status _ _ = false

-- A filter that is not given lets every row through.
abbrev pub selects :
    (organization_id : String)
    → Option IncidentStatus
    → Option (List String)
    → Option String
    → Incident
    → Bool
selects organization_id status camera_keys restaurant_id i =
    str_eq i.organization_id organization_id
    && elim status [ none ↦ true | some s ↦ same_status i.status s ]
    && elim camera_keys [ none ↦ true | some ks ↦ any (λ k. str_eq k i.camera_key) ks ]
    && elim restaurant_id [
      | none ↦ true
      | some r ↦ elim i.restaurant_id [ none ↦ false | some q ↦ str_eq q r ]
    ]

-- `list`.
unfoldable pub list_incidents :
    (organization_id : String)
    → Option IncidentStatus
    → Option (List String)
    → Option String
    → (limit : ℕ) → List Incident
    → List Incident
list_incidents organization_id status camera_keys restaurant_id limit rows =
    let found =
      take (min (max limit 1) 500)
        (newest_first (keep_if (selects organization_id status camera_keys restaurant_id) rows)) in
    elim camera_keys [ none ↦ found | some [] ↦ [] | some (k ∷ ks) ↦ found ]
