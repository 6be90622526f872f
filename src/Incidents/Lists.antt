-- ===== src/Incidents/Lists.antt =====
-- The list of incidents a caller may see (app/domain/incidents.py, `list`).
use unityworks_vision_ai_bac.Prelude.{
  ◌≤◌, ◌≡◌, String, In, length, List, [], ◌∷◌, Option, none, some, All,
}
use unityworks_vision_ai_bac.Incidents.{Incident, IncidentStatus}

-- No row stands before a newer one.
abbrev pub NewestFirst : List Incident → Type 0
NewestFirst [] = Unit
NewestFirst (i ∷ rows) = All (λ j. j.created_at ≤ i.created_at) rows × NewestFirst rows

-- What each filter asks of a row, where it is given.
abbrev pub HasStatus : Option IncidentStatus → Incident → Type 0
HasStatus none i = Unit
HasStatus (some s) i = i.status ≡ s

abbrev pub OnCamera : Option (List String) → Incident → Type 0
OnCamera none i = Unit
OnCamera (some keys) i = In i.camera_key keys

abbrev pub OfRestaurant : Option String → Incident → Type 0
OfRestaurant none i = Unit
OfRestaurant (some r) i = i.restaurant_id ≡ some r

abbrev pub Admitted :
    String → Option IncidentStatus → Option (List String) → Option String → Incident → Type 0
Admitted org status cameras restaurant i =
    (i.organization_id ≡ org) × HasStatus status i × OnCamera cameras i × OfRestaurant restaurant i

-- What a list of incidents keeps for the caller: the filters, the order and the bound.
abbrev pub Scoped : (Incident → Type 0) → List Incident → Type 0
Scoped P found = All P found × NewestFirst found × (length found ≤ 500)
