-- ===== src/Authorization/Model.antt =====
-- app/authorization/model.py: roles, permissions, the three-state camera scope and the translation of
-- an access decision to the platform. Python's `sorted` is an argument; a frozenset is a list that is
-- only tested for membership.
use unityworks_vision_ai_bac.Prelude.{
  String, Bool, true, false, not, ◌&&◌, any, map, str_eq, if◌then◌else◌, List, [], ◌∷◌, ◌++◌,
  Result, ok, raise,
}
use unityworks_vision_ai_bac.Authorization.Platform.{
  Action, read_state, read_observations, read_evidence, subscribe, register_demand as demand_action,
  read_capability, read_coverage, is_empty, Scope, Principal, Grant, Error, value_error,
  scope_error, new_scope, new_principal, new_grant,
}

pub data Role : Type 0 where
  super_admin org_admin restaurant_manager kitchen_supervisor hygiene_officer auditor developer :
      Role

abbrev pub is_platform_role : Role → Bool
is_platform_role super_admin = true
is_platform_role developer = true
is_platform_role _ = false

pub data Permission : Type 0 where
  manage_organization manage_users view_users view_live view_observations view_evidence
        view_camera_health manage_cameras view_cameras view_incidents acknowledge_incidents
        resolve_incidents delete_evidence view_audit access_devtools register_demand :
      Permission

-- `Permission.value`, which tells the members apart.
abbrev pub value : Permission → String
value manage_organization = "manage_organization"
value manage_users = "manage_users"
value view_users = "view_users"
value view_live = "view_live"
value view_observations = "view_observations"
value view_evidence = "view_evidence"
value view_camera_health = "view_camera_health"
value manage_cameras = "manage_cameras"
value view_cameras = "view_cameras"
value view_incidents = "view_incidents"
value acknowledge_incidents = "acknowledge_incidents"
value resolve_incidents = "resolve_incidents"
value delete_evidence = "delete_evidence"
value view_audit = "view_audit"
value access_devtools = "access_devtools"
value register_demand = "register_demand"

abbrev pub is_permission : Permission → Permission → Bool
is_permission p q = str_eq (value p) (value q)

abbrev pub all_permissions : List Permission
all_permissions =
    manage_organization ∷ manage_users ∷ view_users ∷ view_live ∷ view_observations ∷ view_evidence
    ∷ view_camera_health ∷ manage_cameras ∷ view_cameras ∷ view_incidents ∷ acknowledge_incidents
    ∷ resolve_incidents ∷ delete_evidence ∷ view_audit ∷ access_devtools ∷ register_demand ∷ []

-- `ROLE_PERMISSIONS`.
abbrev pub role_permissions : Role → List Permission
role_permissions super_admin = all_permissions
role_permissions org_admin =
    manage_organization ∷ manage_users ∷ view_users ∷ view_live ∷ view_observations ∷ view_evidence
    ∷ view_camera_health ∷ register_demand ∷ manage_cameras ∷ view_cameras ∷ view_incidents
    ∷ acknowledge_incidents ∷ resolve_incidents ∷ delete_evidence ∷ view_audit ∷ []
role_permissions restaurant_manager =
    view_users ∷ view_live ∷ view_observations ∷ view_evidence ∷ view_camera_health ∷ view_cameras
    ∷ view_incidents ∷ acknowledge_incidents ∷ resolve_incidents ∷ []
role_permissions kitchen_supervisor =
    view_live ∷ view_observations ∷ view_camera_health ∷ view_cameras ∷ view_incidents
    ∷ acknowledge_incidents ∷ []
role_permissions hygiene_officer =
    view_observations ∷ view_evidence ∷ view_camera_health ∷ view_cameras ∷ view_incidents
    ∷ resolve_incidents ∷ []
role_permissions auditor = view_observations ∷ view_evidence ∷ view_incidents ∷ view_audit ∷ []
role_permissions developer =
    view_live ∷ view_observations ∷ view_evidence ∷ view_camera_health ∷ access_devtools
    ∷ register_demand ∷ view_cameras ∷ view_incidents ∷ []

abbrev pub contains : Permission → List Permission → Bool
contains p ps = any (λ q. is_permission q p) ps

unfoldable pub permissions_for : List Role → List Permission
permissions_for [] = []
permissions_for (r ∷ roles) = role_permissions r ++ permissions_for roles

pub data ScopeBreadth : Type 0 where
  reach_none reach_listed reach_all_in_tenant : ScopeBreadth

abbrev pub is_listed : ScopeBreadth → Bool
is_listed reach_listed = true
is_listed _ = false

pub record CameraScope : Type 0 where
  pub breadth : ScopeBreadth
  pub camera_ids : List String

-- `CameraScope.__post_init__`.
unfoldable pub new_camera_scope : CameraScope → Result Error CameraScope
new_camera_scope s =
    if is_listed s.breadth && is_empty s.camera_ids
    then raise value_error
    else if not (is_listed s.breadth) && not (is_empty s.camera_ids)
    then raise value_error
    else ok s

abbrev pub grants_anything : CameraScope → Bool
grants_anything s = elim s.breadth [ reach_none ↦ false | _ ↦ true ]

-- The three constructors.
unfoldable pub no_cameras : Result Error CameraScope
unfolding new_camera_scope
no_cameras = new_camera_scope (record { breadth = reach_none; camera_ids = [] })

unfoldable pub listed : List String → Result Error CameraScope
unfolding new_camera_scope
listed camera_ids = new_camera_scope (record { breadth = reach_listed; camera_ids = camera_ids })

unfoldable pub all_in_tenant : Result Error CameraScope
unfolding new_camera_scope
all_in_tenant = new_camera_scope (record { breadth = reach_all_in_tenant; camera_ids = [] })

pub record AccessDecision : Type 0 where
  pub subject : String
  pub tenant_id : String
  pub roles : List Role
  pub cameras : CameraScope
  pub site_ids : List String
  pub display_name : String
  pub permissions : List Permission

-- `AccessDecision.__post_init__`.
unfoldable pub new_decision : AccessDecision → Result Error AccessDecision
unfolding permissions_for
new_decision d =
    if str_eq d.subject ""
    then raise value_error
    else if str_eq d.tenant_id ""
    then raise value_error
    else if is_empty d.permissions
    then ok (record d { permissions = permissions_for d.roles })
    else ok d

abbrev pub has : AccessDecision → Permission → Bool
has d p = contains p d.permissions

unfoldable pub require : AccessDecision → Permission → Result Error (Unit {0})
require d p = if not (has d p) then raise scope_error else ok tt

unfoldable pub to_principal : (List String → List String) → AccessDecision → Result Error Principal
unfolding new_principal
to_principal sorted d = new_principal (record {
  subject = d.subject;
  tenant_id = d.tenant_id;
  scopes = sorted (map value d.permissions);
  display_name = d.display_name;
})

unfoldable pub to_scope : AccessDecision → Result Error Scope
unfolding new_scope
to_scope d =
    if not (grants_anything d.cameras)
    then raise scope_error
    else new_scope (record {
      tenant_id = d.tenant_id;
      site_ids = d.site_ids;
      camera_ids = d.cameras.camera_ids;
      region_ids = [];
    })

-- `_actions`.
abbrev pub granted_if : Bool → List Action → List Action
granted_if b actions = if b then actions else []

unfoldable pub actions_of : AccessDecision → List Action
actions_of d =
    granted_if (has d view_observations)
      (read_state ∷ read_observations ∷ read_capability ∷ read_coverage ∷ [])
    ++ granted_if (has d view_live) (subscribe ∷ [])
    ++ granted_if (has d view_camera_health) (read_coverage ∷ [])
    ++ granted_if (has d view_evidence) (read_evidence ∷ [])
    ++ granted_if (has d register_demand) (demand_action ∷ [])

unfoldable pub to_grant : AccessDecision → Result Error Grant
unfolding new_grant actions_of
to_grant d =
    if not (grants_anything d.cameras)
    then raise scope_error
    else new_grant (record {
      subject = d.subject;
      tenant_id = d.tenant_id;
      actions = actions_of d;
      cameras = if is_listed d.cameras.breadth then d.cameras.camera_ids else [];
      regions = [];
    })
