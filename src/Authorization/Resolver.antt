-- ===== src/Authorization/Resolver.antt =====
-- app/authorization/resolver.py: a stored user becomes an access decision. Python's text functions are
-- arguments: `clean` is `strip().lower()`, `split` is `split(",")` and `strip` is `strip()`.
use unityworks_vision_ai_bac.Prelude.{
  String, Bool, not, map, keep_if, str_eq, if◌then◌else◌, List, [], ◌∷◌, Option, none, some, Result,
  ◌>>=◌,
}
use unityworks_vision_ai_bac.Authorization.Platform.{Error, is_empty}
use unityworks_vision_ai_bac.Authorization.Model.{
  Role, super_admin, org_admin, restaurant_manager, kitchen_supervisor, hygiene_officer, auditor,
  developer, ScopeBreadth, reach_none, reach_listed, reach_all_in_tenant, CameraScope, no_cameras,
  listed, all_in_tenant, AccessDecision, new_decision,
}

-- `AccessGrant` of app/users/models.py, the columns that are read.
pub record AccessGrant : Type 0 where
  pub camera_breadth : String
  pub camera_ids : String
  pub site_ids : String

-- `User`, the columns that are read; a role assignment is its role.
pub record User : Type 0 where
  pub email : String
  pub organization_id : String
  pub display_name : String
  pub is_active : Bool
  pub role_assignments : List String
  pub access_grants : List AccessGrant

-- `Role(value)`.
abbrev pub read_role : String → Option Role
read_role v =
    if str_eq v "super_admin"
    then some super_admin
    else if str_eq v "org_admin"
    then some org_admin
    else if str_eq v "restaurant_manager"
    then some restaurant_manager
    else if str_eq v "kitchen_supervisor"
    then some kitchen_supervisor
    else if str_eq v "hygiene_officer"
    then some hygiene_officer
    else if str_eq v "auditor"
    then some auditor
    else if str_eq v "developer"
    then some developer
    else none

-- `ScopeBreadth(value)`.
abbrev pub read_breadth : String → Option ScopeBreadth
read_breadth v =
    if str_eq v "none"
    then some reach_none
    else if str_eq v "listed"
    then some reach_listed
    else if str_eq v "all_in_tenant"
    then some reach_all_in_tenant
    else none

abbrev pub first_grant : Option AccessGrant → List AccessGrant → Option AccessGrant
first_grant (some g) grants = some g
first_grant none [] = none
first_grant none (g ∷ grants) = some g

module _ (clean strip : String → String) (split : String → List String) where
  abbrev pub parse_roles : List String → List Role
  parse_roles [] = []
  parse_roles (v ∷ values) =
      let rest = parse_roles values in
      elim (read_role (clean v)) [ none ↦ rest | some r ↦ r ∷ rest ]

  -- `_split`.
  abbrev pub split_ids : String → List String
  split_ids raw =
      if str_eq raw ""
      then []
      else map strip (keep_if (λ part. not (str_eq (strip part) "")) (split raw))

  unfoldable pub parse_camera_scope : Option AccessGrant → Result Error CameraScope
  unfolding no_cameras listed all_in_tenant
  parse_camera_scope none = no_cameras
  parse_camera_scope (some g) = elim (read_breadth (clean g.camera_breadth)) [
    | none ↦ no_cameras
    | some reach_all_in_tenant ↦ all_in_tenant
    | some reach_none ↦ no_cameras
    | some reach_listed ↦
        let ids = split_ids g.camera_ids in if is_empty ids then no_cameras else listed ids
  ]

  -- The decision of an inactive user names no role and no camera.
  unfoldable pub decide : User → Option AccessGrant → Result Error AccessDecision
  unfolding parse_camera_scope new_decision
  decide u grant =
      if not u.is_active
      then (no_cameras >>= λ cameras. new_decision (record {
        subject = u.email;
        tenant_id = u.organization_id;
        roles = [];
        cameras = cameras;
        site_ids = [];
        display_name = u.display_name;
        permissions = [];
      }))
      else (let effective = first_grant grant u.access_grants in
          parse_camera_scope effective >>= λ cameras. new_decision (record {
            subject = u.email;
            tenant_id = u.organization_id;
            roles = parse_roles u.role_assignments;
            cameras = cameras;
            site_ids = elim effective [ none ↦ [] | some g ↦ split_ids g.site_ids ];
            display_name = u.display_name;
            permissions = [];
          }))
