-- ===== src/Authorization/Platform.antt =====
-- vision_os/core/model/api.py (Scope, Principal, Action), vision_os/adapters/exposure/authorization.py
-- (Grant and the three authorizers) and the resolution of a scope in vision_os/exposure/api.py. A
-- frozenset is a list that is only tested for membership; a denial keeps its kind in place of its text.
use unityworks_vision_ai_bac.Prelude.{
  String, Bool, true, false, not, ◌&&◌, ◌||◌, any, keep_if, str_eq, if◌then◌else◌, List, [], ◌∷◌,
  Option, none, some, Result, ok, raise,
}

pub data Action : Type 0 where
  read_state read_observations read_evidence subscribe register_demand read_capability
        read_coverage :
      Action

abbrev pub is_action : Action → Action → Bool
is_action read_state read_state = true
is_action read_observations read_observations = true
is_action read_evidence read_evidence = true
is_action subscribe subscribe = true
is_action register_demand register_demand = true
is_action read_capability read_capability = true
is_action read_coverage read_coverage = true
is_action _ _ = false

abbrev pub is_read : Action → Bool
is_read a = not (is_action a register_demand)

-- `x in xs` on identifiers.
abbrev pub holds : String → List String → Bool
holds x xs = any (λ y. str_eq y x) xs

abbrev pub is_empty {ℓ} : {A : Type ℓ} → List A → Bool
is_empty [] = true
is_empty (x ∷ xs) = false

pub data Error : Type 0 where
  value_error forbidden tenant_scope_violation scope_error : Error

pub record Scope : Type 0 where
  pub tenant_id : String
  pub site_ids : List String
  pub camera_ids : List String
  pub region_ids : List String

-- `Scope.__post_init__`.
unfoldable pub new_scope : Scope → Result Error Scope
new_scope s = if str_eq s.tenant_id "" then raise value_error else ok s

-- `Scope.covers_camera`: no cameras means every camera.
abbrev pub covers_camera : Scope → String → Bool
covers_camera s camera_id = is_empty s.camera_ids || holds camera_id s.camera_ids

unfoldable pub narrowed_to : Scope → List String → Scope
narrowed_to s cameras = record s { camera_ids = keep_if (covers_camera s) cameras }

pub record Principal : Type 0 where
  pub subject : String
  pub tenant_id : String
  pub scopes : List String
  pub display_name : String

-- `Principal.__post_init__`.
unfoldable pub new_principal : Principal → Result Error Principal
new_principal p = if str_eq p.subject "" || str_eq p.tenant_id "" then raise value_error else ok p

pub record Grant : Type 0 where
  pub subject : String
  pub tenant_id : String
  pub actions : List Action
  pub cameras : List String
  pub regions : List String

-- `Grant.__post_init__`.
unfoldable pub new_grant : Grant → Result Error Grant
new_grant g = if str_eq g.subject "" || str_eq g.tenant_id "" then raise value_error else ok g

abbrev pub permits : Grant → Action → Bool
permits g a = any (λ b. is_action b a) g.actions

abbrev pub covers : Grant → String → Bool
covers g camera_id = is_empty g.cameras || holds camera_id g.cameras

pub data Denial : Type 0 where
  other_tenant no_grant grant_of_other_tenant no_permission unconfigured needs_grant : Denial

pub record AuthorizationDecision : Type 0 where
  pub granted : Bool
  pub scope : Scope
  pub reason : Option Denial

abbrev pub deny : Principal → Denial → AuthorizationDecision
deny p reason = record {
  granted = false;
  scope = record { tenant_id = p.tenant_id; site_ids = []; camera_ids = []; region_ids = [] };
  reason = some reason;
}

abbrev pub permit : Scope → AuthorizationDecision
permit s = record { granted = true; scope = s; reason = none }

-- `StaticAuthorizer._narrow`.
abbrev pub narrowed_cameras : List String → List String → List String
narrowed_cameras granted requested =
    if not (is_empty granted) && not (is_empty requested)
    then keep_if (λ c. holds c granted) requested
    else if not (is_empty granted)
    then granted
    else requested

abbrev pub narrow : Grant → Scope → Scope
narrow g s = record s { camera_ids = narrowed_cameras g.cameras s.camera_ids }

-- `self._grants`: the last grant of a subject counts.
abbrev pub put_grant : List Grant → Grant → List Grant
put_grant [] g = g ∷ []
put_grant (h ∷ grants) g =
    let rest = put_grant grants g in if str_eq h.subject g.subject then g ∷ grants else h ∷ rest

abbrev pub add_all : List Grant → List Grant → List Grant
add_all held [] = held
add_all held (g ∷ grants) = add_all (put_grant held g) grants

abbrev pub find_grant : List Grant → String → Option Grant
find_grant [] subject = none
find_grant (g ∷ grants) subject =
    if str_eq g.subject subject then some g else find_grant grants subject

-- `StaticAuthorizer.authorize`.
unfoldable pub authorize_static : List Grant → Principal → Action → Scope → AuthorizationDecision
authorize_static grants p a s =
    if not (str_eq p.tenant_id s.tenant_id)
    then deny p other_tenant
    else elim (find_grant grants p.subject) [
      | none ↦ deny p no_grant
      | some g ↦
          if not (str_eq g.tenant_id p.tenant_id)
          then deny p grant_of_other_tenant
          else if not (permits g a)
          then deny p no_permission
          else permit (narrow g s)
    ]

-- `StaticAuthorizer.visible_cameras`.
unfoldable pub visible_static : List Grant → Principal → Scope → List String
visible_static grants p s = elim (find_grant grants p.subject) [
  | none ↦ []
  | some g ↦
      if not (str_eq g.tenant_id p.tenant_id)
      then []
      else if is_empty g.cameras
      then s.camera_ids
      else if is_empty s.camera_ids
      then g.cameras
      else keep_if (covers g) s.camera_ids
]

-- `DenyAll.authorize`.
unfoldable pub authorize_none : Principal → Action → Scope → AuthorizationDecision
authorize_none p a s = deny p unconfigured

-- `AllowReadsWithinTenant._READS` and `authorize`.
abbrev pub reads : List Action
reads = read_state ∷ read_observations ∷ read_coverage ∷ read_capability ∷ subscribe ∷ []

unfoldable pub authorize_reads : Principal → Action → Scope → AuthorizationDecision
authorize_reads p a s =
    if not (str_eq p.tenant_id s.tenant_id)
    then deny p other_tenant
    else if not (any (λ b. is_action b a) reads)
    then deny p needs_grant
    else permit s

-- `ObservationApi._authorize` for an authorizer.
unfoldable pub authorize :
    (Principal → Action → Scope → AuthorizationDecision)
    → Principal
    → Action
    → Scope
    → Result Error Scope
authorize authorizer p a s =
    if not (str_eq s.tenant_id p.tenant_id)
    then raise tenant_scope_violation
    else let decision = authorizer p a s in
      if not decision.granted then raise forbidden else ok decision.scope

-- `_cameras_in`: the tenant's cameras are those of the camera manager, or every partition where there
-- is no manager.
unfoldable pub cameras_in :
    (tenant_cameras : Option (String → List String))
    → (partitions : List String) → Scope
    → List String
cameras_in tenant_cameras partitions s =
    if not (is_empty s.camera_ids)
    then s.camera_ids
    else elim tenant_cameras [ none ↦ partitions | some cameras_of ↦ cameras_of s.tenant_id ]
