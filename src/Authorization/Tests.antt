-- ===== src/Authorization/Tests.antt =====
-- Runs of the authorization model, and the theorems at concrete inputs.
use unityworks_vision_ai_bac.Prelude.{
  String, ◌≡◌, refl, true, ◌&&◌, ◌||◌, any, List, [], ◌∷◌, some, ok,
}
use unityworks_vision_ai_bac.Authorization.Platform.{
  read_state, read_evidence, is_action, Scope, Principal, Grant, authorize_static, covers_camera,
  covers, permits, cameras_in,
}
use unityworks_vision_ai_bac.Authorization.Model.{
  AccessDecision, auditor, reach_listed, view_observations, view_evidence, actions_of,
  new_camera_scope,
}
use unityworks_vision_ai_bac.Authorization.Resolver.{User}
use unityworks_vision_ai_bac.Authorization.Narrowing.{
  disjoint, authorize_static-reach, static, authorize_with, HasGround, authorize_with-tenant,
}
use unityworks_vision_ai_bac.Authorization.Reach.{enter, may_enter, Enters, enter-reach}
use unityworks_vision_ai_bac.Authorization.Roles.{wanted, actions_of-wanted}

abbrev ann : Principal
ann = record { subject = "ann"; tenant_id = "t"; scopes = []; display_name = "" }

abbrev first_camera : Grant
first_camera = record {
  subject = "ann";
  tenant_id = "t";
  actions = read_state ∷ [];
  cameras = "c1" ∷ [];
  regions = [];
}

abbrev asks : List String → Scope
asks cameras = record { tenant_id = "t"; site_ids = []; camera_ids = cameras; region_ids = [] }

-- A request for a camera outside the grant is answered with a scope that names no camera, and so with
-- every camera of the tenant.
other_camera :
    (authorize_static (first_camera ∷ []) ann read_state (asks ("c2" ∷ []))).scope.camera_ids ≡ []
unfolding authorize_static
other_camera = refl

other_camera_reach :
    cameras_in
      (some (λ t. "c1" ∷ "c2" ∷ "c3" ∷ []))
      []
      (authorize_static (first_camera ∷ []) ann read_state (asks ("c2" ∷ []))).scope
    ≡ "c1" ∷ "c2" ∷ "c3" ∷ []
unfolding authorize_static cameras_in
other_camera_reach = refl

ann_reads : (authorize_static (first_camera ∷ []) ann read_state (asks ("c2" ∷ []))).granted ≡ true
unfolding authorize_static
ann_reads = refl

ann_reads_with :
    (authorize_with (static (first_camera ∷ [])) ann read_state (asks ("c1" ∷ []))).granted ≡ true
unfolding authorize_with
ann_reads_with = refl

abbrev t : String
t = "t"

authorize_static-reach_example :
    (t ≡ t)
    × (t ≡ t)
    × (permits first_camera read_state ≡ true)
    × ((authorize_static (first_camera ∷ []) ann read_state (asks ("c2" ∷ []))).scope.tenant_id ≡ t)
    × (covers_camera
          (authorize_static (first_camera ∷ []) ann read_state (asks ("c2" ∷ []))).scope
          "c3"
        ≡ (disjoint first_camera.cameras ("c2" ∷ [])
            || (covers first_camera "c3" && covers_camera (asks ("c2" ∷ [])) "c3")))
authorize_static-reach_example =
    authorize_static-reach (first_camera ∷ []) ann read_state (asks ("c2" ∷ [])) first_camera "c3"
      refl ann_reads

authorize_with-tenant_example :
    (t ≡ t)
    × ((authorize_with
          (static (first_camera ∷ []))
          ann
          read_state
          (asks ("c1" ∷ []))).scope.tenant_id
        ≡ t)
    × HasGround (static (first_camera ∷ [])) ann read_state
authorize_with-tenant_example =
    authorize_with-tenant (static (first_camera ∷ [])) ann read_state (asks ("c1" ∷ []))
      ann_reads_with

abbrev auditor_account : AccessDecision
auditor_account = record {
  subject = "rev";
  tenant_id = "t";
  roles = auditor ∷ [];
  cameras = record { breadth = reach_listed; camera_ids = "c1" ∷ [] };
  site_ids = [];
  display_name = "";
  permissions = view_observations ∷ view_evidence ∷ [];
}

abbrev kept_order : List String → List String
kept_order xs = xs

cameras_checked : new_camera_scope auditor_account.cameras ≡ ok auditor_account.cameras
unfolding new_camera_scope
cameras_checked = refl

enter-reach_example :
    Enters auditor_account "c2"
      (may_enter auditor_account read_evidence)
      (enter kept_order auditor_account read_evidence)
enter-reach_example =
    enter-reach kept_order auditor_account read_evidence "c2" refl refl cameras_checked

actions_of-wanted_example :
    any (λ b. is_action b read_evidence) (actions_of auditor_account)
    ≡ wanted auditor_account read_evidence
actions_of-wanted_example = actions_of-wanted auditor_account read_evidence

-- Stand-ins for Python's text functions, for texts without blanks, capitals and commas.
abbrev same_text : String → String
same_text s = s

abbrev one_part : String → List String
one_part s = s ∷ []

abbrev stored_user : User
stored_user = record {
  email = "rev@x";
  organization_id = "t";
  display_name = "";
  is_active = true;
  role_assignments = "auditor" ∷ "chef" ∷ [];
  access_grants = record { camera_breadth = "listed"; camera_ids = "c1"; site_ids = "" } ∷ [];
}
