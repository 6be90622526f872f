-- ===== src/Authorization/Roles.antt =====
-- Where the permissions and the cameras of a decision come from (app/authorization).
use unityworks_vision_ai_bac.Prelude.{
  String, ◌≡◌, refl, Bool, true, false, ◌&&◌, ◌||◌, any, List, [], ◌∷◌, ◌++◌, Option, none, some,
  arith, ok,
}
use unityworks_vision_ai_bac.Authorization.Platform.{
  Action, read_state, read_observations, read_evidence, subscribe, register_demand as demand_action,
  read_capability, read_coverage, is_action, holds,
}
use unityworks_vision_ai_bac.Authorization.Model.{
  Role, Permission, view_live, view_observations, view_evidence, view_camera_health,
  register_demand, role_permissions, contains, is_permission, permissions_for, reach_none,
  reach_listed, reach_all_in_tenant, new_camera_scope, AccessDecision, has, actions_of, granted_if,
}
use unityworks_vision_ai_bac.Authorization.Resolver.{
  AccessGrant, User, read_breadth, first_grant, parse_roles, split_ids,
}
use unityworks_vision_ai_bac.Authorization.Reach.{states}

any-append :
    {A : Type 0} (p : A → Bool) (xs ys : List A) → any p (xs ++ ys) ≡ (any p xs || any p ys)
any-append p [] ys = refl
any-append p (x ∷ xs) ys = ground (arith, any-append p xs ys)

pub permissions_for-union :
    (p : Permission) (roles : List Role)
    → contains p (permissions_for roles) ≡ any (λ r. contains p (role_permissions r)) roles
unfolding permissions_for
permissions_for-union p [] = refl
permissions_for-union p (r ∷ roles) = ground (
  arith,
  any-append (λ q. is_permission q p) (role_permissions r) (permissions_for roles),
  permissions_for-union p roles,
)

any-granted :
    (p : Action → Bool) (b : Bool) (xs : List Action) → any p (granted_if b xs) ≡ (b && any p xs)
any-granted p true xs = refl
any-granted p false xs = refl

-- The permission, or either of two, that an action on the platform takes.
abbrev pub wanted : AccessDecision → Action → Bool
wanted d read_state = has d view_observations
wanted d read_observations = has d view_observations
wanted d read_capability = has d view_observations
wanted d read_coverage = has d view_observations || has d view_camera_health
wanted d subscribe = has d view_live
wanted d read_evidence = has d view_evidence
wanted d demand_action = has d register_demand

-- A decision is translated to an action of the platform exactly if it holds the permission for it:
-- evidence takes its own permission, and so does a demand.
pub actions_of-wanted :
    (d : AccessDecision) (a : Action) → any (λ b. is_action b a) (actions_of d) ≡ wanted d a
unfolding actions_of
actions_of-wanted d read_state = ground arith
actions_of-wanted d _ = ground arith

module _ (clean strip : String → String) (split : String → List String) where
  -- The cameras that a stored grant states, where its columns can be read.
  abbrev pub stored : Option AccessGrant → String → Bool
  stored none c = false
  stored (some g) c = elim (read_breadth (clean g.camera_breadth)) [
    | none ↦ false
    | some reach_none ↦ false
    | some reach_listed ↦ holds c (split_ids clean strip split g.camera_ids)
    | some reach_all_in_tenant ↦ true
  ]

  -- What a decision made for a user holds, and which cameras it states.
  abbrev pub FromUser : User → Option AccessGrant → String → Permission → AccessDecision → Type 0
  FromUser u grant c p d =
      (new_camera_scope d.cameras ≡ ok d.cameras)
      × (has d p ≡ (
          u.is_active
          && any (λ r. contains p (role_permissions r))
              (parse_roles clean strip split u.role_assignments)))
      × (states d.cameras c ≡ (u.is_active && stored (first_grant grant u.access_grants) c))
