-- ===== src/Authorization/Reach.antt =====
-- From an access decision of the application to the scope that the platform answers: what the account
-- reaches is what its camera scope states.
use unityworks_vision_ai_bac.Prelude.{
  String, ◌≡◌, refl, inl, inr, Bool, true, false, ◌&&◌, ◌||◌, any, str_eq, if◌then◌else◌, List, [],
  ◌∷◌, some, arith, eq_iff, Bool-cases, Result, ok, raise, ◌>>=◌, Returns, Raises, map, sym, ◌∙◌,
  sym, ◌∙◌,
}
use unityworks_vision_ai_bac.Authorization.Platform.{
  Action, Scope, Principal, Grant, Error, is_empty, is_action, holds, covers_camera, permits,
  narrowed_cameras, narrow, find_grant, authorize_static, authorize, forbidden,
}
use unityworks_vision_ai_bac.Authorization.Model.{
  CameraScope, ScopeBreadth, reach_none, reach_listed, reach_all_in_tenant, new_camera_scope,
  AccessDecision, grants_anything, to_scope, to_grant, to_principal, actions_of, value, is_listed,
}
use unityworks_vision_ai_bac.Authorization.Narrowing.{
  authorize_static-known, disjoint, narrowed-reach,
}

-- Which cameras a camera scope states.
abbrev pub states : CameraScope → String → Bool
states s c = elim s.breadth [
  | reach_none ↦ false
  | reach_listed ↦ holds c s.camera_ids
  | reach_all_in_tenant ↦ true
]

-- An account enters the platform with the grant, the scope and the principal of its own decision.
unfoldable pub enter : (List String → List String) → AccessDecision → Action → Result Error Scope
unfolding to_principal to_grant to_scope authorize
enter sorted d a = to_principal sorted d >>= λ p.
    to_grant d >>= λ g. to_scope d >>= λ s. authorize (authorize_static (g ∷ [])) p a s

abbrev pub may_enter : AccessDecision → Action → Bool
may_enter d a = grants_anything d.cameras && any (λ b. is_action b a) (actions_of d)

-- An account either enters with a scope of its tenant that covers the cameras its decision states, or
-- it is refused.
abbrev pub Enters : AccessDecision → String → Bool → Result Error Scope → Type 0
Enters d c true r =
    Returns r (λ s. (s.tenant_id ≡ d.tenant_id) × (covers_camera s c ≡ states d.cameras c))
Enters d c false r = Raises r

overlaps : (ids : List String) → disjoint ids ids ≡ false
overlaps [] = refl
overlaps (x ∷ ids) = ground (arith, eq_iff x x)

found_self :
    (g : Grant) (p : Principal) → g.subject ≡ p.subject → find_grant (g ∷ []) p.subject ≡ some g
found_self g p h = ground (arith, eq_iff g.subject p.subject)

-- The platform's answer to an account whose grant and request name the same cameras.
own-answer :
    (g : Grant) (p : Principal) (a : Action) (s : Scope)
    → g.subject ≡ p.subject
    → g.tenant_id ≡ p.tenant_id
    → s.tenant_id ≡ p.tenant_id
    → authorize (authorize_static (g ∷ [])) p a s
      ≡ (if permits g a then ok (narrow g s) else raise forbidden)
unfolding authorize
own-answer g p a s sub own tenant =
    let e = authorize_static-known (g ∷ []) p a s g (found_self g p sub) in
    rw (authorize, e)
      (ground (
        arith,
        eq_iff g.tenant_id p.tenant_id,
        eq_iff s.tenant_id p.tenant_id,
        eq_iff p.tenant_id s.tenant_id,
      ))

-- The parts of an entry.
pub record IsGrantOf (d : AccessDecision) (g : Grant) : Type 0 where
  pub subject : g.subject ≡ d.subject
  pub tenant : g.tenant_id ≡ d.tenant_id
  pub actions : g.actions ≡ actions_of d
  pub cameras : g.cameras ≡ (if is_listed d.cameras.breadth then d.cameras.camera_ids else [])

made_grant :
    (d : AccessDecision)
    → str_eq d.subject "" ≡ false
    → str_eq d.tenant_id "" ≡ false
    → grants_anything d.cameras ≡ true
    → (g : Grant) × (to_grant d ≡ ok g) × IsGrantOf d g
unfolding to_grant
made_grant d u v w = (
  record {
    subject = d.subject;
    tenant_id = d.tenant_id;
    actions = actions_of d;
    cameras = if is_listed d.cameras.breadth then d.cameras.camera_ids else [];
    regions = [];
  },
  rw (to_grant, u, v, w) refl,
  record { subject = refl; tenant = refl; actions = refl; cameras = refl },
)

made_scope :
    (d : AccessDecision)
    → str_eq d.tenant_id "" ≡ false
    → grants_anything d.cameras ≡ true
    → (s : Scope) × (to_scope d ≡ ok s)
      × (s.tenant_id ≡ d.tenant_id)
      × (s.camera_ids ≡ d.cameras.camera_ids)
unfolding to_scope
made_scope d v w = (
  record {
    tenant_id = d.tenant_id;
    site_ids = d.site_ids;
    camera_ids = d.cameras.camera_ids;
    region_ids = [];
  },
  rw (to_scope, v, w) refl,
  refl,
  refl,
)

made_principal :
    (sorted : List String → List String) (d : AccessDecision)
    → str_eq d.subject "" ≡ false
    → str_eq d.tenant_id "" ≡ false
    → (p : Principal) × (to_principal sorted d ≡ ok p)
      × (p.subject ≡ d.subject)
      × (p.tenant_id ≡ d.tenant_id)
unfolding to_principal
made_principal sorted d u v = (
  record {
    subject = d.subject;
    tenant_id = d.tenant_id;
    scopes = sorted (map value d.permissions);
    display_name = d.display_name;
  },
  rw (to_principal, u, v) refl,
  refl,
  refl,
)

-- The cameras that the platform keeps for a camera scope of each breadth.
kept : ScopeBreadth → List String → List String
kept b ids = narrowed_cameras (if is_listed b then ids else []) ids

-- A camera scope that was checked keeps exactly the cameras that it states.
own-reach :
    (b : ScopeBreadth) (ids : List String) (c : String)
    → new_camera_scope (record { breadth = b; camera_ids = ids })
      ≡ ok (record { breadth = b; camera_ids = ids })
    → grants_anything (record { breadth = b; camera_ids = ids }) ≡ true
    → (is_empty (kept b ids) || holds c (kept b ids))
      ≡ states (record { breadth = b; camera_ids = ids }) c
unfolding new_camera_scope kept
own-reach reach_none ids c h w = cc
own-reach reach_listed [] c h w = cc
own-reach reach_listed (x ∷ ids) c h w =
    let n = narrowed-reach (x ∷ ids) (x ∷ ids) c in
    let o = overlaps (x ∷ ids) in ground (arith, n, o)
own-reach reach_all_in_tenant [] c h w = refl
own-reach reach_all_in_tenant (x ∷ ids) c h w = cc

answer-Enters :
    (d : AccessDecision) (c : String) (a : Action) (g : Grant) (s : Scope)
    → IsGrantOf d g
    → s.tenant_id ≡ d.tenant_id
    → s.camera_ids ≡ d.cameras.camera_ids
    → (is_empty (kept d.cameras.breadth d.cameras.camera_ids)
        || holds c (kept d.cameras.breadth d.cameras.camera_ids))
      ≡ states d.cameras c
    → Enters d c
        (any (λ b. is_action b a) (actions_of d))
        (if permits g a then ok (narrow g s) else raise forbidden)
unfolding kept
answer-Enters d c a g s gp st sc reach = rw (← gp.actions) (elim (Bool-cases (permits g a)) [
  | inl e ↦ rw e (st, rw (gp.cameras, sc) reach)
  | inr e ↦ rw e tt
])

refused :
    (sorted : List String → List String) (d : AccessDecision) (a : Action)
    → grants_anything d.cameras ≡ false
    → Raises (enter sorted d a)
unfolding enter
refused sorted d a w = ground arith

entered :
    (sorted : List String → List String) (d : AccessDecision) (a : Action) (c : String)
    → str_eq d.subject "" ≡ false
    → str_eq d.tenant_id "" ≡ false
    → new_camera_scope d.cameras ≡ ok d.cameras
    → grants_anything d.cameras ≡ true
    → Enters d c (any (λ b. is_action b a) (actions_of d)) (enter sorted d a)
unfolding enter
entered sorted d a c u v k w =
    let (p, pe, ps, pt) = made_principal sorted d u v in
    let (g, ge, gp) = made_grant d u v w in
    let (s, se, st, sc) = made_scope d v w in
    let reach = own-reach d.cameras.breadth d.cameras.camera_ids c k w in
    let answer = own-answer g p a s (gp.subject ∙ sym ps) (gp.tenant ∙ sym pt) (st ∙ sym pt) in
    rw (enter, pe, ge, se, answer) (answer-Enters d c a g s gp st sc reach)

module _ (sorted : List String → List String) (d : AccessDecision) where
  -- An account whose decision names a subject and a tenant, and whose camera scope was checked, enters
  -- with an action exactly if it is granted some camera and the action; and then the scope it enters
  -- with is of its tenant and covers exactly the cameras that its camera scope states: no account
  -- reaches more by the platform's rule that no cameras means every camera.
  pub enter-reach :
      (a : Action) (c : String)
      → str_eq d.subject "" ≡ false
      → str_eq d.tenant_id "" ≡ false
      → new_camera_scope d.cameras ≡ ok d.cameras
      → Enters d c (may_enter d a) (enter sorted d a)
  enter-reach a c u v k = elim (Bool-cases (grants_anything d.cameras)) [
    | inl w ↦ rw w (entered sorted d a c u v k w)
    | inr w ↦ rw w (refused sorted d a w)
  ]
