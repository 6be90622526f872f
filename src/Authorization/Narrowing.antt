-- ===== src/Authorization/Narrowing.antt =====
-- What the platform's authorizer lets a principal see: the reach of the scope that it answers with.
use unityworks_vision_ai_bac.Prelude.{
  String, ◌≡◌, refl, inl, inr, Bool, true, not, ◌&&◌, ◌||◌, any, keep_if, str_eq, if◌then◌else◌,
  List, [], ◌∷◌, none, some, arith, eq_iff, Bool-cases, Option-cases, sym,
}
use unityworks_vision_ai_bac.Authorization.Platform.{
  Action, Scope, Principal, Grant, is_empty, holds, covers_camera, covers, permits,
  narrowed_cameras, narrow, find_grant, authorize_static, authorize_reads, authorize_none,
  AuthorizationDecision, deny, permit, is_action, reads, other_tenant, grant_of_other_tenant,
  no_permission,
}

-- The two lists name cameras, but none in common.
abbrev pub disjoint : List String → List String → Bool
disjoint granted requested =
    not (is_empty granted)
    && not (is_empty requested)
    && is_empty (keep_if (λ c. holds c granted) requested)

holds-keep_if :
    (x : String) (granted requested : List String)
    → holds x (keep_if (λ c. holds c granted) requested) ≡ (holds x granted && holds x requested)
holds-keep_if x granted [] = ground arith
holds-keep_if x granted (c ∷ requested) = elim (Bool-cases (str_eq c x)) [
  | inl q ↦
      let same : c ≡ x = ground (arith, eq_iff c x) in
      let both : holds c granted ≡ holds x granted = rw same refl in
      ground (arith, holds-keep_if x granted requested)
  | inr q ↦ ground (arith, holds-keep_if x granted requested)
]

pub narrowed-reach :
    (granted requested : List String) (c : String)
    → (is_empty (narrowed_cameras granted requested)
        || holds c (narrowed_cameras granted requested))
      ≡ (disjoint granted requested
          || ((is_empty granted || holds c granted) && (is_empty requested || holds c requested)))
narrowed-reach granted requested c = ground (arith, holds-keep_if c granted requested)

-- The answer of the static authorizer, for a principal whose grant is known.
pub authorize_static-known :
    (grants : List Grant) (p : Principal) (a : Action) (s : Scope) (g : Grant)
    → find_grant grants p.subject ≡ some g
    → authorize_static grants p a s ≡ (
        if not (str_eq p.tenant_id s.tenant_id)
        then deny p other_tenant
        else if not (str_eq g.tenant_id p.tenant_id)
        then deny p grant_of_other_tenant
        else if not (permits g a)
        then deny p no_permission
        else permit (narrow g s))
unfolding authorize_static
authorize_static-known grants p a s g f = rw (authorize_static, f) refl

granted-permits :
    (grants : List Grant) (p : Principal) (a : Action) (s : Scope) (g : Grant)
    → find_grant grants p.subject ≡ some g
    → (authorize_static grants p a s).granted ≡ true
    → (s.tenant_id ≡ p.tenant_id)
      × (g.tenant_id ≡ p.tenant_id)
      × (permits g a ≡ true)
      × (authorize_static grants p a s ≡ permit (narrow g s))
granted-permits grants p a s g f h =
    let e = authorize_static-known grants p a s g f in
    let k = rw e at h in
    (
      ground (arith, eq_iff p.tenant_id s.tenant_id),
      ground (arith, eq_iff g.tenant_id p.tenant_id),
      ground arith,
      ground (arith, e),
    )

-- Where the static authorizer grants, the principal's tenant is the scope's and its grant permits the
-- action; and the scope it answers with covers a camera exactly if the grant and the request both
-- cover it, or if both name cameras but none in common, in which case it covers every camera.
pub authorize_static-reach :
    (grants : List Grant) (p : Principal) (a : Action) (s : Scope) (g : Grant) (c : String)
    → find_grant grants p.subject ≡ some g
    → (authorize_static grants p a s).granted ≡ true
    → (s.tenant_id ≡ p.tenant_id)
      × (g.tenant_id ≡ p.tenant_id)
      × (permits g a ≡ true)
      × ((authorize_static grants p a s).scope.tenant_id ≡ p.tenant_id)
      × (covers_camera (authorize_static grants p a s).scope c
          ≡ (disjoint g.cameras s.camera_ids || (covers g c && covers_camera s c)))
authorize_static-reach grants p a s g c f h =
    let (tenant, own, may, e) = granted-permits grants p a s g f h in
    rw e (tenant, own, may, tenant, narrowed-reach g.cameras s.camera_ids c)

-- The authorizers that a deployment may name.
pub data Authorizer : Type 0 where
  static : List Grant → Authorizer
  deny_all : Authorizer
  tenant_reads : Authorizer

unfoldable pub authorize_with : Authorizer → Principal → Action → Scope → AuthorizationDecision
unfolding authorize_static authorize_none authorize_reads
authorize_with (static grants) p a s = authorize_static grants p a s
authorize_with deny_all p a s = authorize_none p a s
authorize_with tenant_reads p a s = authorize_reads p a s

-- The ground on which an authorizer grants an action.
abbrev pub HasGround : Authorizer → Principal → Action → Type 0
HasGround (static grants) p a = elim (find_grant grants p.subject) [
  | none ↦ ⊥
  | some g ↦ permits g a ≡ true
]
HasGround deny_all p a = ⊥
HasGround tenant_reads p a = any (λ b. is_action b a) reads ≡ true

static-HasGround :
    (grants : List Grant) (p : Principal) (a : Action) (s : Scope)
    → (authorize_static grants p a s).granted ≡ true
    → (p.tenant_id ≡ s.tenant_id)
      × ((authorize_static grants p a s).scope.tenant_id ≡ p.tenant_id)
      × HasGround (static grants) p a
unfolding authorize_static
static-HasGround grants p a s h = elim (Option-cases (find_grant grants p.subject)) [
  | inl e ↦ ground (arith, e)
  | inr (g, e) ↦
      let (tenant, own, may, f) = granted-permits grants p a s g e h in
      rw f (sym tenant, tenant, rw (HasGround, e) may)
]

-- No authorizer crosses a tenant: where one grants, the principal's tenant is the scope's and that of
-- the scope it answers with. The static one has then found a grant for the principal that permits the
-- action, the one for reads an action that reads and needs no grant, and the last never grants.
pub authorize_with-tenant :
    (k : Authorizer) (p : Principal) (a : Action) (s : Scope)
    → (authorize_with k p a s).granted ≡ true
    → (p.tenant_id ≡ s.tenant_id)
      × ((authorize_with k p a s).scope.tenant_id ≡ p.tenant_id)
      × HasGround k p a
unfolding authorize_with
authorize_with-tenant (static grants) p a s h = static-HasGround grants p a s h
authorize_with-tenant deny_all p a s h = cc
authorize_with-tenant tenant_reads p a s h = ground (arith, eq_iff p.tenant_id s.tenant_id)
