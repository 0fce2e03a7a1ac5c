-- ===== src/Identity/Grants.antt =====
-- internal/bff/authenticator.go, `resolveActor`: which roles the two loops give.
use mathlib.Core.List.Memᴰ as MemD
use servicer.Prelude.{
  String, Bool, true, false, ◌&&◌, ◌||◌, not, List, [], ◌∷◌, Option, none, some, ◌==◌, ◌≡◌, ◌↔◌,
  refl, inl, inr, any, contains, arith, eq_iff, any-append, Memᴰ, Bool-cases, if◌then◌else◌,
}
use servicer.Api.{Tenant}
use servicer.Auth.{Actor, role_tenant_admin}
use servicer.Auth.Expander.{Index}
use servicer.Auth.Expander.Reach.{Reaches}
use servicer.Auth.Expander.Visit.{expand_correct}
use servicer.Identity.{
  RoleBinding, AccessScope, platform, tenant, expanded, expanded_all, grant, give, apply_binding,
  apply_bindings, apply_tenants,
}

-- A role is among those that the map has for a tenant.
abbrev pub holds : String → String → List (String × List String) → Bool
holds r t [] = false
holds r t (entry ∷ entries) = if entry.0 == t then contains r entry.1 else holds r t entries

holds-grant :
    (r t name : String) (more : List String) (entries : List (String × List String))
    → holds r t (grant name more entries) ≡ (holds r t entries || (name == t && contains r more))
unfolding grant
holds-grant r t name more [] = ground arith
holds-grant r t name more (entry ∷ entries) = ground (
  arith,
  eq_iff entry.0 name,
  eq_iff entry.0 t,
  eq_iff name t,
  holds-grant r t name more entries,
  any-append (λ x. x == r) entry.1 more,
)

module _ (index : Index) (scope : String) where
  -- What reaches a role from one of the roles.
  abbrev pub Reached : List String → String → Type 0
  Reached roles r = (role : String) × Memᴰ role roles × Reaches index scope role r

  contains-expanded :
      (role r : String)
      → (contains r (expanded index scope role) ≡ true) ↔ Reaches index scope role r
  unfolding expanded
  contains-expanded role r =
      let (out, e, d, h) = expand_correct index role scope in rw (expanded, e) (h r)

  pub contains-expanded_all :
      (roles : List String) (r : String)
      → (contains r (expanded_all index scope roles) ≡ true) ↔ Reached roles r
  unfolding expanded_all
  contains-expanded_all [] r = (λ h. cc, λ (role, m, k). elim m [ ])
  contains-expanded_all (role ∷ roles) r =
      let split =
        any-append (λ x. x == r) (expanded index scope role) (expanded_all index scope roles) in
      let rest = contains-expanded_all roles r in
      (
        λ h. elim (Bool-cases (contains r (expanded index scope role))) [
          | inl e ↦ (role, Memᴰ.head refl, (contains-expanded role r).0 e)
          | inr e ↦ let (x, m, k) = rest.0 (ground (arith, split)) in (x, Memᴰ.tail m, k)
        ],
        λ (x, m, k). elim (MemD.cases_cons m) [
          | inl f ↦ let e = (contains-expanded role r).1 (rw f at k) in ground (arith, split)
          | inr n ↦ let e = rest.1 (x, n, k) in ground (arith, split)
        ],
      )

-- What a binding gives: a role of the platform, and a role of the tenant `t`.
module _ (index : Index) (r : String) where
  abbrev pub gives_platform : List String → AccessScope → Bool
  gives_platform names platform = contains r (expanded_all index "platform" names)
  gives_platform names tenant = false

  abbrev pub gives_tenant : String → List String → AccessScope → Option String → Bool
  gives_tenant t names platform ref = false
  gives_tenant t names tenant none = false
  gives_tenant t names tenant (some name) =
      not (name == "") && (name == t && contains r (expanded_all index "tenant" names))

  give-roles :
      (names : List String) (scope : AccessScope) (ref : Option String) (a : Actor)
      → contains r (give index names scope ref a).roles
        ≡ (contains r a.roles || gives_platform names scope)
  unfolding give
  give-roles names platform ref a =
      any-append (λ x. x == r) a.roles (expanded_all index "platform" names)
  give-roles names tenant none a = ground arith
  give-roles names tenant (some name) a = ground arith

  give-tenant_roles :
      (t : String) (names : List String) (scope : AccessScope) (ref : Option String) (a : Actor)
      → holds r t (give index names scope ref a).tenant_roles
        ≡ (holds r t a.tenant_roles || gives_tenant t names scope ref)
  unfolding give
  give-tenant_roles t names platform ref a = ground arith
  give-tenant_roles t names tenant none a = ground arith
  give-tenant_roles t names tenant (some name) a = elim (Bool-cases (name == "")) [
    | inl e ↦ rw e (ground arith)
    | inr e ↦ rw e (holds-grant r t name (expanded_all index "tenant" names) a.tenant_roles)
  ]

  pub apply_bindings-roles :
      (test : RoleBinding → Bool) (bindings : List RoleBinding) (a : Actor)
      → contains r (apply_bindings index test bindings a).roles
        ≡ (contains r a.roles || any (λ b. test b && gives_platform b.roles b.scope) bindings)
  unfolding apply_bindings apply_binding
  apply_bindings-roles test [] a = ground arith
  apply_bindings-roles test (b ∷ bindings) a = elim (Bool-cases (test b)) [
    | inl e ↦ rw e (
        ground (
          arith,
          apply_bindings-roles test bindings (apply_binding index b a),
          give-roles b.roles b.scope b.tenant_ref a,
        ))
    | inr e ↦ rw (apply_bindings, e) (apply_bindings-roles test bindings a)
  ]

  pub apply_bindings-tenant_roles :
      (t : String) (test : RoleBinding → Bool) (bindings : List RoleBinding) (a : Actor)
      → holds r t (apply_bindings index test bindings a).tenant_roles ≡ (
          holds r t a.tenant_roles
          || any (λ b. test b && gives_tenant t b.roles b.scope b.tenant_ref) bindings)
  unfolding apply_bindings apply_binding
  apply_bindings-tenant_roles t test [] a = ground arith
  apply_bindings-tenant_roles t test (b ∷ bindings) a = elim (Bool-cases (test b)) [
    | inl e ↦ rw e (
        ground (
          arith,
          apply_bindings-tenant_roles t test bindings (apply_binding index b a),
          give-tenant_roles t b.roles b.scope b.tenant_ref a,
        ))
    | inr e ↦ rw (apply_bindings, e) (apply_bindings-tenant_roles t test bindings a)
  ]

pub apply_tenants-roles :
    (test : Tenant → Bool) (tenants : List Tenant) (a : Actor)
    → (apply_tenants test tenants a).roles ≡ a.roles
unfolding apply_tenants
apply_tenants-roles test [] a = refl
apply_tenants-roles test (t ∷ tenants) a = elim (Bool-cases (test t)) [
  | inl e ↦ rw (apply_tenants, e) (apply_tenants-roles test tenants _)
  | inr e ↦ rw (apply_tenants, e) (apply_tenants-roles test tenants a)
]

-- The loop over the tenants.
module _ (r : String) where
  pub apply_tenants-tenant_roles :
      (t : String) (test : Tenant → Bool) (tenants : List Tenant) (a : Actor)
      → holds r t (apply_tenants test tenants a).tenant_roles ≡ (
          holds r t a.tenant_roles
          || any (λ (tn : Tenant). test tn && (tn.name == t && role_tenant_admin == r)) tenants)
  unfolding apply_tenants
  apply_tenants-tenant_roles t test [] a = ground arith
  apply_tenants-tenant_roles t test (tn ∷ tenants) a = elim (Bool-cases (test tn)) [
    | inl e ↦ rw e (
        ground (
          arith,
          apply_tenants-tenant_roles t test tenants
              (record a { tenant_roles = grant tn.name (role_tenant_admin ∷ []) a.tenant_roles }),
          holds-grant r t tn.name (role_tenant_admin ∷ []) a.tenant_roles,
        ))
    | inr e ↦ rw (apply_tenants, e) (apply_tenants-tenant_roles t test tenants a)
  ]
