-- ===== src/Identity/Held.antt =====
-- internal/bff/authenticator.go, `resolveActor`: the roles of the actor that a login becomes.
use servicer.Prelude.{
  String, Bool, true, ◌&&◌, ◌||◌, List, [], Option, none, some, ◌==◌, ◌≡◌, ◌≢◌, ◌↔◌, refl, ap, ◌⊎◌,
  inl, inr, any, contains, arith, eq_iff, Memᴰ, Bool-cases, mem_of_any, any_of_mem, and_true,
  Fallible, ok, sym, ◌∙◌,
}
use servicer.Api.{Tenant}
use servicer.Auth.{Actor, role_tenant_admin}
use servicer.Auth.Expander.{Index, RoleSummary, new_role_expander}
use servicer.Identity.{
  ResolvedIdentity, User, Group, RoleBinding, AccessScope, platform, tenant, apply_bindings,
  bare_actor, described_by, match_user, local_groups, binding_applies_to_actor,
  tenant_visible_legacy, granted_actor, IdentityError, resolve_actor,
}
use servicer.Identity.Grants.{
  holds, Reached, contains-expanded_all, gives_platform, gives_tenant, apply_bindings-roles,
  apply_bindings-tenant_roles, apply_tenants-roles, apply_tenants-tenant_roles,
}
use servicer.Identity.Linking.{
  read, is_admitted, actor_of, resolve_actor-admitted, resolve_actor-refused, err≢ok,
}

ok_inj : {a b : Actor} → ◌≡◌ {A = Fallible IdentityError Actor} (ok a) (ok b) → a ≡ b
ok_inj h = cc

some_inj : {a b : String} → some a ≡ some b → a ≡ b
some_inj h = cc

module _ (index : Index) (r : String) where
  gives_platform_iff :
      (names : List String) (scope : AccessScope)
      → (gives_platform index r names scope ≡ true)
        ↔ ((scope ≡ platform) × Reached index "platform" names r)
  gives_platform_iff names platform =
      let h = contains-expanded_all index "platform" names r in
      (λ k. (refl, h.0 k), λ (e, k). h.1 k)
  gives_platform_iff names tenant = (λ h. cc, λ (e, k). cc)

  gives_tenant_iff :
      (t : String) (names : List String) (scope : AccessScope) (ref : Option String)
      → (gives_tenant index r t names scope ref ≡ true)
        ↔ ((scope ≡ tenant) × (ref ≡ some t) × (t ≢ "") × Reached index "tenant" names r)
  gives_tenant_iff t names platform ref = (λ h. cc, λ (e, f, n, k). cc)
  gives_tenant_iff t names tenant none = (λ h. cc, λ (e, f, n, k). cc)
  gives_tenant_iff t names tenant (some name) =
      let h = contains-expanded_all index "tenant" names r in
      (
        λ k. (
          refl,
          ap some ((eq_iff name t).0 (ground arith)),
          λ e. ground (arith, eq_iff name t, eq_iff name ""),
          h.0 (ground arith),
        ),
        λ (e, f, n, k).
            let g = h.1 k in
            let same = some_inj f in rw same (ground (arith, eq_iff t t, eq_iff t "")),
      )

module _ (identity : ResolvedIdentity) (users : List User) (groups : List Group) where
  abbrev pub local : List String
  local = local_groups identity (match_user users identity) groups

  abbrev pub bare : Actor
  bare = bare_actor identity (match_user users identity) local

  -- A binding of the directory that names the login.
  abbrev pub Bound : List RoleBinding → RoleBinding → Type 0
  Bound bindings b =
      Memᴰ b bindings × (binding_applies_to_actor b bare (match_user users identity) local ≡ true)

  -- A tenant that the login owns.
  abbrev pub Owns : Tenant → Type 0
  Owns tn = tenant_visible_legacy bare (match_user users identity) tn ≡ true

  abbrev bound : RoleBinding → Bool
  bound b = binding_applies_to_actor b bare (match_user users identity) local

  bare-roles : (m : Option User) → (bare_actor identity m local).roles ≡ []
  unfolding bare_actor described_by
  bare-roles none = refl
  bare-roles (some u) = refl

  bare-tenant_roles : (m : Option User) → (bare_actor identity m local).tenant_roles ≡ []
  unfolding bare_actor described_by
  bare-tenant_roles none = refl
  bare-tenant_roles (some u) = refl

module _ (identity : ResolvedIdentity) (users : List User) (groups : List Group)
    (bindings : List RoleBinding) (tenants : List Tenant) (roles : List RoleSummary) where
  abbrev index : Index
  index = new_role_expander roles

  abbrev names_login : RoleBinding → Bool
  names_login = bound identity users groups

  abbrev owned : Tenant → Bool
  owned t = tenant_visible_legacy (bare identity users groups) (match_user users identity) t

  abbrev actor : Actor
  actor = actor_of identity users groups bindings tenants roles

  actor-roles :
      (r : String)
      → contains r actor.roles
        ≡ any
            (λ (b : RoleBinding). names_login b && gives_platform index r b.roles b.scope)
            bindings
  unfolding granted_actor
  actor-roles r =
      rw
        (
          apply_tenants-roles owned tenants
              (apply_bindings index names_login bindings (bare identity users groups)),
          apply_bindings-roles index r names_login bindings (bare identity users groups),
          bare-roles identity users groups (match_user users identity),
        )
        refl

  actor-tenant_roles :
      (t r : String)
      → holds r t actor.tenant_roles ≡ (
          any
            (λ (b : RoleBinding).
              names_login b && gives_tenant index r t b.roles b.scope b.tenant_ref)
            bindings
          || any (λ (tn : Tenant). owned tn && (tn.name == t && role_tenant_admin == r)) tenants)
  unfolding granted_actor
  actor-tenant_roles t r =
      rw
        (
          apply_tenants-tenant_roles r t owned tenants
              (apply_bindings index names_login bindings (bare identity users groups)),
          apply_bindings-tenant_roles index r t names_login bindings (bare identity users groups),
          bare-tenant_roles identity users groups (match_user users identity),
        )
        refl

  actor_of_ok :
      {a : Actor}
      → resolve_actor (read users groups bindings tenants roles) identity ≡ ok a
      → actor ≡ a
  actor_of_ok h = elim (Bool-cases (is_admitted identity users)) [
    | inl e ↦
        ok_inj (sym (resolve_actor-admitted identity users groups bindings tenants roles e) ∙ h)
    | inr e ↦
        absurd
          (err≢ok (sym (resolve_actor-refused identity users groups bindings tenants roles e) ∙ h))
  ]

  actor-roles_iff :
      (r : String)
      → (contains r actor.roles ≡ true) ↔ (
          (b : RoleBinding) × Bound identity users groups bindings b
          × (b.scope ≡ platform)
          × Reached index "platform" b.roles r)
  actor-roles_iff r =
      let test = (λ (b : RoleBinding). names_login b && gives_platform index r b.roles b.scope) in
      (
        λ h.
            let (b, m, k) = mem_of_any test bindings (sym (actor-roles r) ∙ h) in
            let (n, g) = and_true _ _ k in
            let (e, reach) = (gives_platform_iff index r b.roles b.scope).0 g in
            (b, (m, n), e, reach),
        λ (b, (m, n), e, reach).
            let g = (gives_platform_iff index r b.roles b.scope).1 (e, reach) in
            actor-roles r ∙ any_of_mem test bindings m (rw (n, g) refl),
      )

  actor-tenant_roles_iff :
      (t r : String)
      → (holds r t actor.tenant_roles ≡ true) ↔ (
          ((b : RoleBinding) × Bound identity users groups bindings b
            × (b.scope ≡ tenant)
            × (b.tenant_ref ≡ some t)
            × (t ≢ "")
            × Reached index "tenant" b.roles r)
          ⊎ ((tn : Tenant) × Memᴰ tn tenants
              × (tn.name ≡ t)
              × (r ≡ role_tenant_admin)
              × Owns identity users groups tn))
  actor-tenant_roles_iff t r =
      let test = (λ (b : RoleBinding).
        names_login b && gives_tenant index r t b.roles b.scope b.tenant_ref) in
      let owner = (λ (tn : Tenant). owned tn && (tn.name == t && role_tenant_admin == r)) in
      (
        λ h. elim (Bool-cases (any test bindings)) [
          | inl e ↦
              let (b, m, k) = mem_of_any test bindings e in
              let (n, g) = and_true _ _ k in
              let (e, f, ne, reach) =
                (gives_tenant_iff index r t b.roles b.scope b.tenant_ref).0 g in
              inl (b, (m, n), e, f, ne, reach)
          | inr e ↦
              let (tn, m, k) = mem_of_any owner tenants (ground (arith, actor-tenant_roles t r)) in
              inr (
                tn,
                m,
                (eq_iff tn.name t).0 (ground arith),
                sym ((eq_iff role_tenant_admin r).0 (ground arith)),
                ground arith,
              )
        ],
        λ h. elim h [
          | inl (b, (m, n), e, f, ne, reach) ↦
              let g =
                (gives_tenant_iff index r t b.roles b.scope b.tenant_ref).1 (e, f, ne, reach) in
              let hit = any_of_mem test bindings m (rw (n, g) refl) in
              ground (arith, actor-tenant_roles t r)
          | inr (tn, m, e, f, o) ↦
              let k =
                any_of_mem owner tenants m
                  (ground (arith, eq_iff tn.name t, eq_iff role_tenant_admin r)) in
              ground (arith, actor-tenant_roles t r)
        ],
      )

-- The actor that a login becomes holds a platform role exactly when a platform binding that names
-- the login has a role that reaches it; it holds a role of a tenant exactly when a binding to that
-- tenant that names the login has a role that reaches it, or when the role is `tenant-admin` and the
-- login owns a tenant of that name.
pub resolve_actor_grants :
    (identity : ResolvedIdentity) (users : List User) (groups : List Group)
    → (bindings : List RoleBinding) (tenants : List Tenant) (roles : List RoleSummary) → (a : Actor)
    → resolve_actor (read users groups bindings tenants roles) identity ≡ ok a
    → (t r : String)
    → ((contains r a.roles ≡ true) ↔ (
        (b : RoleBinding) × Bound identity users groups bindings b
        × (b.scope ≡ platform)
        × Reached (new_role_expander roles) "platform" b.roles r))
      × ((holds r t a.tenant_roles ≡ true) ↔ (
          ((b : RoleBinding) × Bound identity users groups bindings b
            × (b.scope ≡ tenant)
            × (b.tenant_ref ≡ some t)
            × (t ≢ "")
            × Reached (new_role_expander roles) "tenant" b.roles r)
          ⊎ ((tn : Tenant) × Memᴰ tn tenants
              × (tn.name ≡ t)
              × (r ≡ role_tenant_admin)
              × Owns identity users groups tn)))
resolve_actor_grants identity users groups bindings tenants roles a h t r =
    rw (← actor_of_ok identity users groups bindings tenants roles h) (
      actor-roles_iff identity users groups bindings tenants roles r,
      actor-tenant_roles_iff identity users groups bindings tenants roles t r,
    )
