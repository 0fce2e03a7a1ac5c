-- ===== src/Auth/Roles.antt =====
-- internal/bff/auth.go: the order of the roles, and what the role checks amount to.
use servicer.Prelude.{
  String, true, ◌||◌, any, any_congr, contains, ◌==◌, ◌≡◌, ◌≢◌, eq_refl, eq_iff, arith,
}
use servicer.Auth.{
  Actor, role_platform_admin, role_tenant_admin, role_tenant_operator, role_service_consumer,
  tenant_role_satisfies, platform_role_satisfies, has_any, is_platform_admin,
}

-- The role hierarchy inside a tenant, as a relation.
pub data Covers (granted required : String) : Type 0 where
  same : granted ≡ required → Covers granted required
  admin_operator :
      granted ≡ role_tenant_admin → required ≡ role_tenant_operator → Covers granted required
  admin_consumer :
      granted ≡ role_tenant_admin → required ≡ role_service_consumer → Covers granted required
  operator_consumer :
      granted ≡ role_tenant_operator → required ≡ role_service_consumer → Covers granted required

module _ (g r : String) where
  Covers-of_satisfies : tenant_role_satisfies g r ≡ true → Covers g r
  unfolding tenant_role_satisfies
  Covers-of_satisfies h = grind (
    arith,
    same,
    admin_operator,
    admin_consumer,
    operator_consumer,
    eq_iff g r,
    eq_iff g role_tenant_admin,
    eq_iff g role_tenant_operator,
    eq_iff r role_tenant_operator,
    eq_iff r role_service_consumer,
  )

  satisfies_of_Covers : Covers g r → tenant_role_satisfies g r ≡ true
  unfolding tenant_role_satisfies
  satisfies_of_Covers (same e) = ground (arith, eq_iff g r)
  satisfies_of_Covers (admin_operator e f) =
      ground (arith, eq_iff g r, eq_iff g role_tenant_admin, eq_iff r role_tenant_operator)
  satisfies_of_Covers (admin_consumer e f) =
      ground (arith, eq_iff g r, eq_iff g role_tenant_admin, eq_iff r role_service_consumer)
  satisfies_of_Covers (operator_consumer e f) = rw (e, f)

-- The names of two roles differ.
role_names_differ :
    (◌≢◌ {A = String} role_tenant_admin role_tenant_operator)
    × (◌≢◌ {A = String} role_tenant_admin role_service_consumer)
    × (◌≢◌ {A = String} role_tenant_operator role_service_consumer)
role_names_differ = (
  λ e. cc ((eq_iff role_tenant_admin role_tenant_operator).1 e),
  λ e. cc ((eq_iff role_tenant_admin role_service_consumer).1 e),
  λ e. cc ((eq_iff role_tenant_operator role_service_consumer).1 e),
)

Covers-trans : {a b c : String} → Covers a b → Covers b c → Covers a c
Covers-trans (same e) k = rw e k
Covers-trans (admin_operator e f) (same g) = admin_operator e (cc)
Covers-trans (admin_operator e f) (operator_consumer g h) = admin_consumer e h
Covers-trans (admin_consumer e f) (same g) = admin_consumer e (cc)
Covers-trans (operator_consumer e f) (same g) = operator_consumer e (cc)
Covers-trans (admin_operator e f) (admin_operator g h) = absurd (role_names_differ.0 (cc))
Covers-trans (admin_operator e f) (admin_consumer g h) = absurd (role_names_differ.0 (cc))
Covers-trans (admin_consumer e f) (admin_operator g h) = absurd (role_names_differ.1 (cc))
Covers-trans (admin_consumer e f) (admin_consumer g h) = absurd (role_names_differ.1 (cc))
Covers-trans (admin_consumer e f) (operator_consumer g h) = absurd (role_names_differ.2 (cc))
Covers-trans (operator_consumer e f) (admin_operator g h) = absurd (role_names_differ.1 (cc))
Covers-trans (operator_consumer e f) (admin_consumer g h) = absurd (role_names_differ.1 (cc))
Covers-trans (operator_consumer e f) (operator_consumer g h) = absurd (role_names_differ.2 (cc))

tenant_role_satisfies_trans :
    (a b c : String)
    → tenant_role_satisfies a b ≡ true
    → tenant_role_satisfies b c ≡ true
    → tenant_role_satisfies a c ≡ true
tenant_role_satisfies_trans a b c h k =
    satisfies_of_Covers a c (Covers-trans (Covers-of_satisfies a b h) (Covers-of_satisfies b c k))

-- No role but `platform-admin` covers `platform-admin`.
not_above_platform_admin :
    (g : String) → tenant_role_satisfies g role_platform_admin ≡ (g == role_platform_admin)
unfolding tenant_role_satisfies
not_above_platform_admin g = ground arith

-- Platform roles are preordered: of a role that covers a second one, which covers a third, the first
-- covers the third, and each of them covers itself.
pub platform_role_satisfies_order :
    (a b c : String)
    → platform_role_satisfies a b ≡ true
    → platform_role_satisfies b c ≡ true
    → (platform_role_satisfies a c ≡ true)
      × (platform_role_satisfies a a ≡ true)
      × (platform_role_satisfies b b ≡ true)
      × (platform_role_satisfies c c ≡ true)
unfolding platform_role_satisfies
platform_role_satisfies_order a b c h k = (
  ground (
    arith,
    eq_iff a b,
    eq_iff b c,
    eq_iff a role_platform_admin,
    eq_iff b role_platform_admin,
    not_above_platform_admin a,
    tenant_role_satisfies_trans a b c,
  ),
  rw (eq_refl a),
  rw (eq_refl b),
  rw (eq_refl c),
)

-- An actor passes as platform administrator exactly when the role `platform-admin` is among the
-- platform roles, or among the roles of some tenant.
pub is_platform_admin_iff :
    (a : Actor)
    → is_platform_admin a ≡ (
        contains role_platform_admin a.roles
        || any (λ entry. contains role_platform_admin entry.1) a.tenant_roles)
unfolding is_platform_admin has_any platform_role_satisfies
is_platform_admin_iff a =
    let platform =
      any_congr (λ g. platform_role_satisfies g role_platform_admin) (λ g. g == role_platform_admin)
        a.roles (λ g. ground (arith, not_above_platform_admin g)) in
    let tenant =
      any_congr (λ entry. any (λ g. tenant_role_satisfies g role_platform_admin) entry.1)
        (λ entry. contains role_platform_admin entry.1) a.tenant_roles
        (λ entry. any_congr _ _ entry.1 not_above_platform_admin) in
    ground (arith, platform, tenant)
