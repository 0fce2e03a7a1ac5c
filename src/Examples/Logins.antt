-- ===== src/Examples/Logins.antt =====
-- The theorems on logins at concrete inputs.
use servicer.Prelude.{
  String, true, List, [], ◌∷◌, some, ◌≡◌, ◌≢◌, ◌↔◌, ◌⊎◌, refl, contains, trim_space, lookup, ok,
  Memᴰ,
}
use servicer.Api.{Tenant}
use servicer.Auth.{Actor, role_platform_admin, role_tenant_admin, is_platform_admin}
use servicer.Auth.Expander.{expand, RoleSummary, new_role_expander}
use servicer.Auth.Expander.Reach.{here}
use servicer.Identity.{
  ResolvedIdentity, User, Group, RoleBinding, user, platform, tenant, Directory, first_non_empty,
  match_user, local_groups, bare_actor, binding_applies_to_actor, tenant_visible_legacy,
  resolve_actor,
}
use servicer.Identity.Grants.{holds, Reached}
use servicer.Identity.Linking.{read, Admitted, resolve_actor_iff}
use servicer.Identity.Held.{Bound, Owns, resolve_actor_grants}
use servicer.Identity.Escalation.{tenant_binding_escalates}

abbrev login : ResolvedIdentity
login = record {
  provider_name = "corp";
  provider_type = "oidc";
  subject = " u1 ";
  alt_subjects = [];
  name = "";
  email = "";
  groups = [];
}

-- The user `ann` is linked to the login, and has a role in one tenant.
abbrev ann : User
ann = record {
  name = "ann";
  display_name = "Ann";
  email = "";
  external_identities = record { provider_ref = "corp"; subject = "u1" } ∷ [];
}

abbrev binding : RoleBinding
binding = record {
  subjects = user "ann" ∷ [];
  scope = tenant;
  tenant_ref = some "acme";
  roles = "platform-admin" ∷ [];
}

abbrev ann_actor : Actor
ann_actor = record {
  name = "Ann";
  email = "";
  user_name = "ann";
  provider = "corp";
  subject = " u1 ";
  authenticated = true;
  roles = [];
  tenant_roles = ("acme", "platform-admin" ∷ []) ∷ [];
  groups = [];
}

ann_logs_in : resolve_actor (read (ann ∷ []) [] (binding ∷ []) [] []) login ≡ ok ann_actor
unfolding resolve_actor match_user local_groups bare_actor binding_applies_to_actor
    tenant_visible_legacy trim_space first_non_empty expand lookup new_role_expander
ann_logs_in = refl

resolve_actor_iff_example :
    ((a : Actor) × (resolve_actor (read (ann ∷ []) [] (binding ∷ []) [] []) login ≡ ok a)) ↔ (
      (users : List User) × (groups : List Group) × (bindings : List RoleBinding) × (tenants : List
        Tenant)
      × (roles : List RoleSummary) × (◌≡◌ {A = Directory}
          (read (ann ∷ []) [] (binding ∷ []) [] [])
          (read users groups bindings tenants roles))
      × Admitted login users)
resolve_actor_iff_example = resolve_actor_iff (read (ann ∷ []) [] (binding ∷ []) [] []) login

resolve_actor_grants_example :
    ((contains role_platform_admin ann_actor.roles ≡ true) ↔ (
      (b : RoleBinding) × Bound login (ann ∷ []) [] (binding ∷ []) b
      × (b.scope ≡ platform)
      × Reached (new_role_expander []) "platform" b.roles role_platform_admin))
    × ((holds role_platform_admin "acme" ann_actor.tenant_roles ≡ true) ↔ (
        ((b : RoleBinding) × Bound login (ann ∷ []) [] (binding ∷ []) b
          × (b.scope ≡ tenant)
          × (b.tenant_ref ≡ some "acme")
          × (◌≢◌ {A = String} "acme" "")
          × Reached (new_role_expander []) "tenant" b.roles role_platform_admin)
        ⊎ ((tn : Tenant) × Memᴰ tn []
            × (tn.name ≡ "acme")
            × (role_platform_admin ≡ role_tenant_admin)
            × Owns login (ann ∷ []) [] tn)))
resolve_actor_grants_example =
    resolve_actor_grants login (ann ∷ []) [] (binding ∷ []) [] [] ann_actor ann_logs_in "acme"
      role_platform_admin

acme≢empty : ◌≢◌ {A = String} "acme" ""
acme≢empty e = cc

admin_named : role_platform_admin ≢ ""
admin_named e = cc

ann-Bound : Bound login (ann ∷ []) [] (binding ∷ []) binding
unfolding match_user local_groups bare_actor binding_applies_to_actor trim_space first_non_empty
ann-Bound = (Memᴰ.head refl, refl)

tenant_binding_escalates_example : is_platform_admin ann_actor ≡ true
tenant_binding_escalates_example =
    tenant_binding_escalates login (ann ∷ []) [] (binding ∷ []) [] [] ann_actor ann_logs_in binding
      "acme" ann-Bound refl refl acme≢empty (role_platform_admin, Memᴰ.head refl, here admin_named)
