-- ===== src/Identity/Escalation.antt =====
-- internal/bff/authenticator.go with `isPlatformAdmin` of internal/bff/auth.go: what a binding to a
-- tenant can lead to.
use servicer.Prelude.{String, true, List, [], ◌∷◌, some, ◌≡◌, ◌≢◌, inl, any, contains, arith, ok}
use servicer.Api.{Tenant}
use servicer.Auth.{Actor, role_platform_admin, is_platform_admin}
use servicer.Auth.Roles.{is_platform_admin_iff}
use servicer.Auth.Expander.{RoleSummary, new_role_expander}
use servicer.Identity.{ResolvedIdentity, User, Group, RoleBinding, tenant, resolve_actor}
use servicer.Identity.Grants.{holds, Reached}
use servicer.Identity.Linking.{read}
use servicer.Identity.Held.{Bound, resolve_actor_grants}

any_of_holds :
    (r t : String) (entries : List (String × List String))
    → holds r t entries ≡ true
    → any (λ (entry : String × List String). contains r entry.1) entries ≡ true
any_of_holds r t [] h = h
any_of_holds r t (entry ∷ entries) h = ground (arith, any_of_holds r t entries)

-- A binding to one tenant makes every login that it names a platform administrator when one of its
-- roles is, or reaches among the tenant roles, one named `platform-admin`.
pub tenant_binding_escalates :
    (identity : ResolvedIdentity) (users : List User) (groups : List Group)
    → (bindings : List RoleBinding) (tenants : List Tenant) (roles : List RoleSummary) → (a : Actor)
    → resolve_actor (read users groups bindings tenants roles) identity ≡ ok a
    → (b : RoleBinding) (t : String) → Bound identity users groups bindings b
    → b.scope ≡ tenant
    → b.tenant_ref ≡ some t
    → t ≢ ""
    → Reached (new_role_expander roles) "tenant" b.roles role_platform_admin
    → is_platform_admin a ≡ true
tenant_binding_escalates identity users groups bindings tenants roles a h b t bound scope ref named
      reach =
    let (platform, held) =
      resolve_actor_grants identity users groups bindings tenants roles a h t role_platform_admin in
    let e = any_of_holds _ t a.tenant_roles (held.1 (inl (b, bound, scope, ref, named, reach))) in
    ground (arith, is_platform_admin_iff a)
