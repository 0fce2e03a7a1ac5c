-- ===== src/Auth.antt =====
-- internal/bff/auth.go: who makes a request, and which roles that actor holds.
-- A `map[string]struct{}` is the list of its keys, and `TenantRoles` an association list.
pub mod Roles
pub mod Expander
use servicer.Prelude.{
  String, Bool, true, false, ◌&&◌, ◌||◌, not, List, [], ◌∷◌, Option, none, some, ◌==◌, any, keep,
  map, contains, lookup, trim_space, split, if◌then◌else◌,
}

abbrev pub role_platform_admin : String
role_platform_admin = "platform-admin"

abbrev pub role_tenant_admin : String
role_tenant_admin = "tenant-admin"

abbrev pub role_tenant_operator : String
role_tenant_operator = "tenant-operator"

abbrev pub role_service_consumer : String
role_service_consumer = "service-consumer"

pub record Actor : Type 0 where
  pub name : String
  pub email : String
  pub user_name : String
  pub provider : String
  pub subject : String
  pub authenticated : Bool
  pub roles : List String
  pub tenant_roles : List (String × List String)
  pub groups : List String

unfoldable pub tenant_role_satisfies : String → String → Bool
tenant_role_satisfies granted required =
    if granted == required
    then true
    else if granted == role_tenant_admin
    then required == role_tenant_operator || required == role_service_consumer
    else if granted == role_tenant_operator
    then required == role_service_consumer
    else false

unfoldable pub platform_role_satisfies : String → String → Bool
platform_role_satisfies granted required =
    if granted == required
    then true
    else if granted == role_platform_admin
    then true
    else tenant_role_satisfies granted required

-- The body of the loop of `hasAny`.
unfoldable pub has_role : Actor → String → Bool
has_role a role =
    any (λ granted. platform_role_satisfies granted role) a.roles
    || any (λ entry. any (λ granted. tenant_role_satisfies granted role) entry.1) a.tenant_roles

unfoldable pub has_any : Actor → List String → Bool
unfolding has_role
has_any a roles = any (λ role. has_role a role) roles

unfoldable pub is_platform_admin : Actor → Bool
is_platform_admin a = has_any a (role_platform_admin ∷ [])

unfoldable pub has_tenant_role : Actor → String → List String → Bool
has_tenant_role a tenant_name roles =
    if tenant_name == "" then false else elim (lookup tenant_name a.tenant_roles) [
      | none ↦ false
      | some granted_roles ↦
          any (λ role. any (λ granted. tenant_role_satisfies granted role) granted_roles) roles
    ]

is_nonempty : List String → Bool
is_nonempty [] = false
is_nonempty (_ ∷ _) = true

-- A missing key reads as the empty set.
unfoldable pub has_tenant_access : Actor → String → Bool
unfolding is_nonempty
has_tenant_access a tenant_name =
    if is_platform_admin a then true else elim (lookup tenant_name a.tenant_roles) [
      | none ↦ false
      | some granted ↦ is_nonempty granted
    ]

header_names : String → List String
header_names value = keep (λ name. not (name == "")) (map trim_space (split value b','))

-- `header` is `r.Header.Get`.
unfoldable pub actor_from_headers : (String → String) → Actor
unfolding header_names
actor_from_headers header =
    let given = trim_space (header "X-Servicer-User") in
    let name = if given == "" then "anonymous" else given in
    record {
      name = name;
      email = "";
      user_name = "";
      provider = "";
      subject = "";
      authenticated = not (name == "") && not (name == "anonymous");
      roles = header_names (header "X-Servicer-Roles");
      tenant_roles = [];
      groups = header_names (header "X-Servicer-Groups");
    }

-- `none` is the 403 answer.
unfoldable pub require_role : Actor → List String → Option Actor
require_role a roles = if has_any a roles then some a else none

unfoldable pub require_platform_role : Actor → List String → Option Actor
require_platform_role a roles = if any (λ role. contains role a.roles) roles then some a else none
