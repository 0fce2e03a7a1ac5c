-- ===== src/Identity.antt =====
-- internal/bff/authenticator.go, `resolveActor`: from what an identity provider says of a login to the
-- actor with its groups and roles. A `map[string]struct{}` is a list of its keys, which may repeat
-- one. The lists of the cluster's API are read first; the roles are those of `authRolesFromClient`.
pub mod Grants
pub mod Held
pub mod Linking
pub mod Escalation
use servicer.Prelude.{
  String, Bool, true, false, ◌&&◌, ◌||◌, not, List, [], ◌∷◌, ◌++◌, Option, none, some, ◌==◌, any,
  keep, map, contains, trim_space, Fallible, ok, err, ◌>>=◌, ◌>>◌, check, if◌then◌else◌,
}
use servicer.Api.{Tenant}
use servicer.Auth.{Actor, role_tenant_admin}
use servicer.Auth.Expander.{RoleSummary, Index, new_role_expander, expand}

pub record ResolvedIdentity : Type 0 where
  pub provider_name : String
  pub provider_type : String
  pub subject : String
  pub alt_subjects : List String
  pub name : String
  pub email : String
  pub groups : List String

-- A user's identity, or a group, at a provider.
pub record External : Type 0 where
  pub provider_ref : String
  pub subject : String

pub record User : Type 0 where
  pub name : String
  pub display_name : String
  pub email : String
  pub external_identities : List External

pub record Group : Type 0 where
  pub name : String
  pub members : List String
  pub external_groups : List External

-- The CRD admits no other kind, and no other scope.
pub data Subject : Type 0 where
  user group : String → Subject

pub data AccessScope : Type 0 where
  platform tenant : AccessScope

pub record RoleBinding : Type 0 where
  pub subjects : List Subject
  pub scope : AccessScope
  pub tenant_ref : Option String
  pub roles : List String

-- `none` is a list that could not be read.
pub record Directory : Type 0 where
  pub users : Option (List User)
  pub groups : Option (List Group)
  pub bindings : Option (List RoleBinding)
  pub tenants : Option (List Tenant)
  pub roles : Option (List RoleSummary)

pub data IdentityError : Type 0 where
  unread not_linked : IdentityError

abbrev pub provider_local : String
provider_local = "local"

unfoldable pub first_non_empty : List String → String
first_non_empty [] = ""
first_non_empty (value ∷ values) =
    if not (trim_space value == "") then value else first_non_empty values

-- A set of names without those that are blank.
pub trimmed_names : List String → List String
trimmed_names names = keep (λ name. not (name == "")) (map trim_space names)

-- The two tests of the loop of `matchUser`.
pub is_linked : ResolvedIdentity → List String → User → Bool
is_linked identity subjects u =
    (identity.provider_type == provider_local && u.name == identity.subject)
    || any
        (λ (e : External). e.provider_ref == identity.provider_name && contains e.subject subjects)
        u.external_identities

-- A loop that returns the first hit.
pub find_user : (User → Bool) → List User → Option User
find_user test [] = none
find_user test (u ∷ users) = if test u then some u else find_user test users

unfoldable pub match_user : List User → ResolvedIdentity → Option User
unfolding trimmed_names is_linked find_user
match_user users identity =
    find_user (is_linked identity (trimmed_names (identity.subject ∷ identity.alt_subjects))) users

has_member : Option User → List String → Bool
has_member none members = false
has_member (some u) members = contains u.name members

unfoldable pub is_local_group : ResolvedIdentity → Option User → Group → Bool
unfolding trimmed_names has_member
is_local_group identity matched g =
    has_member matched g.members
    || any
        (λ (e : External).
          e.provider_ref == identity.provider_name
          && contains e.subject (trimmed_names identity.groups))
        g.external_groups

unfoldable pub local_groups : ResolvedIdentity → Option User → List Group → List String
local_groups identity matched groups =
    map (λ (g : Group). g.name) (keep (is_local_group identity matched) groups)

-- The names that the linked user gives in place of the provider's.
described_by : Option User → Actor → Actor
described_by none a = a
described_by (some u) a = record a {
  user_name = u.name;
  name = first_non_empty (trim_space u.display_name ∷ a.name ∷ u.name ∷ []);
  email = first_non_empty (trim_space u.email ∷ a.email ∷ []);
}

-- The actor before any role is granted.
unfoldable pub bare_actor : ResolvedIdentity → Option User → List String → Actor
unfolding described_by trimmed_names
bare_actor identity matched local = described_by matched (record {
  name = first_non_empty (identity.name ∷ identity.subject ∷ []);
  email = identity.email;
  user_name = first_non_empty (identity.subject ∷ identity.name ∷ []);
  provider = identity.provider_name;
  subject = identity.subject;
  authenticated = true;
  roles = [];
  tenant_roles = [];
  groups = local ++ trimmed_names identity.groups;
})

is_user : Option User → String → Bool
is_user none name = false
is_user (some u) name = name == u.name

subject_matches : Actor → Option User → List String → Subject → Bool
unfolding is_user
subject_matches a matched local (user name) =
    is_user matched name || name == a.subject || name == a.email
subject_matches a matched local (group name) = contains name local

unfoldable pub binding_applies_to_actor : RoleBinding → Actor → Option User → List String → Bool
unfolding subject_matches
binding_applies_to_actor binding a matched local =
    any (subject_matches a matched local) binding.subjects

unfoldable pub tenant_visible_legacy : Actor → Option User → Tenant → Bool
unfolding is_user
tenant_visible_legacy a matched t =
    any
      (λ owner.
        is_user matched owner || owner == a.email || owner == a.subject || owner == a.user_name)
      t.owner_users
    || any (λ g. contains g a.groups) t.owner_groups

-- The walk of `expand` never runs out of its fuel.
pub expanded : Index → String → String → List String
expanded index scope role = elim (expand index role scope) [ none ↦ [] | some names ↦ names ]

pub expanded_all : Index → String → List String → List String
unfolding expanded
expanded_all index scope [] = []
expanded_all index scope (role ∷ roles) =
    expanded index scope role ++ expanded_all index scope roles

-- The set of a tenant, made where there is none, with more roles.
pub grant : String → List String → List (String × List String) → List (String × List String)
grant name more [] = (name, more) ∷ []
grant name more (entry ∷ entries) =
    if entry.0 == name then (name, entry.1 ++ more) ∷ entries else entry ∷ grant name more entries

-- The switch on the scope.
pub give : Index → List String → AccessScope → Option String → Actor → Actor
unfolding expanded_all grant
give index names platform tenant_ref a = record a {
  roles = a.roles ++ expanded_all index "platform" names;
}
give index names tenant none a = a
give index names tenant (some name) a =
    if name == ""
    then a
    else record a { tenant_roles = grant name (expanded_all index "tenant" names) a.tenant_roles }

pub apply_binding : Index → RoleBinding → Actor → Actor
unfolding give
apply_binding index binding a = give index binding.roles binding.scope binding.tenant_ref a

-- The loop over the bindings. Its test reads nothing that the loop changes.
pub apply_bindings : Index → (RoleBinding → Bool) → List RoleBinding → Actor → Actor
unfolding apply_binding
apply_bindings index applies [] a = a
apply_bindings index applies (binding ∷ bindings) a =
    apply_bindings index applies bindings
      (if applies binding then apply_binding index binding a else a)

-- The loop over the tenants: owners are administrators.
pub apply_tenants : (Tenant → Bool) → List Tenant → Actor → Actor
unfolding grant
apply_tenants visible [] a = a
apply_tenants visible (t ∷ tenants) a = apply_tenants visible tenants (
    if visible t
    then record a { tenant_roles = grant t.name (role_tenant_admin ∷ []) a.tenant_roles }
    else a)

or_unread : {A : Type 0} → Option A → Fallible IdentityError A
or_unread none = err unread
or_unread (some a) = ok a

is_some : Option User → Bool
is_some none = false
is_some (some u) = true

-- Both loops, from the bare actor on.
pub granted_actor :
    Index → ResolvedIdentity → Option User → List String → List RoleBinding → List Tenant → Actor
unfolding apply_bindings apply_tenants
granted_actor index identity matched local bindings tenants =
    let a = bare_actor identity matched local in
    apply_tenants (λ t. tenant_visible_legacy a matched t) tenants
      (apply_bindings index (λ b. binding_applies_to_actor b a matched local) bindings a)

unfoldable pub resolve_actor : Directory → ResolvedIdentity → Fallible IdentityError Actor
unfolding granted_actor or_unread is_some
resolve_actor directory identity = do
  users ← or_unread directory.users
  groups ← or_unread directory.groups
  bindings ← or_unread directory.bindings
  tenants ← or_unread directory.tenants
  roles ← or_unread directory.roles
  let matched = match_user users identity
  check (identity.provider_type == provider_local || is_some matched) not_linked
  ok (
      granted_actor (new_role_expander roles) identity matched
        (local_groups identity matched groups) bindings tenants)
