-- ===== src/Webhook/Access.antt =====
-- api/v1alpha1/webhook_validation.go: the kinds `AuthProvider`, `User`, `Group` and `RoleBinding`.
use servicer.Prelude.{
  is_empty, is_blank, is_given, String, Bool, ◌&&◌, not, List, [], ◌∷◌, ◌++◌, Option, none, some,
  ◌==◌, Fallible, if◌then◌else◌,
}
use servicer.Webhook.Problems.{
  named, FieldPath, required, invalid, not_supported, forbidden, Problems, append_if, each, admit,
  spec_path, entry_child,
}
use servicer.Webhook.Checks.{
  NamespacedObjectReference, validate_local_ref, validate_namespaced_ref,
  validate_immutable_local_ref,
}

pub record OidcAuthProviderSpec : Type 0 where
  pub issuer_url : String
  pub client_id : String
  pub client_secret_ref : NamespacedObjectReference

pub record LdapAuthProviderSpec : Type 0 where
  pub url : String
  pub bind_secret_ref : NamespacedObjectReference
  pub user_base_dn : String
  pub user_filter : String

pub record AuthProviderSpec : Type 0 where
  pub display_name : String
  pub type_name : String
  pub enabled : Bool
  pub default : Bool
  pub oidc : Option OidcAuthProviderSpec
  pub ldap : Option LdapAuthProviderSpec

abbrev spec_field : String → String → FieldPath
spec_field outer inner = named "spec" ∷ named outer ∷ named inner ∷ []

-- The case `oidc` of the switch on the type.
validate_oidc : Option OidcAuthProviderSpec → Option LdapAuthProviderSpec → Problems
validate_oidc none ldap = required (spec_path "oidc") ∷ []
validate_oidc (some oidc) ldap =
    append_if (is_given ldap) (forbidden (spec_path "ldap"))
    ++ append_if (is_blank oidc.issuer_url) (required (spec_field "oidc" "issuerUrl"))
    ++ append_if (is_blank oidc.client_id) (required (spec_field "oidc" "clientId"))
    ++ validate_namespaced_ref oidc.client_secret_ref (spec_field "oidc" "clientSecretRef")

-- The case `ldap`.
validate_ldap : Option LdapAuthProviderSpec → Option OidcAuthProviderSpec → Problems
validate_ldap none oidc = required (spec_path "ldap") ∷ []
validate_ldap (some ldap) oidc =
    append_if (is_given oidc) (forbidden (spec_path "oidc"))
    ++ append_if (is_blank ldap.url) (required (spec_field "ldap" "url"))
    ++ validate_namespaced_ref ldap.bind_secret_ref (spec_field "ldap" "bindSecretRef")
    ++ append_if (is_blank ldap.user_base_dn) (required (spec_field "ldap" "userBaseDn"))
    ++ append_if (is_blank ldap.user_filter) (required (spec_field "ldap" "userFilter"))

unfoldable pub validate_auth_provider_spec : AuthProviderSpec → Problems
unfolding validate_oidc validate_ldap
validate_auth_provider_spec spec =
    append_if (is_blank spec.display_name) (required (spec_path "displayName"))
    ++ append_if (spec.default && not spec.enabled) (forbidden (spec_path "default"))
    ++ (if spec.type_name == "local"
        then append_if (is_given spec.oidc) (forbidden (spec_path "oidc"))
          ++ append_if (is_given spec.ldap) (forbidden (spec_path "ldap"))
        else if spec.type_name == "oidc"
        then validate_oidc spec.oidc spec.ldap
        else if spec.type_name == "ldap"
        then validate_ldap spec.ldap spec.oidc
        else not_supported (spec_path "type") ∷ [])

unfoldable pub validate_auth_provider_update :
    AuthProviderSpec → AuthProviderSpec → Fallible Problems (Unit {0})
validate_auth_provider_update previous current = admit (
    validate_auth_provider_spec current
    ++ append_if (not (previous.type_name == current.type_name)) (invalid (spec_path "type")))

pub record LocalAuthSpec : Type 0 where
  pub enabled : Bool
  pub password_hash_secret_ref : NamespacedObjectReference

pub record ExternalIdentitySpec : Type 0 where
  pub provider_ref : String
  pub subject : String

pub record UserSpec : Type 0 where
  pub local_auth : Option LocalAuthSpec
  pub external_identities : List ExternalIdentitySpec

validate_local_auth : Option LocalAuthSpec → Problems
validate_local_auth none = []
validate_local_auth (some auth) =
    append_if (not auth.enabled) (forbidden (spec_field "localAuth" "enabled"))
    ++ validate_namespaced_ref auth.password_hash_secret_ref
        (spec_field "localAuth" "passwordHashSecretRef")

unfoldable pub validate_user_spec : UserSpec → Problems
unfolding validate_local_auth
validate_user_spec spec =
    append_if (not (is_given spec.local_auth) && is_empty spec.external_identities)
      (required (named "spec" ∷ []))
    ++ validate_local_auth spec.local_auth
    ++ each
        (λ i (identity : ExternalIdentitySpec).
          validate_local_ref identity.provider_ref
            (entry_child (spec_path "externalIdentities") i "providerRef")
          ++ append_if (is_blank identity.subject)
              (required (entry_child (spec_path "externalIdentities") i "subject")))
        0 spec.external_identities

unfoldable pub validate_user_update : UserSpec → UserSpec → Fallible Problems (Unit {0})
validate_user_update previous current = admit (validate_user_spec current)

-- A member is the name of a user, an external group its provider and its name.
pub record GroupSpec : Type 0 where
  pub members : List String
  pub external_groups : List (String × String)

unfoldable pub validate_group_spec : GroupSpec → Problems
validate_group_spec spec =
    append_if (is_empty spec.members && is_empty spec.external_groups)
      (required (named "spec" ∷ []))
    ++ each (λ i member. validate_local_ref member (entry_child (spec_path "members") i "userRef"))
        0 spec.members
    ++ each
        (λ i (external : String × String).
          validate_local_ref external.0 (entry_child (spec_path "externalGroups") i "providerRef")
          ++ append_if (is_blank external.1)
              (required (entry_child (spec_path "externalGroups") i "name")))
        0 spec.external_groups

-- A subject is its name.
pub record RoleBindingSpec : Type 0 where
  pub scope : String
  pub tenant_ref : Option String
  pub subjects : List String
  pub roles : List String

validate_scope : String → Option String → Problems
validate_scope scope tenant_ref =
    if scope == "platform"
    then append_if (is_given tenant_ref) (forbidden (spec_path "tenantRef"))
    else if scope == "tenant"
    then elim tenant_ref [
      | none ↦ required (spec_path "tenantRef") ∷ []
      | some name ↦ validate_local_ref name (spec_path "tenantRef")
    ]
    else not_supported (spec_path "scope") ∷ []

unfoldable pub validate_role_binding_spec : RoleBindingSpec → Problems
unfolding validate_scope
validate_role_binding_spec spec =
    append_if (is_empty spec.subjects) (required (spec_path "subjects"))
    ++ append_if (is_empty spec.roles) (required (spec_path "roles"))
    ++ each
        (λ i name.
          append_if (is_blank name) (required (entry_child (spec_path "subjects") i "name")))
        0 spec.subjects
    ++ validate_scope spec.scope spec.tenant_ref

-- The switch on the two tenants.
unfoldable pub validate_immutable_tenant : Option String → Option String → Problems
validate_immutable_tenant none none = []
validate_immutable_tenant none (some current) = invalid (spec_path "tenantRef") ∷ []
validate_immutable_tenant (some previous) none = invalid (spec_path "tenantRef") ∷ []
validate_immutable_tenant (some previous) (some current) =
    validate_immutable_local_ref previous current (spec_path "tenantRef")

unfoldable pub validate_role_binding_update :
    RoleBindingSpec → RoleBindingSpec → Fallible Problems (Unit {0})
unfolding validate_immutable_tenant
validate_role_binding_update previous current = admit (
    validate_role_binding_spec current
    ++ append_if (not (previous.scope == current.scope)) (invalid (spec_path "scope"))
    ++ validate_immutable_tenant previous.tenant_ref current.tenant_ref)
