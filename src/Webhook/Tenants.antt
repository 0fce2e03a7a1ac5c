-- ===== src/Webhook/Tenants.antt =====
-- api/v1alpha1/webhook_validation.go: the kinds `Tenant`, `Project` and `NamespaceClaim`.
use servicer.Prelude.{
  is_empty, is_blank, String, ◌&&◌, List, [], ◌∷◌, ◌++◌, ◌==◌, Fallible, if◌then◌else◌,
}
use servicer.Webhook.Problems.{
  named, keyed, FieldPath, required, invalid, Problems, Environment, append_if, each, admit,
  spec_path, entry_child,
}
use servicer.Webhook.Checks.{
  validate_local_ref, validate_immutable_local_ref, validate_deletion_policy, validate_label_map,
  validate_policy_refs, validate_names, default_deletion, or_default,
}

-- A contact is its type and its value.
pub record TenantSpec : Type 0 where
  pub quota_profile_ref : String
  pub allowed_service_classes : List String
  pub owner_users : List String
  pub owner_groups : List String
  pub contacts : List (String × String)
  pub policy_refs : List String
  pub lifecycle_phase : String

unfoldable pub validate_tenant_spec : TenantSpec → Problems
validate_tenant_spec spec =
    validate_local_ref spec.quota_profile_ref (spec_path "quotaProfileRef")
    ++ append_if (is_empty spec.allowed_service_classes)
        (required (spec_path "allowedServiceClasses"))
    ++ validate_names spec.allowed_service_classes (spec_path "allowedServiceClasses")
    ++ append_if (is_empty spec.owner_users && is_empty spec.owner_groups)
        (required (spec_path "owners"))
    ++ each
        (λ i (contact : String × String).
          append_if (is_blank contact.0) (required (entry_child (spec_path "contacts") i "type"))
          ++ append_if (is_blank contact.1)
              (required (entry_child (spec_path "contacts") i "value")))
        0 spec.contacts
    ++ validate_policy_refs spec.policy_refs (spec_path "policyRefs")

unfoldable pub validate_tenant_update : TenantSpec → TenantSpec → Fallible Problems (Unit {0})
validate_tenant_update previous current = admit (
    validate_tenant_spec current
    ++ validate_immutable_local_ref previous.quota_profile_ref current.quota_profile_ref
        (spec_path "quotaProfileRef"))

unfoldable pub default_tenant : TenantSpec → TenantSpec
default_tenant spec = record spec { lifecycle_phase = or_default spec.lifecycle_phase "active" }

-- With the project's name, which is the default prefix.
pub record ProjectSpec : Type 0 where
  pub name : String
  pub tenant_ref : String
  pub namespace_mode : String
  pub namespace_prefix : String
  pub policy_refs : List String
  pub labels : List (String × String)

abbrev strategy_path : String → FieldPath
strategy_path name = named "spec" ∷ named "namespaceStrategy" ∷ named name ∷ []

unfoldable pub validate_project_spec : Environment → ProjectSpec → Problems
validate_project_spec env spec =
    validate_local_ref spec.tenant_ref (spec_path "tenantRef")
    ++ append_if (spec.namespace_mode == "") (required (strategy_path "mode"))
    ++ append_if (spec.namespace_mode == "dedicated" && is_blank spec.namespace_prefix)
        (required (strategy_path "prefix"))
    ++ validate_policy_refs spec.policy_refs (spec_path "policyRefs")
    ++ validate_label_map env spec.labels (spec_path "labels")

unfoldable pub validate_project_update :
    Environment → ProjectSpec → ProjectSpec → Fallible Problems (Unit {0})
validate_project_update env previous current = admit (
    validate_project_spec env current
    ++ validate_immutable_local_ref previous.tenant_ref current.tenant_ref (spec_path "tenantRef"))

unfoldable pub default_project : ProjectSpec → ProjectSpec
default_project spec =
    let mode = or_default spec.namespace_mode "dedicated" in
    record spec {
      namespace_mode = mode;
      namespace_prefix =
          if mode == "dedicated" && spec.namespace_prefix == ""
          then spec.name
          else spec.namespace_prefix;
    }

pub record NamespaceClaimSpec : Type 0 where
  pub project_ref : String
  pub deletion_policy : String
  pub quotas : List (String × String)
  pub labels : List (String × String)

-- The loop stops at an empty key.
pub validate_quotas : List (String × String) → Problems
validate_quotas [] = []
validate_quotas (quota ∷ quotas) =
    if quota.0 == ""
    then invalid (spec_path "quotas") ∷ []
    else append_if (quota.1 == "") (invalid (spec_path "quotas" ++ keyed quota.0 ∷ []))
      ++ validate_quotas quotas

unfoldable pub validate_namespace_claim_spec : Environment → NamespaceClaimSpec → Problems
unfolding validate_quotas
validate_namespace_claim_spec env spec =
    validate_local_ref spec.project_ref (spec_path "projectRef")
    ++ validate_deletion_policy spec.deletion_policy (spec_path "deletionPolicy")
    ++ validate_quotas spec.quotas
    ++ validate_label_map env spec.labels (spec_path "labels")

-- The validation of a new claim, which states the checks a second time.
unfoldable pub validate_namespace_claim :
    Environment → NamespaceClaimSpec → Fallible Problems (Unit {0})
unfolding validate_quotas
validate_namespace_claim env spec = admit (
    validate_local_ref spec.project_ref (spec_path "projectRef")
    ++ validate_deletion_policy spec.deletion_policy (spec_path "deletionPolicy")
    ++ validate_quotas spec.quotas
    ++ validate_label_map env spec.labels (spec_path "labels"))

unfoldable pub validate_namespace_claim_update :
    Environment → NamespaceClaimSpec → NamespaceClaimSpec → Fallible Problems (Unit {0})
validate_namespace_claim_update env previous current = admit (
    validate_namespace_claim_spec env current
    ++ validate_immutable_local_ref previous.project_ref current.project_ref
        (spec_path "projectRef"))

unfoldable pub default_namespace_claim : NamespaceClaimSpec → NamespaceClaimSpec
default_namespace_claim spec = record spec {
  deletion_policy = default_deletion spec.deletion_policy;
}
