-- ===== src/Webhook/Admission/Updates.antt =====
-- api/v1alpha1/webhook_validation.go: which updates are let in.
use servicer.Prelude.{◌≡◌, ◌↔◌, ok}
use servicer.Webhook.Problems.{Environment}
use servicer.Webhook.Access.{
  validate_auth_provider_spec, validate_auth_provider_update, validate_user_spec,
  validate_user_update, validate_group_spec, validate_role_binding_spec,
  validate_role_binding_update,
}
use servicer.Webhook.Catalog.{
  validate_service_class_spec, validate_service_class_update, validate_service_plan_spec,
  validate_service_plan_update, validate_cluster_target_spec, validate_cluster_target_update,
  validate_operator_package_spec, validate_operator_package_update,
}
use servicer.Webhook.Tenants.{
  validate_tenant_spec, validate_tenant_update, validate_project_spec, validate_project_update,
  validate_namespace_claim, validate_namespace_claim_spec, validate_namespace_claim_update,
}
use servicer.Webhook.Instances.{
  validate_action_request_spec, validate_action_request_update, validate_service_instance_spec,
  validate_service_instance_update, validate_service_binding_spec, validate_service_binding_update,
  validate_virtual_machine_claim_spec, validate_virtual_machine_claim_update,
}
use servicer.Webhook.Policies.{policy_problems}
use servicer.Webhook.Admission.{
  Kind, action_request, cluster_target, operator_package, policy, project, auth_provider, user,
  group, role_binding, service_instance, service_class, service_plan, tenant, namespace_claim,
  service_binding, virtual_machine_claim, Spec, validate_create, validate_update,
}
use servicer.Webhook.Admission.Immutable.{
  immutable, base, let_in, compare_text, compare_name, compare_string, compare_reference,
  compare_source, compare_tenant,
}

-- An update is let in exactly when the new object would be let in as a new one, and none of the fields
-- that may not change has changed.
pub validate_update_iff :
    (env : Environment) (kind : Kind) (previous current : Spec kind)
    → (validate_update env kind previous current ≡ ok tt) ↔ (
        (validate_create env kind current ≡ ok tt)
        × (immutable kind previous ≡ immutable kind current))
unfolding validate_update validate_create validate_action_request_update
    validate_cluster_target_update validate_operator_package_update validate_project_update
    validate_auth_provider_update validate_user_update validate_role_binding_update
    validate_service_instance_update validate_service_class_update validate_service_plan_update
    validate_tenant_update validate_namespace_claim validate_namespace_claim_spec
    validate_namespace_claim_update validate_service_binding_update
    validate_virtual_machine_claim_update
validate_update_iff env action_request p c = let_in _ (
    compare_string
      (compare_string
        (compare_reference (base (validate_action_request_spec c)) p.target_ref c.target_ref _)
        p.action c.action _)
      p.idempotency_key c.idempotency_key _)
validate_update_iff env cluster_target p c = let_in _ (
    compare_text
      (compare_name (base (validate_cluster_target_spec c)) p.connection_ref.name
        c.connection_ref.name _)
      p.connection_ref.namespace c.connection_ref.namespace _)
validate_update_iff env operator_package p c =
    let_in _ (compare_source (base (validate_operator_package_spec env c)) p.source c.source)
validate_update_iff env policy p c = let_in _ (base (policy_problems c))
validate_update_iff env project p c =
    let_in _ (compare_name (base (validate_project_spec env c)) p.tenant_ref c.tenant_ref _)
validate_update_iff env auth_provider p c =
    let_in _ (compare_text (base (validate_auth_provider_spec c)) p.type_name c.type_name _)
validate_update_iff env user p c = let_in _ (base (validate_user_spec c))
validate_update_iff env group p c = let_in _ (base (validate_group_spec c))
validate_update_iff env role_binding p c = let_in _ (
    compare_tenant (compare_text (base (validate_role_binding_spec c)) p.scope c.scope _)
      p.tenant_ref c.tenant_ref)
validate_update_iff env service_instance p c = let_in _ (
    compare_name
      (compare_name
        (compare_name (base (validate_service_instance_spec env c)) p.project_ref c.project_ref _)
        p.service_class_ref c.service_class_ref _)
      p.service_plan_ref c.service_plan_ref _)
validate_update_iff env service_class p c =
    let_in _ (compare_text (base (validate_service_class_spec env c)) p.driver c.driver _)
validate_update_iff env service_plan p c = let_in _ (
    compare_name (base (validate_service_plan_spec env c)) p.service_class_ref c.service_class_ref
      _)
validate_update_iff env tenant p c =
    let_in _
      (compare_name (base (validate_tenant_spec c)) p.quota_profile_ref c.quota_profile_ref _)
validate_update_iff env namespace_claim p c =
    let_in _
      (compare_name (base (validate_namespace_claim_spec env c)) p.project_ref c.project_ref _)
validate_update_iff env service_binding p c = let_in _ (
    compare_reference
      (compare_reference
        (compare_name (base (validate_service_binding_spec c)) p.project_ref c.project_ref _)
        p.source_ref c.source_ref _)
      p.target_ref c.target_ref _)
validate_update_iff env virtual_machine_claim p c = let_in _ (
    compare_string
      (compare_string
        (compare_name (base (validate_virtual_machine_claim_spec c)) p.project_ref c.project_ref _)
        p.class c.class _)
      p.image c.image _)
