-- ===== src/Webhook/Admission.antt =====
-- api/v1alpha1/webhook_validation.go: the webhooks of the sixteen kinds, `Default`, `ValidateCreate` and
-- `ValidateUpdate`. An object of another type than the webhook's does not reach it.
pub mod Immutable
pub mod Updates
pub mod Defaults
pub mod History
use servicer.Prelude.{Fallible}
use servicer.Webhook.Problems.{Problems, Environment, admit}
use servicer.Webhook.Access.{
  AuthProviderSpec, UserSpec, GroupSpec, RoleBindingSpec, validate_auth_provider_spec,
  validate_auth_provider_update, validate_user_spec, validate_user_update, validate_group_spec,
  validate_role_binding_spec, validate_role_binding_update,
}
use servicer.Webhook.Catalog.{
  ServiceClassSpec, ServicePlanSpec, ClusterTargetSpec, OperatorPackageSpec,
  validate_service_class_spec, validate_service_class_update, validate_service_plan_spec,
  validate_service_plan_update, validate_cluster_target_spec, validate_cluster_target_update,
  validate_operator_package_spec, validate_operator_package_update, default_operator_package,
}
use servicer.Webhook.Tenants.{
  TenantSpec, ProjectSpec, NamespaceClaimSpec, validate_tenant_spec, validate_tenant_update,
  default_tenant, validate_project_spec, validate_project_update, default_project,
  validate_namespace_claim, validate_namespace_claim_update, default_namespace_claim,
}
use servicer.Webhook.Instances.{
  RequestSpec, ServiceInstanceSpec, ServiceBindingSpec, VirtualMachineClaimSpec,
  validate_action_request_spec, validate_action_request_update, default_action_request,
  validate_service_instance_spec, validate_service_instance_update, default_service_instance,
  validate_service_binding_spec, validate_service_binding_update, default_service_binding,
  validate_virtual_machine_claim_spec, validate_virtual_machine_claim_update,
  default_virtual_machine_claim,
}
use servicer.Webhook.Policies.{PolicySpec, policy_problems}

pub data Kind : Type 0 where
  action_request cluster_target operator_package policy project auth_provider user group : Kind
  role_binding service_instance service_class service_plan tenant namespace_claim : Kind
  service_binding virtual_machine_claim : Kind

abbrev pub Spec : Kind → Type 0
Spec action_request = RequestSpec
Spec cluster_target = ClusterTargetSpec
Spec operator_package = OperatorPackageSpec
Spec policy = PolicySpec
Spec project = ProjectSpec
Spec auth_provider = AuthProviderSpec
Spec user = UserSpec
Spec group = GroupSpec
Spec role_binding = RoleBindingSpec
Spec service_instance = ServiceInstanceSpec
Spec service_class = ServiceClassSpec
Spec service_plan = ServicePlanSpec
Spec tenant = TenantSpec
Spec namespace_claim = NamespaceClaimSpec
Spec service_binding = ServiceBindingSpec
Spec virtual_machine_claim = VirtualMachineClaimSpec

-- `Default`, of the mutating webhook.
unfoldable pub default_object : (kind : Kind) → Spec kind → Spec kind
default_object action_request spec = default_action_request spec
default_object operator_package spec = default_operator_package spec
default_object project spec = default_project spec
default_object service_instance spec = default_service_instance spec
default_object tenant spec = default_tenant spec
default_object namespace_claim spec = default_namespace_claim spec
default_object service_binding spec = default_service_binding spec
default_object virtual_machine_claim spec = default_virtual_machine_claim spec
default_object _ spec = spec

module _ (env : Environment) where
  unfoldable pub validate_create : (kind : Kind) → Spec kind → Fallible Problems (Unit {0})
  validate_create action_request spec = admit (validate_action_request_spec spec)
  validate_create cluster_target spec = admit (validate_cluster_target_spec spec)
  validate_create operator_package spec = admit (validate_operator_package_spec env spec)
  validate_create policy spec = admit (policy_problems spec)
  validate_create project spec = admit (validate_project_spec env spec)
  validate_create auth_provider spec = admit (validate_auth_provider_spec spec)
  validate_create user spec = admit (validate_user_spec spec)
  validate_create group spec = admit (validate_group_spec spec)
  validate_create role_binding spec = admit (validate_role_binding_spec spec)
  validate_create service_instance spec = admit (validate_service_instance_spec env spec)
  validate_create service_class spec = admit (validate_service_class_spec env spec)
  validate_create service_plan spec = admit (validate_service_plan_spec env spec)
  validate_create tenant spec = admit (validate_tenant_spec spec)
  validate_create namespace_claim spec = validate_namespace_claim env spec
  validate_create service_binding spec = admit (validate_service_binding_spec spec)
  validate_create virtual_machine_claim spec = admit (validate_virtual_machine_claim_spec spec)

  unfoldable pub validate_update :
      (kind : Kind) → Spec kind → Spec kind → Fallible Problems (Unit {0})
  validate_update action_request previous current = validate_action_request_update previous current
  validate_update cluster_target previous current = validate_cluster_target_update previous current
  validate_update operator_package previous current =
      validate_operator_package_update env previous current
  validate_update policy previous current = admit (policy_problems current)
  validate_update project previous current = validate_project_update env previous current
  validate_update auth_provider previous current = validate_auth_provider_update previous current
  validate_update user previous current = validate_user_update previous current
  validate_update group previous current = admit (validate_group_spec current)
  validate_update role_binding previous current = validate_role_binding_update previous current
  validate_update service_instance previous current =
      validate_service_instance_update env previous current
  validate_update service_class previous current =
      validate_service_class_update env previous current
  validate_update service_plan previous current = validate_service_plan_update env previous current
  validate_update tenant previous current = validate_tenant_update previous current
  validate_update namespace_claim previous current =
      validate_namespace_claim_update env previous current
  validate_update service_binding previous current =
      validate_service_binding_update previous current
  validate_update virtual_machine_claim previous current =
      validate_virtual_machine_claim_update previous current
