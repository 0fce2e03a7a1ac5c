-- ===== src/Webhook/Instances.antt =====
-- api/v1alpha1/webhook_validation.go: the kinds `ActionRequest`, `ServiceInstance`, `ServiceBinding`
-- and `VirtualMachineClaim`.
use servicer.Prelude.{
  is_blank, String, ◌&&◌, not, List, [], ◌∷◌, ◌++◌, Option, ◌==◌, contains, Fallible, if◌then◌else◌,
}
use servicer.Action.{TypedObjectReference}
use servicer.Webhook.Problems.{
  named, FieldPath, required, invalid, not_supported, Problems, Environment, append_if, admit,
  spec_path,
}
use servicer.Webhook.Checks.{
  SecretPolicy, validate_local_ref, validate_typed_ref, validate_immutable_local_ref,
  validate_immutable_string, validate_immutable_typed_ref, validate_exposure,
  validate_secret_policy, validate_deletion_policy, validate_json_map, default_exposure,
  default_secret_policy, default_deletion, or_default,
}

abbrev spec_field : String → String → FieldPath
spec_field outer inner = named "spec" ∷ named outer ∷ named inner ∷ []

pub record RequestSpec : Type 0 where
  pub target_ref : TypedObjectReference
  pub action : String
  pub idempotency_key : String
  pub approval_mode : String
  pub requested_by_subject : String
  pub requested_by_source : String

abbrev pub approval_modes : List String
approval_modes = "auto" ∷ "required" ∷ "approved" ∷ "rejected" ∷ []

abbrev pub request_sources : List String
request_sources = "ui" ∷ "api" ∷ "automation" ∷ []

-- A value that is required, and is one of a list.
pub validate_choice : String → List String → FieldPath → Problems
validate_choice value choices path =
    if value == ""
    then required path ∷ []
    else append_if (not (contains value choices)) (not_supported path)

unfoldable pub validate_action_request_spec : RequestSpec → Problems
unfolding validate_choice
validate_action_request_spec spec =
    validate_typed_ref spec.target_ref (spec_path "targetRef")
    ++ append_if (is_blank spec.action) (required (spec_path "action"))
    ++ append_if (is_blank spec.idempotency_key) (required (spec_path "idempotencyKey"))
    ++ validate_choice spec.approval_mode approval_modes (spec_field "approval" "mode")
    ++ append_if (is_blank spec.requested_by_subject)
        (required (spec_field "requestedBy" "subject"))
    ++ validate_choice spec.requested_by_source request_sources (spec_field "requestedBy" "source")

unfoldable pub validate_action_request_update :
    RequestSpec → RequestSpec → Fallible Problems (Unit {0})
validate_action_request_update previous current = admit (
    validate_action_request_spec current
    ++ validate_immutable_typed_ref previous.target_ref current.target_ref (spec_path "targetRef")
    ++ validate_immutable_string previous.action current.action (spec_path "action")
    ++ validate_immutable_string previous.idempotency_key current.idempotency_key
        (spec_path "idempotencyKey"))

unfoldable pub default_action_request : RequestSpec → RequestSpec
default_action_request spec = record spec {
  approval_mode = or_default spec.approval_mode "auto";
  requested_by_source = or_default spec.requested_by_source "api";
}

pub record ServiceInstanceSpec : Type 0 where
  pub project_ref : String
  pub service_class_ref : String
  pub service_plan_ref : String
  pub exposure_mode : String
  pub secret_policy : SecretPolicy
  pub deletion_policy : String
  pub parameters : Option String

unfoldable pub validate_service_instance_spec : Environment → ServiceInstanceSpec → Problems
validate_service_instance_spec env spec =
    validate_local_ref spec.project_ref (spec_path "projectRef")
    ++ validate_local_ref spec.service_class_ref (spec_path "serviceClassRef")
    ++ validate_local_ref spec.service_plan_ref (spec_path "servicePlanRef")
    ++ validate_exposure spec.exposure_mode (spec_path "exposure")
    ++ validate_secret_policy spec.secret_policy (spec_path "secretPolicy")
    ++ validate_deletion_policy spec.deletion_policy (spec_path "deletionPolicy")
    ++ validate_json_map env spec.parameters (spec_path "parameters")

unfoldable pub validate_service_instance_update :
    Environment → ServiceInstanceSpec → ServiceInstanceSpec → Fallible Problems (Unit {0})
validate_service_instance_update env previous current = admit (
    validate_service_instance_spec env current
    ++ validate_immutable_local_ref previous.project_ref current.project_ref
        (spec_path "projectRef")
    ++ validate_immutable_local_ref previous.service_class_ref current.service_class_ref
        (spec_path "serviceClassRef")
    ++ validate_immutable_local_ref previous.service_plan_ref current.service_plan_ref
        (spec_path "servicePlanRef"))

unfoldable pub default_service_instance : ServiceInstanceSpec → ServiceInstanceSpec
default_service_instance spec = record spec {
  exposure_mode = default_exposure spec.exposure_mode;
  secret_policy = default_secret_policy spec.secret_policy;
  deletion_policy = default_deletion spec.deletion_policy;
}

pub record ServiceBindingSpec : Type 0 where
  pub project_ref : String
  pub source_ref : TypedObjectReference
  pub target_ref : TypedObjectReference
  pub secret_policy : SecretPolicy

abbrev pub allowed_target_kinds : List String
allowed_target_kinds =
    "Namespace" ∷ "Deployment" ∷ "StatefulSet" ∷ "DaemonSet" ∷ "Job" ∷ "CronJob" ∷ "Pod" ∷ []

unfoldable pub validate_service_binding_spec : ServiceBindingSpec → Problems
validate_service_binding_spec spec =
    validate_local_ref spec.project_ref (spec_path "projectRef")
    ++ validate_secret_policy spec.secret_policy (spec_path "secretPolicy")
    ++ validate_typed_ref spec.source_ref (spec_path "sourceRef")
    ++ validate_typed_ref spec.target_ref (spec_path "targetRef")
    ++ append_if (not (spec.source_ref.kind == "ServiceInstance"))
        (not_supported (spec_field "sourceRef" "kind"))
    ++ append_if
        (not (spec.source_ref.api_version == "")
          && not (spec.source_ref.api_version == "platform.servicer.io/v1alpha1"))
        (invalid (spec_field "sourceRef" "apiVersion"))
    ++ append_if (spec.target_ref.namespace == "" && spec.target_ref.name == "")
        (required (spec_path "targetRef"))
    ++ append_if
        (not (spec.target_ref.kind == "")
          && not (contains spec.target_ref.kind allowed_target_kinds))
        (not_supported (spec_field "targetRef" "kind"))
    ++ append_if
        (not (spec.target_ref.kind == "")
          && not (spec.target_ref.kind == "Namespace")
          && is_blank spec.target_ref.name)
        (required (spec_field "targetRef" "name"))

unfoldable pub validate_service_binding_update :
    ServiceBindingSpec → ServiceBindingSpec → Fallible Problems (Unit {0})
validate_service_binding_update previous current = admit (
    validate_service_binding_spec current
    ++ validate_immutable_local_ref previous.project_ref current.project_ref
        (spec_path "projectRef")
    ++ validate_immutable_typed_ref previous.source_ref current.source_ref (spec_path "sourceRef")
    ++ validate_immutable_typed_ref previous.target_ref current.target_ref (spec_path "targetRef"))

unfoldable pub default_service_binding : ServiceBindingSpec → ServiceBindingSpec
default_service_binding spec = record spec {
  secret_policy = default_secret_policy spec.secret_policy;
}

pub record VirtualMachineClaimSpec : Type 0 where
  pub project_ref : String
  pub class : String
  pub image : String
  pub power_state : String
  pub exposure_mode : String
  pub secret_policy : SecretPolicy
  pub deletion_policy : String

unfoldable pub validate_virtual_machine_claim_spec : VirtualMachineClaimSpec → Problems
validate_virtual_machine_claim_spec spec =
    validate_local_ref spec.project_ref (spec_path "projectRef")
    ++ validate_exposure spec.exposure_mode (spec_path "exposure")
    ++ validate_secret_policy spec.secret_policy (spec_path "secretPolicy")
    ++ validate_deletion_policy spec.deletion_policy (spec_path "deletionPolicy")
    ++ append_if (spec.class == "") (required (spec_path "class"))
    ++ append_if (spec.image == "") (required (spec_path "image"))
    ++ append_if
        (not (spec.power_state == "")
          && not (spec.power_state == "running")
          && not (spec.power_state == "stopped"))
        (not_supported (spec_path "powerState"))

unfoldable pub validate_virtual_machine_claim_update :
    VirtualMachineClaimSpec → VirtualMachineClaimSpec → Fallible Problems (Unit {0})
validate_virtual_machine_claim_update previous current = admit (
    validate_virtual_machine_claim_spec current
    ++ validate_immutable_local_ref previous.project_ref current.project_ref
        (spec_path "projectRef")
    ++ validate_immutable_string previous.class current.class (spec_path "class")
    ++ validate_immutable_string previous.image current.image (spec_path "image"))

unfoldable pub default_virtual_machine_claim : VirtualMachineClaimSpec → VirtualMachineClaimSpec
default_virtual_machine_claim spec = record spec {
  exposure_mode = default_exposure spec.exposure_mode;
  secret_policy = default_secret_policy spec.secret_policy;
  deletion_policy = default_deletion spec.deletion_policy;
  power_state = or_default spec.power_state "running";
}
