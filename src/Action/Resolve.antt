-- ===== src/Action/Resolve.antt =====
-- internal/controllers/actionrequest_controller.go, `resolveAction`: from a request to its target,
-- the product's adapter and the action's capability. The reads of the cluster and the adapters are
-- parameters.
use servicer.Prelude.{
  String, Bool, true, false, not, List, Option, none, some, ◌==◌, equal_fold, if◌then◌else◌,
}
use servicer.Api.{
  Tenant, Project, ServiceInstance, ActionCapability, Lookup, found, not_found, failed,
}
use servicer.Action.{ActionRequestSpec, action_capability}

pub record Adapter : Type 0 where
  pub runtime_driver : String
  pub supported_actions : ServiceInstance → List ActionCapability

pub record Cluster : Type 0 where
  pub get_instance : String → Lookup ServiceInstance
  pub get_project : String → Lookup Project
  pub get_tenant : String → Lookup Tenant
  pub get_service_class : String → Lookup (Unit {0})
  pub get_service_plan : String → Lookup (Unit {0})
  pub get_cluster_target : String → Lookup (Unit {0})
  -- The registry is nil, or gives an adapter by service class.
  pub adapters : Option (String → Option Adapter)

pub record Resolved : Type 0 where
  pub instance' : ServiceInstance
  pub adapter : Adapter
  pub capability : ActionCapability

pub record ActionResolutionError : Type 0 where
  pub reason : String
  pub code : String
  pub requeue : Bool
  pub retryable : Bool

-- `broken` is any other error: the reconciler returns it.
pub data Resolution {ℓ} (A : Type ℓ) : Type ℓ where
  resolved : A → Resolution A
  refused : ActionResolutionError → Resolution A
  broken : Resolution A

infixl 5 ◌>>=◌
abbrev pub ◌>>=◌ {ℓ κ} :
    {A : Type ℓ} {B : Type κ} → Resolution A → (A → Resolution B) → Resolution B
resolved a >>= f = f a
refused e >>= f = refused e
broken >>= f = broken

abbrev pub group_version : String
group_version = "platform.servicer.io/v1alpha1"

abbrev pub unsupported : String → String → ActionResolutionError
unsupported reason code = record {
  reason = reason;
  code = code;
  requeue = false;
  retryable = false;
}

-- `wrapDependencyError`: a missing dependency is to be tried again.
abbrev pub dependency {ℓ} : {A : Type ℓ} → Lookup A → String → String → Resolution A
dependency (found a) reason code = resolved a
dependency not_found reason code =
    refused (record { reason = reason; code = code; requeue = true; retryable = true })
dependency failed reason code = broken

cluster_target : Cluster → Project → Resolution (Unit {0})
cluster_target c project = elim project.cluster_ref [
  | none ↦ resolved tt
  | some name ↦
      dependency (c.get_cluster_target name) "ClusterTargetUnavailable" "cluster-target-unavailable"
]

find_adapter : (String → Option Adapter) → String → Resolution Adapter
find_adapter adapters class_name = elim (adapters class_name) [
  | none ↦ refused (unsupported "UnsupportedServiceClass" "unsupported-service-class")
  | some adapter ↦ resolved adapter
]

find_capability : Adapter → ServiceInstance → String → Resolution ActionCapability
find_capability adapter instance' action =
    elim (action_capability (adapter.supported_actions instance') action) [
      | none ↦ refused (unsupported "UnsupportedAction" "unsupported-action")
      | some capability ↦ resolved capability
    ]

resolve_target : Cluster → (String → Option Adapter) → ActionRequestSpec → Resolution Resolved
unfolding cluster_target find_adapter find_capability
resolve_target c adapters spec = do
  item ← dependency (c.get_instance spec.target_ref.name) "TargetUnavailable" "target-unavailable"
  project ← dependency (c.get_project item.project_ref) "ProjectUnavailable" "project-unavailable"
  tenant ← dependency (c.get_tenant project.tenant_ref) "TenantUnavailable" "tenant-unavailable"
  class ←
      dependency (c.get_service_class item.service_class_ref) "ServiceClassUnavailable"
        "service-class-unavailable"
  plan ←
      dependency (c.get_service_plan item.service_plan_ref) "ServicePlanUnavailable"
        "service-plan-unavailable"
  target ← cluster_target c project
  adapter ← find_adapter adapters item.service_class_ref
  capability ← find_capability adapter item spec.action
  resolved (record { instance' = item; adapter = adapter; capability = capability })

unfoldable pub resolve_action : Cluster → ActionRequestSpec → Resolution Resolved
unfolding resolve_target
resolve_action c spec = elim c.adapters [
  | none ↦ broken
  | some adapters ↦
      if not (spec.target_ref.api_version == group_version)
      then refused (unsupported "UnsupportedTargetAPIVersion" "unsupported-target-api-version")
      else if not (equal_fold spec.target_ref.kind "ServiceInstance")
      then refused (unsupported "UnsupportedTargetKind" "unsupported-target-kind")
      else resolve_target c adapters spec
]
