-- ===== src/Provision.antt =====
-- internal/controllers/serviceinstance_controller.go: the resources that the reconciler of service
-- instances reads, the status that it writes, and its handlers. Texts of messages are left out.
pub mod Gates
use servicer.Prelude.{
  ℕ, String, Bool, true, false, List, [], ◌∷◌, Option, none, some, leb, trim_space, ◌==◌, ◌&&◌, not,
  if◌then◌else◌, Fallible, ok, err,
}
use servicer.Api.{Lookup, found, not_found, failed}
use servicer.Api as Api
use servicer.Action.{Condition}
use servicer.Policy.Constraints.{ServicePlan}
use servicer.Quota.{QuotaProject, QuotaInstance}
use servicer.Packages.{ClusterTarget}
use servicer.Packages as Packages

pub record InstanceStatus : Type 0 where
  pub observed_generation : ℕ
  pub phase : String
  pub placement_cluster : String
  pub placement_namespace : String
  pub conditions : List Condition

-- `resource`, `quota`, `packages` and `policy` are what the checks of the other files read.
pub record InstanceState : Type 0 where
  pub resource : Api.ServiceInstance
  pub quota : QuotaInstance
  pub generation : ℕ
  pub status : InstanceStatus

pub record TenantState : Type 0 where
  pub resource : Api.Tenant
  pub allowed_service_classes : List String

pub record ProjectState : Type 0 where
  pub resource : Api.Project
  pub quota : QuotaProject
  pub generation : ℕ
  pub observed_generation : ℕ
  pub conditions : List Condition
  pub placement_cluster : String

pub record ClassState : Type 0 where
  pub name : String
  pub driver : String
  pub packages : Packages.ServiceClass
  pub generation : ℕ
  pub observed_generation : ℕ
  pub conditions : List Condition
  pub published : Bool

pub record PlanState : Type 0 where
  pub service_class_ref : String
  pub policy : ServicePlan
  pub generation : ℕ
  pub observed_generation : ℕ
  pub conditions : List Condition
  pub published : Bool

-- `ServiceContext`, without the instance.
pub record ServiceContext : Type 0 where
  pub tenant : TenantState
  pub project : ProjectState
  pub class : ClassState
  pub plan : PlanState
  pub cluster_target : Option ClusterTarget

-- What the later steps use of a `RenderResult`.
pub record RenderResult : Type 0 where
  pub package_path : String
  pub artifacts : List String

-- `none` is an error of the adapter, and `false` a validation that fails.
pub record ServiceAdapter : Type 0 where
  pub validate : InstanceState → ServiceContext → Option Bool
  pub render : InstanceState → ServiceContext → Option RenderResult

pub record Publisher : Type 0 where
  pub enabled : Bool
  pub auto_commit : Bool
  pub auto_push : Bool

-- `apimeta.SetStatusCondition`, whose first argument is the list that it changes, and
-- `apimeta.IsStatusConditionTrue`.
pub record Conditions : Type 0 where
  pub set : List Condition → Condition → List Condition
  pub is_true : List Condition → String → Bool

-- How a reconciliation ends before the artifacts are delivered: `persistStatusIfChanged` of a status,
-- with the seconds after which the request comes back; or the error of a call.
pub data Ending : Type 0 where
  ended : (status : InstanceStatus) (requeue_after : Option ℕ) → Ending
  call_failed : Ending

unfoldable pub is_status_current : ℕ → ℕ → Bool
is_status_current generation observed_generation = leb generation observed_generation

unfoldable pub resolved_cluster_name : ProjectState → String
resolved_cluster_name p =
    if not (p.placement_cluster == "")
    then p.placement_cluster
    else elim p.resource.cluster_ref [ some name ↦ name | none ↦ "" ]

unfoldable pub first_non_empty_trimmed : List String → String
first_non_empty_trimmed [] = ""
first_non_empty_trimmed (value ∷ values) =
    if not (trim_space value == "") then trim_space value else first_non_empty_trimmed values

unfoldable pub production_delivery_required : Bool → RenderResult → Bool
production_delivery_required production_mode result =
    production_mode && elim result.artifacts [ [] ↦ false | artifact ∷ artifacts ↦ true ]

unfoldable pub delivery_publishing_configured : String → Option Publisher → Bool
delivery_publishing_configured delivery_repo_url none = false
delivery_publishing_configured delivery_repo_url (some p) =
    not (trim_space delivery_repo_url == "") && p.enabled && p.auto_commit && p.auto_push

-- A run of `setStatusCondition` calls with one reason.
set_conditions : Conditions → String → List (String × Bool) → List Condition → List Condition
set_conditions kit reason [] conditions = conditions
set_conditions kit reason (entry ∷ entries) conditions =
    set_conditions kit reason entries
      (kit.set conditions (record { kind = entry.0; status = entry.1; reason = reason }))

module _ (kit : Conditions) (s : InstanceStatus) where
  -- A new phase, and the conditions in the order in which they are set.
  unfoldable pub with_phase : String → String → List (String × Bool) → InstanceStatus
  unfolding set_conditions
  with_phase phase reason entries = record s {
    phase = phase;
    conditions = set_conditions kit reason entries s.conditions;
  }

  unfoldable pub handle_dependency_error {ℓ} : {A : Type ℓ} → String → Lookup A → Fallible Ending A
  handle_dependency_error reason (found a) = ok a
  handle_dependency_error reason failed = err call_failed
  handle_dependency_error reason not_found =
      err
        (ended (with_phase "Failed" reason (("Accepted", false) ∷ ("Failed", true) ∷ [])) (some 30))

  unfoldable pub handle_dependency_pending : String → Ending
  handle_dependency_pending reason =
      ended
        (with_phase "PendingDependencies" reason
          (("Accepted", false) ∷ ("Ready", false) ∷ ("Failed", false) ∷ []))
        (some 30)

  unfoldable pub handle_validation_failure : String → Ending
  handle_validation_failure reason =
      ended
        (with_phase "Failed" reason (
          ("Accepted", false)
          ∷ ("Ready", false)
          ∷ ("Materialized", false)
          ∷ ("Synced", false)
          ∷ ("Failed", true)
          ∷ []))
        (some 30)

  -- A cluster that lacks what the instance needs.
  unfoldable pub wait_for_dependency : String → Ending
  wait_for_dependency reason =
      ended
        (with_phase "PendingDependencies" reason
          (("Materialized", false) ∷ ("Synced", false) ∷ ("Ready", false) ∷ ("Failed", false) ∷ []))
        (some 30)

  -- A service class without an adapter, or an instance that its adapter refuses.
  unfoldable pub refuse_instance : String → Ending
  refuse_instance reason =
      ended
        (with_phase "Failed" reason (
          ("Accepted", false)
          ∷ ("Materialized", false)
          ∷ ("Synced", false)
          ∷ ("Ready", false)
          ∷ ("Failed", true)
          ∷ []))
        none

  unfoldable pub fail_rendering : Ending
  fail_rendering =
      ended (with_phase "Failed" "RenderFailed" (("Materialized", false) ∷ ("Failed", true) ∷ []))
        none

  unfoldable pub mark_delivery_repo_required : String → InstanceStatus
  mark_delivery_repo_required reason = with_phase "Degraded" reason (
      ("Materialized", false)
      ∷ ("Synced", false)
      ∷ ("Ready", false)
      ∷ ("Degraded", true)
      ∷ ("Failed", false)
      ∷ [])
