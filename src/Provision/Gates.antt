-- ===== src/Provision/Gates.antt =====
-- internal/controllers/serviceinstance_controller.go, `Reconcile` of a service instance that is not
-- being deleted and has its finalizer, up to the rendered artifacts: all it checks before it
-- writes anything but a status.
pub mod Passed
pub mod Provisioned
pub mod Refused
use servicer.Prelude.{
  ℕ, String, Bool, true, false, List, [], ◌∷◌, Option, none, some, contains, ◌==◌, ◌&&◌, ◌||◌, not,
  if◌then◌else◌, Fallible, ok, err, ◌>>=◌, ◌>>◌, check,
}
use servicer.Api.{Lookup, found, not_found, failed}
use servicer.Policy.Rules.{Library}
use servicer.Policy.Constraints.{Decoders}
use servicer.Policy.Evaluator.{Policy, evaluate_instance_policies}
use servicer.Webhook.Problems.{Problems}
use servicer.Quota.{
  QuotaInstance, QuotaRefusal, service_quota_exceeded, namespace_quota_exceeded, unread,
  enforce_project_quota, resolved_namespace,
}
use servicer.Packages.{
  ClusterTarget, PlacedInstance, required_packages_for_service_instance, packages_ready,
}
use servicer.Provision.{
  InstanceStatus, InstanceState, TenantState, ProjectState, ClassState, PlanState, ServiceContext,
  RenderResult, ServiceAdapter, Publisher, Conditions, Ending, ended, call_failed,
  is_status_current, first_non_empty_trimmed, resolved_cluster_name, production_delivery_required,
  delivery_publishing_configured, with_phase, handle_dependency_error, handle_dependency_pending,
  handle_validation_failure, wait_for_dependency, refuse_instance, fail_rendering,
  mark_delivery_repo_required,
}

-- The reads of the cluster. `target_client` is `getTargetClient`, where `not_found` is no client
-- and no error; `instances` is the list for the quota; `has_crd` reads a definition on the target.
pub record Reads : Type 1 where
  pub Client : Type 0
  pub project : String → Lookup ProjectState
  pub tenant : String → Lookup TenantState
  pub class : String → Lookup ClassState
  pub plan : String → Lookup PlanState
  pub cluster_target : String → Lookup ClusterTarget
  pub policy : String → Lookup Policy
  pub instances : Option (List QuotaInstance)
  pub target_client : ClusterTarget → Lookup Client
  pub has_crd : Client → String → Lookup (Unit {0})

pub record Reconciler : Type 1 where
  pub conditions : Conditions
  pub library : Library
  pub decoders : Decoders
  pub adapters : String → Option ServiceAdapter
  pub production_mode : Bool
  pub delivery_repo_url : String
  pub publisher : Option Publisher

abbrev pub kube_virt_driver : String
kube_virt_driver = "kubevirt"

abbrev pub has_none : Problems → Bool
has_none [] = true
has_none (problem ∷ problems) = false

has_crds : (reads : Reads) → reads.Client → List String → Lookup (Unit {0})
has_crds reads c [] = found tt
has_crds reads c (name ∷ names) =
    let rest = has_crds reads c names in
    elim (reads.has_crd c name) [ found there ↦ rest | not_found ↦ not_found | failed ↦ failed ]

-- `not_found` is a cluster that is not ready.
unfoldable pub kube_virt_dependencies_ready : (reads : Reads) → reads.Client → Lookup (Unit {0})
unfolding has_crds
kube_virt_dependencies_ready reads c =
    has_crds reads c ("virtualmachines.kubevirt.io" ∷ "datavolumes.cdi.kubevirt.io" ∷ [])

-- `resolveClusterTargetForProject`, where `found none` is no target.
unfoldable pub resolve_cluster_target_for_project :
    Reads → ProjectState → String → Lookup (Option ClusterTarget)
resolve_cluster_target_for_project reads p fallback_cluster_name = of_name (
    if first_non_empty_trimmed (p.placement_cluster ∷ fallback_cluster_name ∷ []) == ""
    then elim p.resource.cluster_ref [ none ↦ "" | some name ↦ first_non_empty_trimmed (name ∷ []) ]
    else first_non_empty_trimmed (p.placement_cluster ∷ fallback_cluster_name ∷ []))
  where
    some_target : Lookup ClusterTarget → Lookup (Option ClusterTarget)
    some_target (found target) = found (some target)
    some_target not_found = not_found
    some_target failed = failed

    of_name : String → Lookup (Option ClusterTarget)
    of_name name = if name == "" then found none else some_target (reads.cluster_target name)

module _ (r : Reconciler) (reads : Reads) (i : InstanceState) where
  -- The status as `Reconcile` first changes it.
  abbrev pub observed : InstanceStatus
  observed = record (i.status) { observed_generation = i.generation }

  unfoldable pub read_references : Fallible Ending ServiceContext
  read_references = do
    project ←
        handle_dependency_error r.conditions observed "ProjectUnavailable"
          (reads.project i.resource.project_ref)
    tenant ←
        handle_dependency_error r.conditions observed "TenantUnavailable"
          (reads.tenant project.resource.tenant_ref)
    class ←
        handle_dependency_error r.conditions observed "ServiceClassUnavailable"
          (reads.class i.resource.service_class_ref)
    plan ←
        handle_dependency_error r.conditions observed "ServicePlanUnavailable"
          (reads.plan i.resource.service_plan_ref)
    ok (record {
      tenant = tenant;
      project = project;
      class = class;
      plan = plan;
      cluster_target = none;
    })

  abbrev invalid : String → Ending
  invalid reason = handle_validation_failure r.conditions observed reason

  abbrev pending : String → Ending
  pending reason = handle_dependency_pending r.conditions observed reason

  unfoldable pub refused_by_quota : QuotaRefusal → Ending
  refused_by_quota service_quota_exceeded = invalid "ProjectServiceQuotaExceeded"
  refused_by_quota namespace_quota_exceeded = invalid "ProjectNamespaceQuotaExceeded"
  refused_by_quota unread = call_failed

  unfoldable pub within_quota : Fallible QuotaRefusal (Unit {0}) → Fallible Ending (Unit {0})
  within_quota (ok tt) = ok tt
  within_quota (err refusal) = err (refused_by_quota refusal)

  abbrev pub violations : ServiceContext → Problems
  violations c =
      evaluate_instance_policies r.library r.decoders (some reads.policy) i.resource
        (some c.tenant.resource) (some c.project.resource) (some c.plan.policy)

  unfoldable pub check_references : ServiceContext → Fallible Ending (Unit {0})
  check_references c =
      check (contains i.resource.service_class_ref c.tenant.allowed_service_classes)
        (invalid "ServiceClassNotAllowed")
      >> (check
            (is_status_current c.project.generation c.project.observed_generation
              && r.conditions.is_true c.project.conditions "Ready")
            (pending "ProjectPending")
          >> (check (c.plan.service_class_ref == c.class.name) (invalid "ServicePlanMismatch")
              >> (check (is_status_current c.class.generation c.class.observed_generation)
                    (pending "ServiceClassPending")
                  >> (check (r.conditions.is_true c.class.conditions "Accepted")
                        (pending "ServiceClassPendingAcceptance")
                      >> (check c.class.published (invalid "ServiceClassUnpublished")
                          >> (check (is_status_current c.plan.generation c.plan.observed_generation)
                                (pending "ServicePlanPending")
                              >> (check (r.conditions.is_true c.plan.conditions "Accepted")
                                    (invalid "ServicePlanInvalid")
                                  >> (check c.plan.published (invalid "ServicePlanUnpublished")
                                      >> (check (has_none (violations c))
                                            (invalid "PolicyViolation")
                                          >> within_quota (
                                              enforce_project_quota c.project.quota
                                                (some c.tenant.resource.quota_profile)
                                                reads.instances))))))))))

  -- The placement, and the condition `Accepted`.
  unfoldable pub accepted : ServiceContext → InstanceStatus
  accepted c = record (observed) {
    placement_cluster = resolved_cluster_name c.project;
    placement_namespace = resolved_namespace c.project.quota i.quota;
    conditions =
        r.conditions.set i.status.conditions
          (record { kind = "Accepted"; status = true; reason = "SpecAccepted" });
  }

  unfoldable pub placement_pending : ServiceContext → Ending
  placement_pending c =
      ended
        (with_phase r.conditions (accepted c) "PendingPlacement" "PlacementPending"
          (("Placed", false) ∷ []))
        (some 30)

  -- What the placement leaves to `getTargetClient`.
  unfoldable pub read_cluster_ref : ServiceContext → Fallible Ending (Option ClusterTarget)
  read_cluster_ref c = elim c.project.resource.cluster_ref [
    | none ↦ ok none
    | some name ↦ do
      target ←
          handle_dependency_error r.conditions (accepted c) "ClusterTargetUnavailable"
            (reads.cluster_target name)
      ok (some target)
  ]

  unfoldable pub needed_packages : ServiceContext → List String
  needed_packages c = required_packages_for_service_instance (some c.class.packages) (
      some (record {
        cluster_name = i.resource.placement_cluster;
        delivery_mode = i.resource.secret_delivery_mode;
      }))

  or_resolved : ServiceContext → Option ClusterTarget → Fallible Ending (Option ClusterTarget)
  or_resolved c (some target) = ok (some target)
  or_resolved c none =
      handle_dependency_error r.conditions (accepted c) "ClusterTargetUnavailable"
        (resolve_cluster_target_for_project reads c.project (resolved_cluster_name c.project))

  -- The target is only looked up where there are packages to wait for.
  unfoldable pub check_packages :
      ServiceContext → Option ClusterTarget → Fallible Ending (Option ClusterTarget)
  unfolding or_resolved
  check_packages c target = elim (needed_packages c) [
    | [] ↦ ok target
    | name ∷ names ↦ do
      resolved ← or_resolved c target
      ready ←
          check (packages_ready resolved (needed_packages c))
            (wait_for_dependency r.conditions (accepted c) "OperatorPackagePending")
      ok resolved
  ]

  abbrev no_runtime : ServiceContext → Ending
  no_runtime c = wait_for_dependency r.conditions (accepted c) "RuntimeDependencyMissing"

  -- Both a missing client and a missing definition wait.
  or_wait {ℓ} : {A : Type ℓ} → ServiceContext → Lookup A → Fallible Ending A
  or_wait c (found a) = ok a
  or_wait c not_found = err (no_runtime c)
  or_wait c failed = err call_failed

  kube_virt_ready : ServiceContext → Option ClusterTarget → Fallible Ending (Unit {0})
  unfolding or_wait
  kube_virt_ready c none = err (no_runtime c)
  kube_virt_ready c (some target) = do
    client ← or_wait c (reads.target_client target)
    or_wait c (kube_virt_dependencies_ready reads client)

  unfoldable pub check_runtime : ServiceContext → Option ClusterTarget → Fallible Ending (Unit {0})
  unfolding kube_virt_ready
  check_runtime c target =
      if c.class.driver == kube_virt_driver then kube_virt_ready c target else ok tt

  registered_adapter : ServiceContext → Option ServiceAdapter → Fallible Ending ServiceAdapter
  registered_adapter c none =
      err (refuse_instance r.conditions (accepted c) "UnsupportedServiceClass")
  registered_adapter c (some adapter) = ok adapter

  validated : ServiceContext → Option Bool → Fallible Ending (Unit {0})
  validated c none = err (refuse_instance r.conditions (accepted c) "ValidationError")
  validated c (some false) = err (refuse_instance r.conditions (accepted c) "ValidationFailed")
  validated c (some true) = ok tt

  rendered : ServiceContext → Option RenderResult → Fallible Ending RenderResult
  rendered c none = err (fail_rendering r.conditions (accepted c))
  rendered c (some result) = ok result

  -- The adapter sees the instance with its new status.
  abbrev pub accepted_instance : ServiceContext → InstanceState
  accepted_instance c = record i { status = accepted c }

  unfoldable pub render : ServiceContext → Fallible Ending RenderResult
  unfolding registered_adapter validated rendered
  render c = do
    adapter ← registered_adapter c (r.adapters i.resource.service_class_ref)
    valid ← validated c (adapter.validate (accepted_instance c) c)
    result ← rendered c (adapter.render (accepted_instance c) c)
    configured ←
        check
          (not (production_delivery_required r.production_mode result)
            || delivery_publishing_configured r.delivery_repo_url r.publisher)
          (ended (mark_delivery_repo_required r.conditions (accepted c) "DeliveryRepoRequired")
            (some 30))
    ok result

  -- An instance that may be provisioned, in its context, with what is to be delivered.
  unfoldable pub admit_instance : Fallible Ending (ServiceContext × RenderResult)
  admit_instance = do
    c ← read_references
    passed ← check_references c
    placed ← check (not (resolved_cluster_name c.project == "")) (placement_pending c)
    target ← read_cluster_ref c
    resolved ← check_packages c target
    reachable ← check_runtime c resolved
    result ← render (record c { cluster_target = resolved })
    ok (record c { cluster_target = resolved }, result)
