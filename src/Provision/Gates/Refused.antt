-- ===== src/Provision/Gates/Refused.antt =====
-- internal/controllers/serviceinstance_controller.go, `Reconcile`: what becomes of an instance that is
-- not provisioned.
use servicer.Prelude.{
  ℕ, String, Bool, true, false, List, [], ◌∷◌, Option, none, some, contains, ◌==◌, ◌&&◌, ◌||◌, not,
  Bool-cases, ◌≡◌, ◌⊎◌, inl, inr, refl, subst, Fallible, ok, err, ◌>>=◌, ◌>>◌, check,
}
use servicer.Api.{Lookup, found, not_found, failed}
use servicer.Quota.{QuotaRefusal, service_quota_exceeded, namespace_quota_exceeded, unread}
use servicer.Packages.{ClusterTarget, packages_ready}
use servicer.Provision.{
  InstanceStatus, InstanceState, ServiceContext, RenderResult, ServiceAdapter, Ending, ended,
  call_failed, with_phase, handle_dependency_error, handle_dependency_pending,
  handle_validation_failure, wait_for_dependency, refuse_instance, fail_rendering,
  mark_delivery_repo_required, is_status_current, resolved_cluster_name,
  production_delivery_required, delivery_publishing_configured,
}
use servicer.Provision.Gates.{
  Reads, Reconciler, kube_virt_driver, read_references, check_references, refused_by_quota,
  within_quota, placement_pending, read_cluster_ref, needed_packages, or_resolved, check_packages,
  or_wait, kube_virt_ready, check_runtime, registered_adapter, validated, rendered, accepted,
  render, admit_instance, observed, has_none, violations, accepted_instance,
}

-- A status says why in its phase, and an end without a later try is a failure.
abbrev pub Fair : ℕ → Ending → Type 0
Fair generation call_failed = Unit
Fair generation (ended s after) =
    (s.observed_generation ≡ generation)
    × (contains s.phase ("Failed" ∷ "PendingDependencies" ∷ "PendingPlacement" ∷ "Degraded" ∷ [])
        ≡ true)
    × ((after ≡ some 30) ⊎ (s.phase ≡ "Failed"))

module _ (generation : ℕ) where
  Safe : {A : Type 0} → Fallible Ending A → Type 0
  Safe (ok a) = Unit
  Safe (err e) = Fair generation e

  bind-Safe :
      {A B : Type 0} (x : Fallible Ending A) (next : A → Fallible Ending B)
      → Safe x
      → ((a : A) → Safe (next a))
      → Safe (x >>= next)
  unfolding Safe
  bind-Safe (ok a) next p h = h a
  bind-Safe (err e) next p h = p

  check-Safe :
      {A : Type 0} (b : Bool) (e : Ending) (next : Fallible Ending A)
      → Fair generation e
      → Safe next
      → Safe (check b e >> next)
  unfolding Safe
  check-Safe true e next p h = h
  check-Safe false e next p h = p

module _ (r : Reconciler) (reads : Reads) (i : InstanceState) where
  dependency-Safe :
      {A : Type 0} (s : InstanceStatus) (reason : String) (l : Lookup A)
      → s.observed_generation ≡ i.generation
      → Safe i.generation (handle_dependency_error r.conditions s reason l)
  unfolding handle_dependency_error with_phase Safe
  dependency-Safe s reason (found a) e = tt
  dependency-Safe s reason not_found e = (e, refl, inl refl)
  dependency-Safe s reason failed e = tt

  read_references-Safe : Safe i.generation (read_references r reads i)
  unfolding read_references Safe
  read_references-Safe =
      bind-Safe i.generation
        (handle_dependency_error r.conditions (observed r reads i) "ProjectUnavailable"
          (reads.project i.resource.project_ref))
        _ (dependency-Safe _ _ _ refl)
        (λ p.
          bind-Safe i.generation
            (handle_dependency_error r.conditions (observed r reads i) "TenantUnavailable"
              (reads.tenant p.resource.tenant_ref))
            _ (dependency-Safe _ _ _ refl)
            (λ t.
              bind-Safe i.generation
                (handle_dependency_error r.conditions (observed r reads i) "ServiceClassUnavailable"
                  (reads.class i.resource.service_class_ref))
                _ (dependency-Safe _ _ _ refl)
                (λ c.
                  bind-Safe i.generation
                    (handle_dependency_error r.conditions (observed r reads i)
                      "ServicePlanUnavailable" (reads.plan i.resource.service_plan_ref))
                    _ (dependency-Safe _ _ _ refl) (λ d. tt))))

  invalid-Fair :
      (reason : String)
      → Fair i.generation (handle_validation_failure r.conditions (observed r reads i) reason)
  unfolding handle_validation_failure with_phase
  invalid-Fair reason = (refl, refl, inl refl)

  pending-Fair :
      (reason : String)
      → Fair i.generation (handle_dependency_pending r.conditions (observed r reads i) reason)
  unfolding handle_dependency_pending with_phase
  pending-Fair reason = (refl, refl, inl refl)

  within_quota-Safe :
      (x : Fallible QuotaRefusal (Unit {0})) → Safe i.generation (within_quota r reads i x)
  unfolding within_quota refused_by_quota Safe
  within_quota-Safe (ok tt) = tt
  within_quota-Safe (err service_quota_exceeded) = invalid-Fair _
  within_quota-Safe (err namespace_quota_exceeded) = invalid-Fair _
  within_quota-Safe (err unread) = tt

  check_references-Safe : (c : ServiceContext) → Safe i.generation (check_references r reads i c)
  unfolding check_references
  check_references-Safe c =
      check-Safe i.generation
        (contains i.resource.service_class_ref c.tenant.allowed_service_classes) _ _
        (invalid-Fair _)
        (check-Safe i.generation
          (is_status_current c.project.generation c.project.observed_generation
            && r.conditions.is_true c.project.conditions "Ready")
          _ _ (pending-Fair _)
          (check-Safe i.generation (c.plan.service_class_ref == c.class.name) _ _ (invalid-Fair _) (
            check-Safe i.generation
              (is_status_current c.class.generation c.class.observed_generation) _ _
              (pending-Fair _)
              (check-Safe i.generation (r.conditions.is_true c.class.conditions "Accepted") _ _
                (pending-Fair _)
                (check-Safe i.generation c.class.published _ _ (invalid-Fair _) (
                  check-Safe i.generation
                    (is_status_current c.plan.generation c.plan.observed_generation) _ _
                    (pending-Fair _)
                    (check-Safe i.generation (r.conditions.is_true c.plan.conditions "Accepted") _ _
                      (invalid-Fair _)
                      (check-Safe i.generation c.plan.published _ _ (invalid-Fair _) (
                        check-Safe i.generation (has_none (violations r reads i c)) _ _
                          (invalid-Fair _) (within_quota-Safe _))))))))))

  wait-Fair :
      (c : ServiceContext) (reason : String)
      → Fair i.generation (wait_for_dependency r.conditions (accepted r reads i c) reason)
  unfolding wait_for_dependency with_phase accepted
  wait-Fair c reason = (refl, refl, inl refl)

  placement_pending-Fair : (c : ServiceContext) → Fair i.generation (placement_pending r reads i c)
  unfolding placement_pending with_phase accepted
  placement_pending-Fair c = (refl, refl, inl refl)

  accepted-Safe :
      {A : Type 0} (c : ServiceContext) (reason : String) (l : Lookup A)
      → Safe i.generation (handle_dependency_error r.conditions (accepted r reads i c) reason l)
  unfolding accepted
  accepted-Safe c reason l = dependency-Safe (accepted r reads i c) reason l refl

  read_cluster_ref-Safe : (c : ServiceContext) → Safe i.generation (read_cluster_ref r reads i c)
  unfolding read_cluster_ref Safe
  read_cluster_ref-Safe c = of_ref c.project.resource.cluster_ref
    where
      of_ref :
          (ref : Option String)
          → Safe i.generation (elim ref [
            | none ↦ ok none
            | some name ↦ do
              target ←
                  handle_dependency_error r.conditions
                    (accepted r reads i c)
                    "ClusterTargetUnavailable"
                    (reads.cluster_target name)
              ok (some target)
          ])
      of_ref none = tt
      of_ref (some name) =
          bind-Safe i.generation _ (λ target. ok (some target))
            (accepted-Safe c "ClusterTargetUnavailable" (reads.cluster_target name)) (λ target. tt)

  or_resolved-Safe :
      (c : ServiceContext) (t : Option ClusterTarget)
      → Safe i.generation (or_resolved r reads i c t)
  unfolding or_resolved Safe
  or_resolved-Safe c none = accepted-Safe c _ _
  or_resolved-Safe c (some target) = tt

  check_packages-Safe :
      (c : ServiceContext) (t : Option ClusterTarget)
      → Safe i.generation (check_packages r reads i c t)
  unfolding check_packages Safe
  check_packages-Safe c t = of_names (needed_packages r reads i c)
    where
      of_names :
          (names : List String)
          → Safe i.generation (elim names [
            | [] ↦ ok t
            | name ∷ names ↦ do
              resolved ← or_resolved r reads i c t
              ready ←
                  check (packages_ready resolved (needed_packages r reads i c)) (
                    wait_for_dependency r.conditions
                      (accepted r reads i c)
                      "OperatorPackagePending")
              ok resolved
          ])
      of_names [] = tt
      of_names (name ∷ names) =
          bind-Safe i.generation (or_resolved r reads i c t) _ (or_resolved-Safe c t) (λ u.
            check-Safe i.generation (packages_ready u (needed_packages r reads i c)) _ (ok u)
              (wait-Fair c _) tt)

  or_wait-Safe :
      {A : Type 0} (c : ServiceContext) (l : Lookup A) → Safe i.generation (or_wait r reads i c l)
  unfolding or_wait Safe
  or_wait-Safe c (found a) = tt
  or_wait-Safe c not_found = wait-Fair c _
  or_wait-Safe c failed = tt

  kube_virt_ready-Safe :
      (c : ServiceContext) (u : Option ClusterTarget)
      → Safe i.generation (kube_virt_ready r reads i c u)
  unfolding kube_virt_ready Safe
  kube_virt_ready-Safe c none = wait-Fair c _
  kube_virt_ready-Safe c (some target) =
      bind-Safe i.generation (or_wait r reads i c (reads.target_client target)) _ (or_wait-Safe c _)
        (λ client. or_wait-Safe c _)

  check_runtime-Safe :
      (c : ServiceContext) (u : Option ClusterTarget)
      → Safe i.generation (check_runtime r reads i c u)
  unfolding check_runtime Safe
  check_runtime-Safe c u = elim (Bool-cases (c.class.driver == kube_virt_driver)) [
    | inl e ↦ rw e (kube_virt_ready-Safe c u)
    | inr e ↦ rw e tt
  ]

  registered_adapter-Safe :
      (c : ServiceContext) (o : Option ServiceAdapter)
      → Safe i.generation (registered_adapter r reads i c o)
  unfolding registered_adapter Safe refuse_instance with_phase accepted
  registered_adapter-Safe c none = (refl, refl, inr refl)
  registered_adapter-Safe c (some adapter) = tt

  validated-Safe :
      (c : ServiceContext) (o : Option Bool) → Safe i.generation (validated r reads i c o)
  unfolding validated Safe refuse_instance with_phase accepted
  validated-Safe c none = (refl, refl, inr refl)
  validated-Safe c (some true) = tt
  validated-Safe c (some false) = (refl, refl, inr refl)

  rendered-Safe :
      (c : ServiceContext) (o : Option RenderResult) → Safe i.generation (rendered r reads i c o)
  unfolding rendered Safe fail_rendering with_phase accepted
  rendered-Safe c none = (refl, refl, inr refl)
  rendered-Safe c (some result) = tt

  render-Safe : (c : ServiceContext) → Safe i.generation (render r reads i c)
  unfolding render Safe mark_delivery_repo_required with_phase accepted
  render-Safe c =
      bind-Safe i.generation
        (registered_adapter r reads i c (r.adapters i.resource.service_class_ref)) _
        (registered_adapter-Safe c _)
        (λ adapter.
          bind-Safe i.generation
            (validated r reads i c (adapter.validate (accepted_instance r reads i c) c)) _
            (validated-Safe c _)
            (λ valid.
              bind-Safe i.generation
                (rendered r reads i c (adapter.render (accepted_instance r reads i c) c)) _
                (rendered-Safe c _)
                (λ result.
                  check-Safe i.generation
                    (not (production_delivery_required r.production_mode result)
                      || delivery_publishing_configured r.delivery_repo_url r.publisher)
                    _ (ok result) (refl, refl, inl refl) tt)))

  admit_instance-Safe : Safe i.generation (admit_instance r reads i)
  unfolding admit_instance Safe
  admit_instance-Safe =
      bind-Safe i.generation (read_references r reads i) _ read_references-Safe (λ c.
        bind-Safe i.generation (check_references r reads i c) _ (check_references-Safe c) (λ passed.
          check-Safe i.generation (not (resolved_cluster_name c.project == "")) _ _
            (placement_pending-Fair c)
            (bind-Safe i.generation (read_cluster_ref r reads i c) _ (read_cluster_ref-Safe c) (λ t.
              bind-Safe i.generation (check_packages r reads i c t) _ (check_packages-Safe c t)
                (λ u.
                  bind-Safe i.generation (check_runtime r reads i c u) _ (check_runtime-Safe c u)
                    (λ reachable.
                      bind-Safe i.generation (render r reads i (record c { cluster_target = u })) _
                        (render-Safe _) (λ result. tt)))))))

  -- Where the reconciler does not go on to deliver, and no call failed, the status that it writes has
  -- the present generation and one of the phases Failed, PendingDependencies, PendingPlacement and
  -- Degraded, and the instance is tried again after 30 seconds or its phase is Failed.
  pub admit_instance-Fair : (e : Ending) → admit_instance r reads i ≡ err e → Fair i.generation e
  unfolding Safe
  admit_instance-Fair e h = subst (Safe i.generation) h admit_instance-Safe
