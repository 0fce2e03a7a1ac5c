-- ===== src/Provision/Gates/Provisioned.antt =====
-- internal/controllers/serviceinstance_controller.go, `Reconcile`: the instances that are provisioned.
use servicer.Prelude.{
  String, Bool, true, false, List, [], ◌∷◌, Option, none, some, ◌==◌, ◌≡◌, ◌↔◌, inl, inr, refl, ◌∙◌,
  ap, ◌||◌, not, ok, ◌>>=◌, check, Bool-cases, arith, subst,
}
use servicer.Api.{Lookup, found, not_found, failed}
use servicer.Packages.{ClusterTarget, packages_ready}
use servicer.Provision.{
  InstanceState, ServiceContext, RenderResult, ServiceAdapter, resolved_cluster_name,
  production_delivery_required, delivery_publishing_configured, wait_for_dependency,
}
use servicer.Provision.Gates.{
  Reads, Reconciler, kube_virt_driver, kube_virt_dependencies_ready,
  resolve_cluster_target_for_project, needed_packages, or_resolved, check_packages, or_wait,
  kube_virt_ready, check_runtime, registered_adapter, validated, rendered, accepted,
  accepted_instance, render, admit_instance,
}
use servicer.Provision.Gates.Passed.{
  ok_inj, err≢ok, check_iff, bind_iff, dependency_iff, Named, Sound, Referenced,
  check_references_iff, read_references_iff, read_cluster_ref_iff,
}

same_target : {a b : ClusterTarget} → ◌≡◌ {A = Option ClusterTarget} (some a) (some b) → a ≡ b
same_target h = cc

module _ (r : Reconciler) (reads : Reads) (i : InstanceState) where
  -- The target in the end: looked up by the placement where the project names none.
  abbrev pub Resolved : ServiceContext → Option ClusterTarget → Option ClusterTarget → Type 0
  Resolved c (some target) u = some target ≡ u
  Resolved c none u =
      resolve_cluster_target_for_project reads c.project (resolved_cluster_name c.project) ≡ found u

  or_resolved_iff :
      (c : ServiceContext) (t u : Option ClusterTarget)
      → (or_resolved r reads i c t ≡ ok u) ↔ Resolved c t u
  unfolding or_resolved
  or_resolved_iff c none u = dependency_iff _ _ _ _ _
  or_resolved_iff c (some target) u = (λ h. ok_inj h, λ h. ap ok h)

  -- Nothing is needed, or it is ready on the target.
  abbrev pub Supplied :
      ServiceContext → Option ClusterTarget → Option ClusterTarget → List String → Type 0
  Supplied c t u [] = t ≡ u
  Supplied c t u (name ∷ names) =
      Resolved c t u × (packages_ready u (needed_packages r reads i c) ≡ true)

  check_packages_iff :
      (c : ServiceContext) (t u : Option ClusterTarget)
      → (check_packages r reads i c t ≡ ok u) ↔ Supplied c t u (needed_packages r reads i c)
  unfolding check_packages
  check_packages_iff c t u = of_names (needed_packages r reads i c)
    where
      of_names :
          (names : List String)
          → ((elim names [
            | [] ↦ ok t
            | name ∷ names ↦ do
              resolved ← or_resolved r reads i c t
              ready ←
                  check (packages_ready resolved (needed_packages r reads i c)) (
                    wait_for_dependency r.conditions
                      (accepted r reads i c)
                      "OperatorPackagePending")
              ok resolved
          ])
              ≡ ok u)
            ↔ Supplied c t u names
      of_names [] = (λ h. ok_inj h, λ h. ap ok h)
      of_names (name ∷ names) = (
        λ h.
            let (v, e, k) = (bind_iff _ _ _).0 h in
            let (b, f) = (check_iff _ _ _ _).0 k in
            let there = (or_resolved_iff c t v).0 e in
            subst (λ w. Resolved c t w × (packages_ready w (needed_packages r reads i c) ≡ true))
              (ok_inj f) (there, b),
        λ (there, b).
            (bind_iff _ _ _).1
              (u, (or_resolved_iff c t u).1 there, (check_iff _ _ _ _).1 (b, refl)),
      )

  -- KubeVirt is there, on a target that can be reached.
  abbrev pub Runs : Option ClusterTarget → Type 0
  Runs u =
      (target : ClusterTarget) × (u ≡ some target)
      × ((client : reads.Client) × (reads.target_client target ≡ found client)
          × (kube_virt_dependencies_ready reads client ≡ found tt))

  or_wait_iff :
      {A : Type 0} (c : ServiceContext) (l : Lookup A) (a : A)
      → (or_wait r reads i c l ≡ ok a) ↔ (l ≡ found a)
  unfolding or_wait
  or_wait_iff c (found b) a = (λ h. cc, λ h. cc)
  or_wait_iff c not_found a = (λ h. cc, λ h. cc)
  or_wait_iff c failed a = (λ h. cc, λ h. cc)

  kube_virt_ready_iff :
      (c : ServiceContext) (u : Option ClusterTarget)
      → (kube_virt_ready r reads i c u ≡ ok tt) ↔ Runs u
  unfolding kube_virt_ready
  kube_virt_ready_iff c none = (λ h. absurd (err≢ok h), λ (target, e, k). cc)
  kube_virt_ready_iff c (some target) = (
    λ h.
        let (client, e, k) = (bind_iff _ _ _).0 h in
        (target, refl, (client, (or_wait_iff c _ client).0 e, (or_wait_iff c _ tt).0 k)),
    λ (other, e, (client, k, l)). (bind_iff _ _ _).1 (
      client,
      (or_wait_iff c _ client).1 (ap reads.target_client (same_target e) ∙ k),
      (or_wait_iff c _ tt).1 l,
    ),
  )

  check_runtime_iff :
      (c : ServiceContext) (u : Option ClusterTarget)
      → (check_runtime r reads i c u ≡ ok tt)
        ↔ ((c.class.driver == kube_virt_driver) ≡ true → Runs u)
  unfolding check_runtime
  check_runtime_iff c u = elim (Bool-cases (c.class.driver == kube_virt_driver)) [
    | inl e ↦ (
      λ h k. (kube_virt_ready_iff c u).0 (rw e at h),
      λ h. rw e ((kube_virt_ready_iff c u).1 (h e)),
    )
    | inr e ↦ (λ h k. absurd (ground (arith)), λ h. rw e refl)
  ]

  -- The adapter of the class accepts the instance and renders `result`, and in production the delivery
  -- of artifacts is configured.
  pub record Rendered (c : ServiceContext) (result : RenderResult) : Type 0 where
    pub adapter : ServiceAdapter
    pub registered : r.adapters i.resource.service_class_ref ≡ some adapter
    pub valid : adapter.validate (accepted_instance r reads i c) c ≡ some true
    pub rendering : adapter.render (accepted_instance r reads i c) c ≡ some result
    pub deliverable :
        (not (production_delivery_required r.production_mode result)
          || delivery_publishing_configured r.delivery_repo_url r.publisher)
        ≡ true

  registered_adapter_iff :
      (c : ServiceContext) (o : Option ServiceAdapter) (a : ServiceAdapter)
      → (registered_adapter r reads i c o ≡ ok a) ↔ (o ≡ some a)
  unfolding registered_adapter
  registered_adapter_iff c none a = (λ h. cc, λ h. cc)
  registered_adapter_iff c (some b) a = (λ h. ap some (ok_inj h), λ h. cc)

  validated_iff :
      (c : ServiceContext) (o : Option Bool) → (validated r reads i c o ≡ ok tt) ↔ (o ≡ some true)
  unfolding validated
  validated_iff c none = (λ h. cc, λ h. cc)
  validated_iff c (some true) = (λ h. refl, λ h. refl)
  validated_iff c (some false) = (λ h. cc, λ h. cc)

  rendered_iff :
      (c : ServiceContext) (o : Option RenderResult) (a : RenderResult)
      → (rendered r reads i c o ≡ ok a) ↔ (o ≡ some a)
  unfolding rendered
  rendered_iff c none a = (λ h. cc, λ h. cc)
  rendered_iff c (some b) a = (λ h. ap some (ok_inj h), λ h. cc)

  render_iff :
      (c : ServiceContext) (result : RenderResult)
      → (render r reads i c ≡ ok result) ↔ Rendered c result
  unfolding render
  render_iff c result = (
    λ h.
        let (adapter, e1, h1) = (bind_iff _ _ _).0 h in
        let (valid, e2, h2) = (bind_iff _ _ _).0 h1 in
        let (out, e3, h3) = (bind_iff _ _ _).0 h2 in
        let (b, h4) = (check_iff _ _ _ _).0 h3 in
        subst (Rendered c) (ok_inj h4) (record {
          adapter = adapter;
          registered = (registered_adapter_iff c _ adapter).0 e1;
          valid = (validated_iff c _).0 e2;
          rendering = (rendered_iff c _ out).0 e3;
          deliverable = b;
        }),
    λ s. (bind_iff _ _ _).1 (
      s.adapter,
      (registered_adapter_iff c _ s.adapter).1 s.registered,
      (bind_iff _ _ _).1 (
        tt,
        (validated_iff c _).1 s.valid,
        (bind_iff _ _ _).1 (
          result,
          (rendered_iff c _ result).1 s.rendering,
          (check_iff _ _ _ _).1 (s.deliverable, refl),
        ),
      ),
    ),
  )

  -- The context as it is read, before a target is known.
  abbrev pub base : ServiceContext → ServiceContext
  base c = record c { cluster_target = none }

  -- All that an instance must pass to be provisioned as `result` in the context `c`.
  pub record Provisionable (c : ServiceContext) (result : RenderResult) : Type 0 where
    pub named : Named r reads i (base c)
    pub sound : Sound r reads i (base c)
    pub placed : not (resolved_cluster_name c.project == "") ≡ true
    pub referenced : Option ClusterTarget
    pub reference : Referenced r reads i c.project.resource.cluster_ref referenced
    pub supplied :
        Supplied (base c) referenced c.cluster_target (needed_packages r reads i (base c))
    pub runtime : (c.class.driver == kube_virt_driver) ≡ true → Runs c.cluster_target
    pub delivery : Rendered c result

  Admits : ServiceContext × RenderResult → Type 0
  Admits x = Provisionable x.0 x.1

  -- The reconciler goes on to deliver `result` in the context `c` exactly when the resources that the
  -- instance names are the context's, they are ready and allow the instance, policies and quota
  -- hold, the cluster is known and has the operators and the runtime, and the adapter of the class
  -- accepts the instance and renders it, with delivery configured where production wants it.
  pub admit_instance_iff :
      (c : ServiceContext) (result : RenderResult)
      → (admit_instance r reads i ≡ ok (c, result)) ↔ Provisionable c result
  unfolding admit_instance Admits
  admit_instance_iff c result = (
    λ h.
        let (b, e1, h1) = (bind_iff _ _ _).0 h in
        let (passed, e2, h2) = (bind_iff _ _ _).0 h1 in
        let (placed, h3) = (check_iff _ _ _ _).0 h2 in
        let (t, e4, h4) = (bind_iff _ _ _).0 h3 in
        let (u, e5, h5) = (bind_iff _ _ _).0 h4 in
        let (reachable, e6, h6) = (bind_iff _ _ _).0 h5 in
        let (out, e7, h7) = (bind_iff _ _ _).0 h6 in
        let (n, none_yet) = (read_references_iff r reads i b).0 e1 in
        let same : b ≡ base b = λ j. record b { cluster_target = none_yet j } in
        subst Admits {x = (record b { cluster_target = u }, out)} (ok_inj h7) (record {
          named = subst (Named r reads i) same n;
          sound = subst (Sound r reads i) same ((check_references_iff r reads i b).0 e2);
          placed = placed;
          referenced = t;
          reference = (read_cluster_ref_iff r reads i b t).0 e4;
          supplied =
              subst (λ d. Supplied d t u (needed_packages r reads i d)) same
                ((check_packages_iff b t u).0 e5);
          runtime = (check_runtime_iff b u).0 e6;
          delivery = (render_iff (record b { cluster_target = u }) out).0 e7;
        }),
    λ p. (bind_iff _ _ _).1 (
      base c,
      (read_references_iff r reads i (base c)).1 (p.named, refl),
      (bind_iff _ _ _).1 (
        tt,
        (check_references_iff r reads i (base c)).1 p.sound,
        (check_iff _ _ _ _).1 (
          p.placed,
          (bind_iff _ _ _).1 (
            p.referenced,
            (read_cluster_ref_iff r reads i (base c) p.referenced).1 p.reference,
            (bind_iff _ _ _).1 (
              c.cluster_target,
              (check_packages_iff (base c) p.referenced c.cluster_target).1 p.supplied,
              (bind_iff _ _ _).1 (
                tt,
                (check_runtime_iff (base c) c.cluster_target).1 p.runtime,
                (bind_iff _ _ _).1 (result, (render_iff c result).1 p.delivery, refl),
              ),
            ),
          ),
        ),
      ),
    ),
  )
