-- ===== src/Provision/Gates/Passed.antt =====
-- internal/controllers/serviceinstance_controller.go, `Reconcile`: which instances are provisioned.
use servicer.Prelude.{
  String, Bool, true, false, [], ◌∷◌, Option, none, some, contains, ◌==◌, ◌≡◌, ◌↔◌, refl, sym, ◌∙◌,
  ap, ◌&&◌, Fallible, ok, err, ◌>>=◌, ◌>>◌, check, subst,
}
use servicer.Api.{Lookup, found, not_found, failed}
use servicer.Policy.Evaluator.{evaluate_instance_policies}
use servicer.Quota.{QuotaRefusal, enforce_project_quota}
use servicer.Webhook.Problems.{Problems}
use servicer.Packages.{ClusterTarget}
use servicer.Provision.{
  InstanceStatus, InstanceState, ServiceContext, Conditions, is_status_current,
  handle_dependency_error,
}
use servicer.Provision.Gates.{
  Reads, Reconciler, has_none, read_references, check_references, within_quota, read_cluster_ref,
  accepted,
}

pub ok_inj : {E A : Type 0} {a b : A} → ◌≡◌ {A = Fallible E A} (ok a) (ok b) → a ≡ b
ok_inj h = cc

module _ {E A : Type 0} where
  pub err≢ok : {e : E} {a : A} → ◌≡◌ {A = Fallible E A} (err e) (ok a) → ⊥
  err≢ok h = cc

  pub check_iff :
      (b : Bool) (e : E) (next : Fallible E A) (a : A)
      → ((check b e >> next) ≡ ok a) ↔ ((b ≡ true) × (next ≡ ok a))
  check_iff true e next a = (λ h. (refl, h), λ h. h.1)
  check_iff false e next a = (λ h. absurd (err≢ok h), λ h. cc)

  pub bind_iff :
      {B : Type 0} (call : Fallible E B) (next : B → Fallible E A) (a : A)
      → ((call >>= next) ≡ ok a) ↔ ((b : B) × (call ≡ ok b) × (next b ≡ ok a))
  bind_iff (ok b) next a = (λ h. (b, refl, h), λ (c, e, h). ap next (ok_inj e) ∙ h)
  bind_iff (err e) next a = (λ h. absurd (err≢ok h), λ (c, f, h). cc)

pub dependency_iff :
    (kit : Conditions) (s : InstanceStatus) (reason : String) {A : Type 0} (l : Lookup A) (a : A)
    → (handle_dependency_error kit s reason l ≡ ok a) ↔ (l ≡ found a)
unfolding handle_dependency_error
dependency_iff kit s reason (found b) a = (λ h. cc, λ h. cc)
dependency_iff kit s reason not_found a = (λ h. cc, λ h. cc)
dependency_iff kit s reason failed a = (λ h. cc, λ h. cc)

has_none_iff : (problems : Problems) → (has_none problems ≡ true) ↔ (problems ≡ [])
has_none_iff [] = (λ h. refl, λ h. refl)
has_none_iff (problem ∷ problems) = (λ h. cc, λ h. cc)

module _ (r : Reconciler) (reads : Reads) (i : InstanceState) where
  -- The resources of the context are those that the instance names.
  pub record Named (c : ServiceContext) : Type 0 where
    pub project : reads.project i.resource.project_ref ≡ found c.project
    pub tenant : reads.tenant c.project.resource.tenant_ref ≡ found c.tenant
    pub class : reads.class i.resource.service_class_ref ≡ found c.class
    pub plan : reads.plan i.resource.service_plan_ref ≡ found c.plan

  pub record Sound (c : ServiceContext) : Type 0 where
    pub allowed : contains i.resource.service_class_ref c.tenant.allowed_service_classes ≡ true
    pub project_ready :
        (is_status_current c.project.generation c.project.observed_generation
          && r.conditions.is_true c.project.conditions "Ready")
        ≡ true
    pub plan_of_class : (c.plan.service_class_ref == c.class.name) ≡ true
    pub class_current : is_status_current c.class.generation c.class.observed_generation ≡ true
    pub class_accepted : r.conditions.is_true c.class.conditions "Accepted" ≡ true
    pub class_published : c.class.published ≡ true
    pub plan_current : is_status_current c.plan.generation c.plan.observed_generation ≡ true
    pub plan_accepted : r.conditions.is_true c.plan.conditions "Accepted" ≡ true
    pub plan_published : c.plan.published ≡ true
    pub policies :
        evaluate_instance_policies r.library r.decoders
          (some reads.policy)
          i.resource
          (some c.tenant.resource)
          (some c.project.resource)
          (some c.plan.policy)
        ≡ []
    pub quota :
        enforce_project_quota c.project.quota (some c.tenant.resource.quota_profile) reads.instances
        ≡ ok tt

  within_quota_iff :
      (x : Fallible QuotaRefusal (Unit {0})) → (within_quota r reads i x ≡ ok tt) ↔ (x ≡ ok tt)
  unfolding within_quota
  within_quota_iff (ok tt) = (λ h. refl, λ h. refl)
  within_quota_iff (err e) = (λ h. absurd (err≢ok h), λ h. absurd (err≢ok h))

  pub check_references_iff : (c : ServiceContext) → (check_references r reads i c ≡ ok tt) ↔ Sound c
  unfolding check_references
  check_references_iff c = (
    λ h.
        let (a1, h1) = (check_iff _ _ _ _).0 h in
        let (a2, h2) = (check_iff _ _ _ _).0 h1 in
        let (a3, h3) = (check_iff _ _ _ _).0 h2 in
        let (a4, h4) = (check_iff _ _ _ _).0 h3 in
        let (a5, h5) = (check_iff _ _ _ _).0 h4 in
        let (a6, h6) = (check_iff _ _ _ _).0 h5 in
        let (a7, h7) = (check_iff _ _ _ _).0 h6 in
        let (a8, h8) = (check_iff _ _ _ _).0 h7 in
        let (a9, h9) = (check_iff _ _ _ _).0 h8 in
        let (a10, h10) = (check_iff _ _ _ _).0 h9 in
        record {
          allowed = a1;
          project_ready = a2;
          plan_of_class = a3;
          class_current = a4;
          class_accepted = a5;
          class_published = a6;
          plan_current = a7;
          plan_accepted = a8;
          plan_published = a9;
          policies = (has_none_iff _).0 a10;
          quota = (within_quota_iff _).0 h10;
        },
    λ s. (check_iff _ _ _ _).1 (
      s.allowed,
      (check_iff _ _ _ _).1 (
        s.project_ready,
        (check_iff _ _ _ _).1 (
          s.plan_of_class,
          (check_iff _ _ _ _).1 (
            s.class_current,
            (check_iff _ _ _ _).1 (
              s.class_accepted,
              (check_iff _ _ _ _).1 (
                s.class_published,
                (check_iff _ _ _ _).1 (
                  s.plan_current,
                  (check_iff _ _ _ _).1 (
                    s.plan_accepted,
                    (check_iff _ _ _ _).1 (
                      s.plan_published,
                      (check_iff _ _ _ _).1
                          ((has_none_iff _).1 s.policies, (within_quota_iff _).1 s.quota),
                    ),
                  ),
                ),
              ),
            ),
          ),
        ),
      ),
    ),
  )

  pub read_references_iff :
      (c : ServiceContext)
      → (read_references r reads i ≡ ok c) ↔ (Named c × (c.cluster_target ≡ none))
  unfolding read_references
  read_references_iff c = (
    λ h.
        let (project, e1, h1) = (bind_iff _ _ _).0 h in
        let (tenant, e2, h2) = (bind_iff _ _ _).0 h1 in
        let (class, e3, h3) = (bind_iff _ _ _).0 h2 in
        let (plan, e4, h4) = (bind_iff _ _ _).0 h3 in
        subst (λ d. Named d × (d.cluster_target ≡ none)) (ok_inj h4)
          (
            record {
              project = (dependency_iff _ _ _ _ _).0 e1;
              tenant = (dependency_iff _ _ _ _ _).0 e2;
              class = (dependency_iff _ _ _ _ _).0 e3;
              plan = (dependency_iff _ _ _ _ _).0 e4;
            },
            refl,
          ),
    λ (n, e). (bind_iff _ _ _).1 (
      c.project,
      (dependency_iff _ _ _ _ _).1 n.project,
      (bind_iff _ _ _).1 (
        c.tenant,
        (dependency_iff _ _ _ _ _).1 n.tenant,
        (bind_iff _ _ _).1 (
          c.class,
          (dependency_iff _ _ _ _ _).1 n.class,
          (bind_iff _ _ _).1 (
            c.plan,
            (dependency_iff _ _ _ _ _).1 n.plan,
            λ j. ok (record c { cluster_target = sym e j }),
          ),
        ),
      ),
    ),
  )

  -- The target that the project names itself.
  abbrev pub Referenced : Option String → Option ClusterTarget → Type 0
  Referenced none t = t ≡ none
  Referenced (some name) t =
      (target : ClusterTarget) × (reads.cluster_target name ≡ found target) × (some target ≡ t)

  pub read_cluster_ref_iff :
      (c : ServiceContext) (t : Option ClusterTarget)
      → (read_cluster_ref r reads i c ≡ ok t) ↔ Referenced c.project.resource.cluster_ref t
  unfolding read_cluster_ref
  read_cluster_ref_iff c t = of_ref c.project.resource.cluster_ref
    where
      of_ref :
          (ref : Option String)
          → ((elim ref [
            | none ↦ ok none
            | some name ↦ do
              target ←
                  handle_dependency_error r.conditions
                    (accepted r reads i c)
                    "ClusterTargetUnavailable"
                    (reads.cluster_target name)
              ok (some target)
          ])
              ≡ ok t)
            ↔ Referenced ref t
      of_ref none = (λ h. sym (ok_inj h), λ h. ap ok (sym h))
      of_ref (some name) = (
        λ h.
            let (target, e, k) = (bind_iff _ _ _).0 h in
            (target, (dependency_iff _ _ _ _ _).0 e, ok_inj k),
        λ (target, e, k). (bind_iff _ _ _).1 (target, (dependency_iff _ _ _ _ _).1 e, ap ok k),
      )
