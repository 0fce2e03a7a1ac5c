-- ===== src/Webhook/Admission/Immutable.antt =====
-- api/v1alpha1/webhook_validation.go: what of an object may not change, and how an update compares it.
use servicer.Prelude.{
  String, not, List, [], ◌∷◌, ◌++◌, Option, none, some, ◌==◌, ◌≡◌, ◌↔◌, refl, not_eq_iff,
  append_nil_iff, iff_trans, ok,
}
use servicer.Action.{TypedObjectReference}
use servicer.Webhook.Problems.{FieldPath, Problem, Problems, append_if, append_if_iff, admit}
use servicer.Webhook.Checks.{
  validate_immutable_local_ref, validate_immutable_string, validate_immutable_typed_ref,
}
use servicer.Webhook.Access.{validate_immutable_tenant}
use servicer.Webhook.Catalog.{OperatorPackageSource, validate_immutable_source}
use servicer.Webhook.Admission.{
  Kind, action_request, cluster_target, operator_package, policy, project, auth_provider, user,
  group, role_binding, service_instance, service_class, service_plan, tenant, namespace_claim,
  service_binding, virtual_machine_claim, Spec,
}

-- The values of a reference, in front of more.
abbrev pub reference : TypedObjectReference → List (Option String) → List (Option String)
reference ref rest =
    some ref.namespace ∷ some ref.name ∷ some ref.kind ∷ some ref.api_version ∷ rest

abbrev pub source_fields : OperatorPackageSource → List (Option String) → List (Option String)
source_fields source rest =
    some source.chart_path
    ∷ some source.chart_archive_url
    ∷ some source.path
    ∷ some source.repo_url
    ∷ rest

-- What of an object may never change, the last field first.
abbrev pub immutable : (kind : Kind) → Spec kind → List (Option String)
immutable action_request spec =
    some spec.idempotency_key ∷ some spec.action ∷ reference spec.target_ref []
immutable cluster_target spec =
    some spec.connection_ref.namespace ∷ some spec.connection_ref.name ∷ []
immutable operator_package spec = source_fields spec.source []
immutable policy spec = []
immutable project spec = some spec.tenant_ref ∷ []
immutable auth_provider spec = some spec.type_name ∷ []
immutable user spec = []
immutable group spec = []
immutable role_binding spec = spec.tenant_ref ∷ some spec.scope ∷ []
immutable service_instance spec =
    some spec.service_plan_ref ∷ some spec.service_class_ref ∷ some spec.project_ref ∷ []
immutable service_class spec = some spec.driver ∷ []
immutable service_plan spec = some spec.service_class_ref ∷ []
immutable tenant spec = some spec.quota_profile_ref ∷ []
immutable namespace_claim spec = some spec.project_ref ∷ []
immutable service_binding spec =
    reference spec.target_ref (reference spec.source_ref (some spec.project_ref ∷ []))
immutable virtual_machine_claim spec =
    some spec.image ∷ some spec.class ∷ some spec.project_ref ∷ []

pub admit_iff : (ps : Problems) → (admit ps ≡ ok tt) ↔ (ps ≡ [])
unfolding admit
admit_iff [] = (λ h. refl, λ h. refl)
admit_iff (p ∷ ps) = (λ h. cc, λ h. cc)

-- The problems of a specification, before any comparison.
pub base :
    (ps : Problems) → (ps ≡ []) ↔ ((admit ps ≡ ok tt) × (◌≡◌ {A = List (Option String)} [] []))
base ps = (λ h. ((admit_iff ps).1 h, refl), λ (h, e). (admit_iff ps).0 h)

cons_iff :
    {x y : Option String} {xs ys : List (Option String)} → ((xs ≡ ys) × (x ≡ y)) ↔ (x ∷ xs ≡ y ∷ ys)
cons_iff = (λ (e, f). cc, λ h. (cc, cc))

some_iff : {s t : String} → (s ≡ t) ↔ (◌≡◌ {A = Option String} (some s) (some t))
some_iff = (λ h. cc, λ h. cc)

module _ {S : Type 0} {ps : Problems} {xs ys : List (Option String)}
    (f : (ps ≡ []) ↔ (S × (xs ≡ ys))) where
  -- One more comparison.
  compare :
      {qs : Problems} {x y : Option String}
      → (qs ≡ []) ↔ (x ≡ y)
      → (ps ++ qs ≡ []) ↔ (S × (x ∷ xs ≡ y ∷ ys))
  compare g =
      iff_trans (append_nil_iff f g)
        (λ ((s, e), h). (s, cons_iff.0 (e, h)), λ (s, h). let (e, k) = cons_iff.1 h in ((s, e), k))

  pub compare_text :
      (previous current : String) (p : Problem)
      → (ps ++ append_if (not (previous == current)) p ≡ [])
        ↔ (S × (some previous ∷ xs ≡ some current ∷ ys))
  compare_text previous current p =
      compare (iff_trans (append_if_iff _ p (not_eq_iff previous current)) some_iff)

  pub compare_name :
      (previous current : String) (path : FieldPath)
      → (ps ++ validate_immutable_local_ref previous current path ≡ [])
        ↔ (S × (some previous ∷ xs ≡ some current ∷ ys))
  unfolding validate_immutable_local_ref
  compare_name previous current path = compare_text previous current _

  pub compare_string :
      (previous current : String) (path : FieldPath)
      → (ps ++ validate_immutable_string previous current path ≡ [])
        ↔ (S × (some previous ∷ xs ≡ some current ∷ ys))
  unfolding validate_immutable_string
  compare_string previous current path = compare_text previous current _

  pub compare_reference :
      (previous current : TypedObjectReference) (path : FieldPath)
      → (ps ++ validate_immutable_typed_ref previous current path ≡ [])
        ↔ (S × (reference previous xs ≡ reference current ys))
  unfolding validate_immutable_typed_ref
  compare_reference previous current path =
      iff_trans
        (append_nil_iff f (
          append_nil_iff
            (append_nil_iff
              (append_nil_iff
                (append_if_iff _ _ (not_eq_iff previous.api_version current.api_version))
                (append_if_iff _ _ (not_eq_iff previous.kind current.kind)))
              (append_if_iff _ _ (not_eq_iff previous.name current.name)))
            (append_if_iff _ _ (not_eq_iff previous.namespace current.namespace))))
        (λ ((s, e), (((a, b), c), d)). (s, cc), λ (s, h). ((s, cc), (((cc, cc), cc), cc)))

  pub compare_source :
      (previous current : OperatorPackageSource)
      → (ps ++ validate_immutable_source previous current ≡ [])
        ↔ (S × (source_fields previous xs ≡ source_fields current ys))
  unfolding validate_immutable_source
  compare_source previous current =
      iff_trans
        (append_nil_iff f (
          append_nil_iff
            (append_nil_iff
              (append_nil_iff (append_if_iff _ _ (not_eq_iff previous.repo_url current.repo_url))
                (append_if_iff _ _ (not_eq_iff previous.path current.path)))
              (append_if_iff _ _ (not_eq_iff previous.chart_archive_url current.chart_archive_url)))
            (append_if_iff _ _ (not_eq_iff previous.chart_path current.chart_path))))
        (λ ((s, e), (((a, b), c), d)). (s, cc), λ (s, h). ((s, cc), (((cc, cc), cc), cc)))

  pub compare_tenant :
      (previous current : Option String)
      → (ps ++ validate_immutable_tenant previous current ≡ [])
        ↔ (S × (previous ∷ xs ≡ current ∷ ys))
  unfolding validate_immutable_tenant
  compare_tenant none none = compare (λ h. refl, λ h. refl)
  compare_tenant none (some c) = compare (λ h. cc, λ h. cc)
  compare_tenant (some p) none = compare (λ h. cc, λ h. cc)
  compare_tenant (some p) (some c) = compare_name p c _

-- What is let in: no problem at all.
pub let_in : {P : Type 0} (ps : Problems) → (ps ≡ []) ↔ P → (admit ps ≡ ok tt) ↔ P
let_in ps f = iff_trans (admit_iff ps) f
