-- ===== src/Webhook/Catalog.antt =====
-- api/v1alpha1/webhook_validation.go: the kinds `ServiceClass`, `ServicePlan`, `OperatorPackage` and
-- `ClusterTarget`.
use servicer.Prelude.{
  is_empty, is_blank, String, Bool, true, ◌&&◌, ◌||◌, not, List, [], ◌∷◌, ◌++◌, Option, ◌==◌,
  trim_space, equal_fold, Fallible, if◌then◌else◌,
}
use servicer.Webhook.Problems.{
  named, indexed, keyed, FieldPath, required, invalid, Problems, Environment, append_if, each,
  admit, spec_path, entry_child,
}
use servicer.Webhook.Checks.{
  NamespacedObjectReference, validate_local_ref, validate_namespaced_ref,
  validate_immutable_local_ref, validate_json_map, validate_policy_refs, validate_names, or_default,
}

pub record ServiceClassSpec : Type 0 where
  pub display_name : String
  pub driver : String
  pub supported_versions : List String
  pub required_packages : List String
  pub default_parameters : Option String

-- `strings.EqualFold(strings.TrimSpace(name), kubeVirtPackageName)`.
abbrev is_kubevirt : String → Bool
is_kubevirt name = equal_fold (trim_space name) "kubevirt"

-- Packages that must be named, and must not be KubeVirt where the test says so.
pub validate_packages : Bool → List String → Problems
validate_packages no_kubevirt names =
    each
      (λ i name.
        append_if (is_blank name) (required (spec_path "requiredPackages" ++ indexed i ∷ []))
        ++ append_if (no_kubevirt && is_kubevirt name)
            (invalid (spec_path "requiredPackages" ++ indexed i ∷ [])))
      0 names

unfoldable pub validate_service_class_spec : Environment → ServiceClassSpec → Problems
unfolding validate_packages
validate_service_class_spec env spec =
    append_if (is_blank spec.display_name) (required (spec_path "displayName"))
    ++ append_if (is_blank spec.driver) (required (spec_path "driver"))
    ++ validate_names spec.supported_versions (spec_path "supportedVersions")
    ++ validate_packages (spec.driver == "kubevirt") spec.required_packages
    ++ validate_json_map env spec.default_parameters (spec_path "defaultParameters")

unfoldable pub validate_service_class_update :
    Environment → ServiceClassSpec → ServiceClassSpec → Fallible Problems (Unit {0})
validate_service_class_update env previous current = admit (
    validate_service_class_spec env current
    ++ append_if (not (previous.driver == current.driver)) (invalid (spec_path "driver")))

pub record ServicePlanSpec : Type 0 where
  pub service_class_ref : String
  pub policy_refs : List String
  pub default_parameters : Option String

unfoldable pub validate_service_plan_spec : Environment → ServicePlanSpec → Problems
validate_service_plan_spec env spec =
    validate_local_ref spec.service_class_ref (spec_path "serviceClassRef")
    ++ validate_policy_refs spec.policy_refs (spec_path "policyRefs")
    ++ validate_json_map env spec.default_parameters (spec_path "defaultParameters")

unfoldable pub validate_service_plan_update :
    Environment → ServicePlanSpec → ServicePlanSpec → Fallible Problems (Unit {0})
validate_service_plan_update env previous current = admit (
    validate_service_plan_spec env current
    ++ validate_immutable_local_ref previous.service_class_ref current.service_class_ref
        (spec_path "serviceClassRef"))

pub record ClusterTargetSpec : Type 0 where
  pub connection_ref : NamespacedObjectReference
  pub capabilities : List (String × String)
  pub default_policy_refs : List String
  pub required_packages : List String

-- The loop stops at a blank key.
pub validate_capabilities : List (String × String) → Problems
validate_capabilities [] = []
validate_capabilities (capability ∷ capabilities) =
    if is_blank capability.0
    then invalid (spec_path "capabilities") ∷ []
    else append_if (is_blank capability.1)
        (invalid (spec_path "capabilities" ++ keyed capability.0 ∷ []))
      ++ validate_capabilities capabilities

unfoldable pub validate_cluster_target_spec : ClusterTargetSpec → Problems
unfolding validate_capabilities validate_packages
validate_cluster_target_spec spec =
    validate_namespaced_ref spec.connection_ref (spec_path "connectionRef")
    ++ validate_policy_refs spec.default_policy_refs (spec_path "defaultPolicyRefs")
    ++ validate_capabilities spec.capabilities
    ++ validate_packages true spec.required_packages

unfoldable pub validate_cluster_target_update :
    ClusterTargetSpec → ClusterTargetSpec → Fallible Problems (Unit {0})
validate_cluster_target_update previous current = admit (
    validate_cluster_target_spec current
    ++ validate_immutable_local_ref previous.connection_ref.name current.connection_ref.name
        (spec_path "connectionRef")
    ++ append_if (not (previous.connection_ref.namespace == current.connection_ref.namespace))
        (invalid (named "spec" ∷ named "connectionRef" ∷ named "namespace" ∷ [])))

pub record OperatorPackageSource : Type 0 where
  pub manifest_url : String
  pub chart_archive_url : String
  pub chart_path : String
  pub helm_values : List (String × String)
  pub repo_url : String
  pub path : String
  pub target_revision : String

-- A probe is the name of its CRD.
pub record OperatorPackageSpec : Type 0 where
  pub display_name : String
  pub target_namespace : String
  pub probes : List String
  pub source : OperatorPackageSource

unfoldable pub production_mode_enabled : Environment → Bool
production_mode_enabled env =
    equal_fold (trim_space (env.getenv "SERVICER_ENVIRONMENT")) "production"

unfoldable pub allow_mutable_operator_revisions : Environment → Bool
allow_mutable_operator_revisions env =
    let allow = trim_space (env.getenv "SERVICER_ALLOW_MUTABLE_OPERATOR_REVISIONS") in
    equal_fold allow "1" || equal_fold allow "true" || equal_fold allow "yes"

abbrev pub source_path : String → FieldPath
source_path name = named "spec" ∷ named "source" ∷ named name ∷ []

pub validate_source : OperatorPackageSource → Problems
validate_source source =
    let has_argo = not (is_blank source.repo_url) || not (is_blank source.path) in
    let has_chart =
      not (is_blank source.chart_archive_url)
      || not (is_blank source.chart_path)
      || not (is_empty source.helm_values) in
    let has_direct = not (is_blank source.manifest_url) || has_chart in
    append_if (not has_direct && not has_argo) (required (spec_path "source"))
    ++ append_if (is_blank source.repo_url && not (is_blank source.path))
        (required (source_path "repoURL"))
    ++ append_if (is_blank source.path && not (is_blank source.repo_url))
        (required (source_path "path"))
    ++ append_if
        (is_blank source.chart_archive_url
          && (not (is_blank source.chart_path) || not (is_empty source.helm_values)))
        (required (source_path "chartArchiveURL"))
    ++ append_if (not (is_blank source.chart_archive_url) && is_blank source.chart_path)
        (required (source_path "chartPath"))

unfoldable pub validate_operator_package_spec : Environment → OperatorPackageSpec → Problems
unfolding validate_source
validate_operator_package_spec env spec =
    append_if (is_blank spec.display_name) (required (spec_path "displayName"))
    ++ validate_source spec.source
    ++ append_if (is_empty spec.probes) (required (spec_path "probes"))
    ++ each
        (λ i crd. append_if (is_blank crd) (required (entry_child (spec_path "probes") i "crd"))) 0
        spec.probes
    ++ append_if
        (production_mode_enabled env
          && not (allow_mutable_operator_revisions env)
          && (is_blank spec.source.target_revision
              || equal_fold (trim_space spec.source.target_revision) "head"))
        (invalid (source_path "targetRevision"))

unfoldable pub validate_immutable_source : OperatorPackageSource → OperatorPackageSource → Problems
validate_immutable_source previous current =
    append_if (not (previous.repo_url == current.repo_url)) (invalid (source_path "repoURL"))
    ++ append_if (not (previous.path == current.path)) (invalid (source_path "path"))
    ++ append_if (not (previous.chart_archive_url == current.chart_archive_url))
        (invalid (source_path "chartArchiveURL"))
    ++ append_if (not (previous.chart_path == current.chart_path))
        (invalid (source_path "chartPath"))

unfoldable pub validate_operator_package_update :
    Environment → OperatorPackageSpec → OperatorPackageSpec → Fallible Problems (Unit {0})
unfolding validate_immutable_source
validate_operator_package_update env previous current = admit (
    validate_operator_package_spec env current
    ++ validate_immutable_source previous.source current.source)

unfoldable pub default_operator_package : OperatorPackageSpec → OperatorPackageSpec
default_operator_package spec = record spec {
  target_namespace = or_default spec.target_namespace "operators";
  source = record spec.source { target_revision = or_default spec.source.target_revision "HEAD" };
}
