-- ===== src/Examples/Provisioning.antt =====
-- The theorems on the provisioning of instances at concrete inputs.
use servicer.Prelude.{
  String, true, false, List, [], ◌∷◌, some, none, ok, refl, ◌==◌, ◌≡◌, ◌↔◌, any, pos, if◌then◌else◌,
}
use servicer.Api.{found, not_found}
use servicer.Action.{Condition}
use servicer.Quota.{QuotaInstance}
use servicer.Packages.{ClusterTarget, installed}
use servicer.Provision.{
  InstanceState, TenantState, ProjectState, ClassState, PlanState, ServiceContext, RenderResult,
  ServiceAdapter, Conditions,
}
use servicer.Provision.Gates.{Reads, Reconciler, admit_instance}
use servicer.Provision.{Ending, ended, with_phase}
use servicer.Provision.Gates.Refused.{Fair, admit_instance-Fair}
use servicer.Provision.Gates.Provisioned.{Provisionable, admit_instance_iff}
use servicer.Provision.Gates.{
  read_references, check_references, within_quota, check_packages, check_runtime, read_cluster_ref,
  render, needed_packages, resolve_cluster_target_for_project,
}
use servicer.Provision.{
  handle_dependency_error, is_status_current, resolved_cluster_name, delivery_publishing_configured,
  first_non_empty_trimmed, production_delivery_required,
}
use servicer.Policy.Evaluator.{evaluate_instance_policies, merged_policy_refs}
use servicer.Policy.Constraints.{
  evaluate_constraints, decode_plan_constraints, instance_service_parameters,
}
use servicer.Webhook.Problems.{append_if}
use servicer.Quota.{enforce_project_quota, effective_project_quota, counts, quota_profile}
use servicer.Prelude.{exceeds, increment, trim_space}
use servicer.Packages.{
  packages_ready, required_packages_for_service_instance, requires_external_secrets_operator,
  unique_package_names, package_status,
}
use servicer.Examples.Data.{acme, shop, cache}
use servicer.Examples.Policies.{library, decoders}

abbrev conditions : Conditions
conditions = record {
  set = λ cs c. c ∷ cs;
  is_true = λ cs kind. any (λ (c : Condition). if c.kind == kind then c.status else false) cs;
}

abbrev holds : String → List Condition
holds kind = record { kind = kind; status = true; reason = "Done" } ∷ []

abbrev cache_quota : QuotaInstance
cache_quota = record {
  name = "cache";
  project_ref = "shop";
  is_deleting = false;
  placement_namespace = "";
}

abbrev instance_state : InstanceState
instance_state = record {
  resource = cache;
  quota = cache_quota;
  generation = 2;
  status = record {
    observed_generation = 1;
    phase = "";
    placement_cluster = "";
    placement_namespace = "";
    conditions = [];
  };
}

abbrev tenant : TenantState
tenant = record { resource = acme; allowed_service_classes = "valkey" ∷ [] }

abbrev project : ProjectState
project = record {
  resource = shop;
  quota = record {
    name = "shop";
    tenant_ref = "acme";
    quotas = record { max_services = some (pos 1); max_namespaces = none };
    effective_quota = record { max_services = none; max_namespaces = none };
  };
  generation = 1;
  observed_generation = 1;
  conditions = holds "Ready";
  placement_cluster = "east";
}

abbrev valkey : ClassState
valkey = record {
  name = "valkey";
  driver = "valkey";
  packages = record { published = true; required_packages = "operator" ∷ [] };
  generation = 3;
  observed_generation = 3;
  conditions = holds "Accepted";
  published = true;
}

abbrev small_plan : PlanState
small_plan = record {
  service_class_ref = "valkey";
  policy = record { policy_refs = []; constraints = none };
  generation = 1;
  observed_generation = 1;
  conditions = holds "Accepted";
  published = true;
}

abbrev east_target : ClusterTarget
east_target = record {
  name = "east";
  required_packages = [];
  packages = record { name = "operator"; phase = installed } ∷ [];
}

abbrev reads : Reads
reads = record {
  Client = String;
  project = λ name. if name == "shop" then found project else not_found;
  tenant = λ name. if name == "acme" then found tenant else not_found;
  class = λ name. if name == "valkey" then found valkey else not_found;
  plan = λ name. if name == "small" then found small_plan else not_found;
  cluster_target = λ name. if name == "east" then found east_target else not_found;
  policy = λ name. not_found;
  instances = some (cache_quota ∷ []);
  target_client = λ target. found target.name;
  has_crd = λ client name. not_found;
}

abbrev artifact_package : RenderResult
artifact_package = record { package_path = "acme/shop/cache"; artifacts = "manifest" ∷ [] }

abbrev adapter : ServiceAdapter
adapter = record { validate = λ i c. some true; render = λ i c. some artifact_package }

abbrev reconciler : Reconciler
reconciler = record {
  conditions = conditions;
  library = library;
  decoders = decoders;
  adapters = λ name. if name == "valkey" then some adapter else none;
  production_mode = true;
  delivery_repo_url = "ssh://git";
  publisher = some (record { enabled = true; auto_commit = true; auto_push = true });
}

abbrev context : ServiceContext
context = record {
  tenant = tenant;
  project = project;
  class = valkey;
  plan = small_plan;
  cluster_target = some east_target;
}

admit_instance_iff_example :
    (admit_instance reconciler reads instance_state ≡ ok (context, artifact_package))
    ↔ Provisionable reconciler reads instance_state context artifact_package
admit_instance_iff_example =
    admit_instance_iff reconciler reads instance_state context artifact_package

-- And the instance of the example is provisioned.
provisioned : admit_instance reconciler reads instance_state ≡ ok (context, artifact_package)
unfolding admit_instance read_references handle_dependency_error check_references is_status_current
    evaluate_instance_policies merged_policy_refs evaluate_constraints append_if
    decode_plan_constraints within_quota enforce_project_quota effective_project_quota exceeds
    counts increment quota_profile resolved_cluster_name packages_ready
    required_packages_for_service_instance requires_external_secrets_operator unique_package_names
    instance_service_parameters trim_space check_packages check_runtime read_cluster_ref render
    needed_packages resolve_cluster_target_for_project delivery_publishing_configured
    first_non_empty_trimmed production_delivery_required package_status
provisioned = refl

-- A cluster without the project.
abbrev empty : Reads
empty = record reads { project = λ name. not_found }

abbrev unavailable : Ending
unavailable =
    ended
      (record {
        observed_generation = 2;
        phase = "Failed";
        placement_cluster = "";
        placement_namespace = "";
        conditions =
            record { kind = "Failed"; status = true; reason = "ProjectUnavailable" }
            ∷ record { kind = "Accepted"; status = false; reason = "ProjectUnavailable" }
            ∷ [];
      })
      (some 30)

admit_instance-Fair_example : Fair 2 unavailable
unfolding admit_instance read_references handle_dependency_error with_phase
admit_instance-Fair_example = admit_instance-Fair reconciler empty instance_state unavailable refl
