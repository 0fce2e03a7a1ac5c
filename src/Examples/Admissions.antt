-- ===== src/Examples/Admissions.antt =====
-- The theorems on the webhooks and the quota at concrete inputs.
use servicer.Prelude.{
  ◌≤◌, String, true, false, List, [], ◌∷◌, none, some, ◌≡◌, ◌≢◌, ◌↔◌, refl, arith, Memᴰ, Distinct,
  contains, keep, length, trim_space, max_int32, pos, ok,
}
use servicer.Webhook.Problems.{Environment, append_if, each, admit}
use servicer.Webhook.Access.{
  RoleBindingSpec, validate_role_binding_spec, validate_role_binding_update,
}
use servicer.Webhook.Tenants.{ProjectSpec}
use servicer.Webhook.Checks.{validate_local_ref, validate_immutable_local_ref}
use servicer.Webhook.Admission.{
  project, role_binding, default_object, validate_create, validate_update,
}
use servicer.Webhook.Admission.Immutable.{immutable}
use servicer.Webhook.Admission.Updates.{validate_update_iff}
use servicer.Webhook.Admission.Defaults.{default_object_settles}
use servicer.Webhook.Admission.History.{Stored, created, updated, stored_keeps}
use servicer.Quota.{
  QuotaProject, QuotaInstance, counts, namespace_of, quota_in_force, enforce_project_quota,
}
use servicer.Quota.Enforced.{Within, enforce_project_quota_iff}

abbrev env : Environment
env = record {
  getenv = λ name. "";
  unmarshal = λ raw. none;
  is_qualified_name = λ key. true;
  is_valid_label_value = λ value. true;
}

abbrev readers : RoleBindingSpec
readers = record {
  scope = "tenant";
  tenant_ref = some "acme";
  subjects = "ann" ∷ [];
  roles = "reader" ∷ [];
}

-- The same binding with one subject more.
abbrev more_readers : RoleBindingSpec
more_readers = record readers { subjects = "ann" ∷ "bob" ∷ [] }

validate_update_iff_example : (validate_update env role_binding readers more_readers ≡ ok tt) ↔ (
    (validate_create env role_binding more_readers ≡ ok tt)
    × (immutable role_binding readers ≡ immutable role_binding more_readers))
validate_update_iff_example = validate_update_iff env role_binding readers more_readers

abbrev webshop : ProjectSpec
webshop = record {
  name = "webshop";
  tenant_ref = "acme";
  namespace_mode = "";
  namespace_prefix = "";
  policy_refs = [];
  labels = [];
}

default_object_settles_example :
    (default_object project (default_object project webshop) ≡ default_object project webshop)
    × (immutable project (default_object project webshop) ≡ immutable project webshop)
default_object_settles_example = default_object_settles project webshop

readers_created : validate_create env role_binding (default_object role_binding readers) ≡ ok tt
unfolding validate_create default_object validate_role_binding_spec append_if each admit
    validate_local_ref validate_immutable_local_ref trim_space
readers_created = refl

readers_updated :
    validate_update env role_binding readers (default_object role_binding more_readers) ≡ ok tt
unfolding validate_update default_object validate_role_binding_update validate_role_binding_spec
    append_if each admit validate_local_ref validate_immutable_local_ref trim_space
readers_updated = refl

readers_stored : Stored role_binding env readers more_readers
unfolding default_object
readers_stored = updated (created env readers readers_created) env more_readers readers_updated

stored_keeps_example :
    (immutable role_binding readers ≡ immutable role_binding more_readers)
    × (default_object role_binding more_readers ≡ more_readers)
    × (validate_create env role_binding more_readers ≡ ok tt)
stored_keeps_example = stored_keeps role_binding env readers more_readers readers_stored

abbrev small : QuotaProject
small = record {
  name = "shop";
  tenant_ref = "acme";
  quotas = record { max_services = some (pos 1); max_namespaces = none };
  effective_quota = record { max_services = none; max_namespaces = none };
}

abbrev service : String → QuotaInstance
service name = record {
  name = name;
  project_ref = "shop";
  is_deleting = false;
  placement_namespace = "";
}

abbrev services : List QuotaInstance
services = service "cache" ∷ service "db" ∷ []

few : length (keep (counts small) services) ≤ max_int32
unfolding counts
few = omega arith

enforce_project_quota_iff_example :
    (names : List String) × Distinct names
    × ((n : String)
        → (contains n names ≡ true) ↔ (
            (i : QuotaInstance) × Memᴰ i services
            × (counts small i ≡ true)
            × (namespace_of small i ≡ n)
            × (n ≢ "")))
    × ((enforce_project_quota small (some "tiny") (some services) ≡ ok tt) ↔ (
        Within
          (length (keep (counts small) services))
          (quota_in_force small (some "tiny")).max_services
        × Within (length names) (quota_in_force small (some "tiny")).max_namespaces))
enforce_project_quota_iff_example = enforce_project_quota_iff small (some "tiny") services few
