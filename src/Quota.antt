-- ===== src/Quota.antt =====
-- internal/controllers/quota_profiles.go and `enforceProjectQuota` of
-- internal/controllers/serviceinstance_controller.go: how many instances and namespaces a project may
-- have. The outcome of the check stands for what the controller then does; its texts are left out.
pub mod Count
pub mod Enforced
use servicer.Prelude.{
  ℕ, String, Bool, true, false, ◌&&◌, not, List, [], ◌∷◌, Option, none, some, ◌==◌, contains,
  length, concat, ℤ, pos, exceeds, increment, Fallible, ok, err, if◌then◌else◌,
}

pub record Quota : Type 0 where
  pub max_services : Option ℤ
  pub max_namespaces : Option ℤ

abbrev no_quota : Quota
no_quota = record { max_services = none; max_namespaces = none }

project_quota : ℕ → ℕ → Quota
project_quota services namespaces = record {
  max_services = some (pos services);
  max_namespaces = some (pos namespaces);
}

unfoldable pub quota_profile : String → Quota
unfolding project_quota
quota_profile name =
    if name == "tiny"
    then project_quota 1 1
    else if name == "sandbox"
    then project_quota 3 2
    else if name == "development"
    then project_quota 10 5
    else if name == "standard"
    then project_quota 20 10
    else if name == "standard-tenant"
    then project_quota 20 10
    else no_quota

-- What the check reads of a project, and of an instance.
pub record QuotaProject : Type 0 where
  pub name : String
  pub tenant_ref : String
  pub quotas : Quota
  pub effective_quota : Quota

pub record QuotaInstance : Type 0 where
  pub name : String
  pub project_ref : String
  pub is_deleting : Bool
  pub placement_namespace : String

limit_or : Option ℤ → Option ℤ → Option ℤ
limit_or none b = b
limit_or (some a) b = some a

of_profile : Option String → Quota
of_profile none = no_quota
of_profile (some profile) = quota_profile profile

-- The tenant is the name of its quota profile.
unfoldable pub effective_project_quota : QuotaProject → Option String → Quota
unfolding limit_or of_profile
effective_project_quota p tenant_profile =
    let quota = of_profile tenant_profile in
    record {
      max_services = limit_or p.quotas.max_services quota.max_services;
      max_namespaces = limit_or p.quotas.max_namespaces quota.max_namespaces;
    }

unfoldable pub resolved_namespace : QuotaProject → QuotaInstance → String
resolved_namespace p i =
    let tenant = if p.tenant_ref == "" then "tenant" else p.tenant_ref in
    concat tenant (concat "-" (concat p.name (concat "-" i.name)))

-- The namespace that an instance takes up.
unfoldable pub namespace_of : QuotaProject → QuotaInstance → String
namespace_of p i =
    if i.placement_namespace == "" then resolved_namespace p i else i.placement_namespace

-- An instance of the project that is not being deleted.
unfoldable pub counts : QuotaProject → QuotaInstance → Bool
counts p i = not i.is_deleting && i.project_ref == p.name

-- A set of names with one more.
pub insert : String → List String → List String
insert name names = if contains name names then names else name ∷ names

pub record Usage : Type 0 where
  pub service_count : ℤ
  pub namespaces : List String

-- The loop over the instances.
pub usage_from : QuotaProject → Usage → List QuotaInstance → Usage
unfolding insert
usage_from p usage [] = usage
usage_from p usage (i ∷ instances) =
    usage_from p
      (if counts p i
        then record {
          service_count = increment usage.service_count;
          namespaces =
              if namespace_of p i == ""
              then usage.namespaces
              else insert (namespace_of p i) usage.namespaces;
        }
        else usage)
      instances

pub data QuotaRefusal : Type 0 where
  service_quota_exceeded namespace_quota_exceeded unread : QuotaRefusal

pub is_over : ℤ → Option ℤ → Bool
is_over observed none = false
is_over observed (some most) = exceeds observed most

is_unlimited : Quota → Bool
is_unlimited q = elim q.max_services [
  | none ↦ elim q.max_namespaces [ none ↦ true | some n ↦ false ]
  | some n ↦ false
]

pub quota_in_force : QuotaProject → Option String → Quota
unfolding is_unlimited
quota_in_force p tenant_profile =
    if is_unlimited p.effective_quota
    then effective_project_quota p tenant_profile
    else p.effective_quota

-- Both tests.
pub compare_usage : Quota → Usage → Fallible QuotaRefusal (Unit {0})
unfolding is_over
compare_usage q usage =
    if is_over usage.service_count q.max_services
    then err service_quota_exceeded
    else if is_over (pos (length usage.namespaces)) q.max_namespaces
    then err namespace_quota_exceeded
    else ok tt

-- `none` is a list that could not be read.
unfoldable pub enforce_project_quota :
    QuotaProject → Option String → Option (List QuotaInstance) → Fallible QuotaRefusal (Unit {0})
unfolding quota_in_force usage_from compare_usage is_unlimited
enforce_project_quota p tenant_profile listed =
    let q = quota_in_force p tenant_profile in
    if is_unlimited q then ok tt else elim listed [
      | none ↦ err unread
      | some instances ↦
          compare_usage q
            (usage_from p (record { service_count = pos 0; namespaces = [] }) instances)
    ]
