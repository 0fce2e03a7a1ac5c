-- ===== src/Examples/Data.antt =====
-- A tenant with a project and an instance, its users, and an API that serves them.
use servicer.Prelude.{String, true, List, [], ◌∷◌, none, ◌==◌, if◌then◌else◌}
use servicer.Api.{Tenant, Project, ServiceInstance, ActionCapability, found, not_found}
use servicer.Auth.{Actor}
use servicer.Tenancy.{Client}

abbrev pub acme : Tenant
acme = record {
  name = "acme";
  owner_users = [];
  owner_groups = "ops" ∷ [];
  policy_refs = [];
  quota_profile = "";
}

abbrev pub shop : Project
shop = record {
  name = "shop";
  tenant_ref = "acme";
  policy_refs = [];
  max_services = none;
  max_namespaces = none;
  cluster_ref = none;
}

abbrev pub cache : ServiceInstance
cache = record {
  name = "cache";
  labels = [];
  version = "";
  secret_delivery_mode = "manual";
  external_secret_provider = "";
  project_ref = "shop";
  service_class_ref = "valkey";
  service_plan_ref = "small";
  exposure_mode = "";
  delivery_mode = "";
  deletion_policy = "";
  parameters = none;
  placement_cluster = "east";
  topology = record {
    mode = "";
    primary_cluster = "";
    standby_clusters = [];
    failover_readiness = "";
  };
}

-- An actor with these platform roles, in the group `ops`.
abbrev pub actor_with : String → List String → Actor
actor_with name roles = record {
  name = name;
  email = "";
  user_name = "";
  provider = "";
  subject = "";
  authenticated = true;
  roles = roles;
  tenant_roles = [];
  groups = "ops" ∷ [];
}

abbrev pub client : Client
client = record {
  get_tenant = λ name. if "acme" == name then found acme else not_found;
  get_project = λ name. if "shop" == name then found shop else not_found;
}

abbrev pub backup_capability : ActionCapability
backup_capability = record { name = "purge"; requires_approval = true }
