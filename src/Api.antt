-- ===== src/Api.antt =====
-- api/v1alpha1: the resources, with the fields that the modelled code reads or writes. Texts that
-- only tell a reader what happened (`Message`) are left out.
use servicer.Prelude.{ℕ, String, Bool, List, Option, ◌≡◌, refl, ◌⊎◌, inl, inr}
use servicer.Json.{Json}

pub record Tenant : Type 0 where
  pub name : String
  pub owner_users : List String
  pub owner_groups : List String
  pub policy_refs : List String
  pub quota_profile : String

pub record Project : Type 0 where
  pub name : String
  pub tenant_ref : String
  pub policy_refs : List String
  pub max_services : Option ℕ
  pub max_namespaces : Option ℕ
  pub cluster_ref : Option String

pub record CacheStandbyStatus : Type 0 where
  pub cluster_name : String
  pub ready : Bool
  pub resync_required : Bool
  pub lag_observed : Bool
  pub replication_lag_seconds : ℕ

pub record CacheTopology : Type 0 where
  pub mode : String
  pub primary_cluster : String
  pub standby_clusters : List CacheStandbyStatus
  pub failover_readiness : String

pub record ServiceInstance : Type 0 where
  pub name : String
  pub labels : List (String × String)
  pub version : String
  pub secret_delivery_mode : String
  pub external_secret_provider : String
  pub project_ref : String
  pub service_class_ref : String
  pub service_plan_ref : String
  pub exposure_mode : String
  pub delivery_mode : String
  pub deletion_policy : String
  pub parameters : Option Json
  pub placement_cluster : String
  pub topology : CacheTopology

pub record ActionCapability : Type 0 where
  pub name : String
  pub requires_approval : Bool

-- The outcome of a `Get` of the cluster's API.
pub data Lookup {ℓ} (A : Type ℓ) : Type ℓ where
  found : A → Lookup A
  not_found : Lookup A
  failed : Lookup A

pub Lookup-cases {ℓ} :
    {A : Type ℓ} (l : Lookup A) → ((a : A) × (l ≡ found a)) ⊎ ((l ≡ not_found) ⊎ (l ≡ failed))
Lookup-cases (found a) = inl (a, refl)
Lookup-cases not_found = inr (inl refl)
Lookup-cases failed = inr (inr refl)
