-- ===== src/Policy/Constraints.antt =====
-- internal/controllers/policy_evaluator.go: the constraints of a service plan. The decoding of raw JSON
-- into the two structures is a parameter.
pub mod Allows
use servicer.Prelude.{
  ℤ, exceeds, is_empty, ℕ, ltb, String, Bool, true, false, ◌&&◌, not, List, [], ◌∷◌, ◌++◌, Option,
  none, some, ◌==◌, contains,
}
use servicer.Json.{Json}
use servicer.Api.{ServiceInstance}
use servicer.Webhook.Problems.{named, required, invalid, not_supported, Problems, append_if}

pub record PlanConstraints : Type 0 where
  pub allowed_exposure_modes : List String
  pub allowed_deletion_policies : List String
  pub required_secret_delivery_mode : String
  pub max_replicas : Option ℤ
  pub require_backup_profile : Bool

pub record ServiceInstanceParameters : Type 0 where
  pub replicas : Option ℤ
  pub instances : Option ℤ
  pub backup_profile : String

-- `json.Unmarshal` into the two structures, with whatever it leaves there when it fails.
pub record Decoders : Type 0 where
  pub constraints : Json → PlanConstraints
  pub parameters : Json → ServiceInstanceParameters

pub record ServicePlan : Type 0 where
  pub policy_refs : List String
  pub constraints : Option Json

or_else {ℓ} : {A : Type ℓ} → Option A → Option A → Option A
or_else none b = b
or_else (some a) b = some a

unfoldable pub decode_plan_constraints : Decoders → Option ServicePlan → PlanConstraints
decode_plan_constraints decoders plan = constraints_of (raw_of plan)
  where
    raw_of : Option ServicePlan → Option Json
    raw_of none = none
    raw_of (some p) = p.constraints

    constraints_of : Option Json → PlanConstraints
    constraints_of none = record {
      allowed_exposure_modes = [];
      allowed_deletion_policies = [];
      required_secret_delivery_mode = "";
      max_replicas = none;
      require_backup_profile = false;
    }
    constraints_of (some raw) = decoders.constraints raw

unfoldable pub instance_service_parameters : Decoders → Option Json → ServiceInstanceParameters
instance_service_parameters decoders none = record {
  replicas = none;
  instances = none;
  backup_profile = "";
}
instance_service_parameters decoders (some raw) = decoders.parameters raw

too_many : Option ℤ → Option ℤ → Bool
too_many (some most) (some replicas) = exceeds replicas most
too_many _ _ = false

-- What the plan demands.
unfoldable pub evaluate_constraints :
    PlanConstraints → ServiceInstanceParameters → ServiceInstance → Problems
unfolding too_many or_else
evaluate_constraints c params i =
    append_if
      (not (is_empty c.allowed_exposure_modes)
        && not (contains i.exposure_mode c.allowed_exposure_modes))
      (not_supported (named "spec" ∷ named "exposure" ∷ named "mode" ∷ []))
    ++ append_if
        (not (is_empty c.allowed_deletion_policies)
          && not (contains i.deletion_policy c.allowed_deletion_policies))
        (not_supported (named "spec" ∷ named "deletionPolicy" ∷ []))
    ++ append_if
        (not (c.required_secret_delivery_mode == "")
          && not (i.secret_delivery_mode == c.required_secret_delivery_mode))
        (invalid (named "spec" ∷ named "secretPolicy" ∷ named "deliveryMode" ∷ []))
    ++ append_if (too_many c.max_replicas (or_else params.replicas params.instances))
        (invalid (named "spec" ∷ named "parameters" ∷ named "replicas" ∷ []))
    ++ append_if (c.require_backup_profile && params.backup_profile == "")
        (required (named "spec" ∷ named "parameters" ∷ named "backupProfile" ∷ []))
