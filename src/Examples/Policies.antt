-- ===== src/Examples/Policies.antt =====
-- The theorems on policies at concrete inputs.
use servicer.Prelude.{
  ℕ, ltb, leb, String, false, [], ◌∷◌, none, some, ◌==◌, ◌≡◌, ◌≢◌, ◌↔◌, Memᴰ, ok, err,
  if◌then◌else◌,
}
use servicer.Json.{Json, str}
use servicer.Api.{Lookup, found}
use servicer.Policy.Rules.{
  gt, PolicyRule, Library, RuleError, no_path_value, validate_policy_spec, resolve_policy_value,
  evaluate_policy_rule,
}
use servicer.Policy.Rules.Errors.{Fails, evaluate_policy_rule_errs}
use servicer.Policy.Context.{build_policy_evaluation_context}
use servicer.Policy.Constraints.{
  Decoders, ServicePlan, decode_plan_constraints, instance_service_parameters,
}
use servicer.Policy.Constraints.Allows.{Allows}
use servicer.Policy.Evaluator.{Policy, merged_policy_refs, evaluate_instance_policies}
use servicer.Policy.Evaluator.Compliance.{Complies, evaluate_instance_policies_iff}
use servicer.Webhook.Policies.{
  PolicySpec, rule_fault, validate_policy_webhook_spec, validators_agree,
}
use servicer.Examples.Data.{acme, shop, cache}

-- A library whose floats are naturals, and in which the only text of a number is "2".
abbrev pub library : Library
library = record {
  Float = ℕ;
  sprint = λ value. elim value [ str s ↦ s | _ ↦ "" ];
  parse_float = λ s. if s == "2" then some 2 else none;
  of_num = λ n. n.digits;
  less = ltb;
  at_most = leb;
}

abbrev pub decoders : Decoders
decoders = record {
  constraints = λ raw. record {
    allowed_exposure_modes = "cluster-internal" ∷ [];
    allowed_deletion_policies = [];
    required_secret_delivery_mode = "";
    max_replicas = none;
    require_backup_profile = false;
  };
  parameters = λ raw. record { replicas = none; instances = none; backup_profile = "" };
}

-- A rule that compares the version with a text that is no number.
abbrev rule : PolicyRule
rule = record { name = "old"; path = "spec.version"; operator = gt; value = "many"; values = [] }

abbrev policies : String → Lookup Policy
policies name =
    found (record { name = name; target_kinds = "ServiceInstance" ∷ []; rules = rule ∷ [] })

abbrev plan : ServicePlan
plan = record { policy_refs = "protect-delete" ∷ "versions" ∷ []; constraints = some Json.null }

evaluate_instance_policies_iff_example :
    (evaluate_instance_policies library decoders
        (some policies)
        cache
        (some acme)
        (some shop)
        (some plan)
      ≡ [])
    ↔ (((name : String)
          → Memᴰ name (merged_policy_refs (some acme) (some shop) (some plan))
          → Complies library decoders (some policies) cache name)
        × Allows
            (decode_plan_constraints decoders (some plan))
            (instance_service_parameters decoders cache.parameters)
            cache)
evaluate_instance_policies_iff_example =
    evaluate_instance_policies_iff library decoders (some policies) cache (some acme) (some shop)
      (some plan)

evaluate_policy_rule_errs_example :
    ((e : RuleError) × (evaluate_policy_rule library rule (build_policy_evaluation_context cache)
        ≡ err e))
    ↔ ((value : Json) × (resolve_policy_value (build_policy_evaluation_context cache) "spec.version"
          ≡ some value)
        × Fails library rule gt value)
evaluate_policy_rule_errs_example =
    evaluate_policy_rule_errs library rule (build_policy_evaluation_context cache)

abbrev versions : PolicySpec
versions = record { target_kinds = "ServiceInstance" ∷ []; rules = rule ∷ [] }

validators_agree_example :
    ((validate_policy_webhook_spec versions ≡ ok tt) ↔ (
      (versions.target_kinds ≢ [])
      × (versions.rules ≢ [])
      × (validate_policy_spec (rule ∷ []) ≡ ok tt)))
    × ((validate_policy_webhook_spec versions ≡ err (rule_fault no_path_value))
        ↔ ((versions.target_kinds ≢ []) × (validate_policy_spec (rule ∷ []) ≡ err no_path_value)))
validators_agree_example = validators_agree versions no_path_value
