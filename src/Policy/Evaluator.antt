-- ===== src/Policy/Evaluator.antt =====
-- internal/controllers/policy_evaluator.go, `evaluateInstancePolicies`: the policies of the tenant, the
-- project and the plan, then the constraints of the plan.
pub mod Compliance
use servicer.Prelude.{
  ℕ, ltb, String, Bool, true, false, ◌&&◌, ◌||◌, not, List, [], ◌∷◌, ◌++◌, Option, none, some, ◌==◌,
  trim_space, split, any, map, contains, Fallible, ok, err, if◌then◌else◌,
}
use servicer.Json.{Json, Fields, str, obj, end, field}
use servicer.Api.{Tenant, Project, ServiceInstance, Lookup, found, not_found, failed}
use servicer.Webhook.Problems.{
  named, FieldPath, Problem, required, invalid, not_supported, forbidden, internal, Problems,
  append_if,
}
use servicer.Policy.Rules.{
  PolicyOperator, exists, not_exists, empty, not_empty, PolicyRule, Library, RuleError,
  evaluate_policy_rule,
}
use servicer.Policy.Context.{build_policy_evaluation_context}
use servicer.Policy.Constraints.{
  Decoders, ServicePlan, decode_plan_constraints, instance_service_parameters, evaluate_constraints,
}

pub record Policy : Type 0 where
  pub name : String
  pub target_kinds : List String
  pub rules : List PolicyRule

tenant_refs : Option Tenant → List String
tenant_refs none = []
tenant_refs (some t) = t.policy_refs

project_refs : Option Project → List String
project_refs none = []
project_refs (some p) = p.policy_refs

plan_refs : Option ServicePlan → List String
plan_refs none = []
plan_refs (some p) = p.policy_refs

unfoldable pub merged_policy_refs :
    Option Tenant → Option Project → Option ServicePlan → List String
unfolding tenant_refs project_refs plan_refs
merged_policy_refs t p plan = tenant_refs t ++ project_refs p ++ plan_refs plan

-- The four policies with a meaning of their own; `none` is any other name.
unfoldable pub evaluate_curated_policy : Decoders → String → ServiceInstance → Option Problems
evaluate_curated_policy decoders policy i =
    if policy == "deny-public-ingress"
    then some (
        append_if (i.exposure_mode == "public-ingress")
          (forbidden (named "spec" ∷ named "exposure" ∷ named "mode" ∷ [])))
    else if policy == "require-external-secrets"
    then some (
        append_if (not (i.secret_delivery_mode == "external-secret"))
          (forbidden (named "spec" ∷ named "secretPolicy" ∷ named "deliveryMode" ∷ [])))
    else if policy == "require-backups"
    then some (
        append_if ((instance_service_parameters decoders i.parameters).backup_profile == "")
          (required (named "spec" ∷ named "parameters" ∷ named "backupProfile" ∷ [])))
    else if policy == "protect-delete"
    then some (
        append_if (i.deletion_policy == "delete")
          (forbidden (named "spec" ∷ named "deletionPolicy" ∷ [])))
    else none

unfoldable pub policy_targets_kind : Policy → String → Bool
policy_targets_kind policy kind = contains kind policy.target_kinds

unfoldable pub policy_rule_field_path : String → FieldPath
policy_rule_field_path path =
    if trim_space path == "" then named "spec" ∷ [] else map named (split (trim_space path) b'.')

-- The kind of problem that a violated rule is.
rule_problem : PolicyOperator → FieldPath → Problem
rule_problem exists path = forbidden path
rule_problem not_exists path = forbidden path
rule_problem empty path = forbidden path
rule_problem not_empty path = forbidden path
rule_problem _ path = invalid path

abbrev policy_refs_path : FieldPath
policy_refs_path = named "spec" ∷ named "policyRefs" ∷ []

-- What one rule adds.
pub rule_problems : PolicyRule → Fallible RuleError Bool → Problems
unfolding rule_problem
rule_problems rule (err error) = internal policy_refs_path ∷ []
rule_problems rule (ok violated) =
    append_if violated (rule_problem rule.operator (policy_rule_field_path rule.path))

-- The loop over the rules.
pub evaluate_rules : Library → List PolicyRule → Json → Problems
unfolding rule_problems
evaluate_rules lib [] root = []
evaluate_rules lib (rule ∷ rules) root =
    rule_problems rule (evaluate_policy_rule lib rule root) ++ evaluate_rules lib rules root

unfoldable pub evaluate_defined_policy : Library → Policy → ServiceInstance → Problems
unfolding evaluate_rules
evaluate_defined_policy lib policy i =
    if not (policy_targets_kind policy "ServiceInstance")
    then []
    else evaluate_rules lib policy.rules (build_policy_evaluation_context i)

-- What reading a policy came to.
pub evaluate_served : Library → Lookup Policy → ServiceInstance → Problems
evaluate_served lib (found policy) i = evaluate_defined_policy lib policy i
evaluate_served lib Lookup.not_found i = Problem.not_found policy_refs_path ∷ []
evaluate_served lib failed i = internal policy_refs_path ∷ []

-- A policy that is no curated one, as the API knows it; without a client it is an error.
pub evaluate_referenced :
    Library → Option (String → Lookup Policy) → String → ServiceInstance → Problems
unfolding evaluate_served
evaluate_referenced lib none name i = internal (named "spec" ∷ []) ∷ []
evaluate_referenced lib (some get) name i = evaluate_served lib (get name) i

-- `handled` or not.
pub handled_or : Option Problems → Problems → Problems
handled_or (some problems) rest = problems
handled_or none rest = rest

-- The loop over the names of the policies.
pub evaluate_policies :
    Library → Decoders → Option (String → Lookup Policy) → List String → ServiceInstance → Problems
unfolding evaluate_referenced handled_or
evaluate_policies lib decoders get [] i = []
evaluate_policies lib decoders get (name ∷ names) i =
    handled_or (evaluate_curated_policy decoders name i) (evaluate_referenced lib get name i)
    ++ evaluate_policies lib decoders get names i

unfoldable pub evaluate_instance_policies :
    Library
    → Decoders
    → Option (String → Lookup Policy)
    → ServiceInstance
    → Option Tenant
    → Option Project
    → Option ServicePlan
    → Problems
unfolding evaluate_policies
evaluate_instance_policies lib decoders get i t p plan =
    evaluate_policies lib decoders get (merged_policy_refs t p plan) i
    ++ evaluate_constraints (decode_plan_constraints decoders plan)
        (instance_service_parameters decoders i.parameters) i
