-- ===== src/Webhook/Policies.antt =====
-- api/v1alpha1/webhook_validation.go: the kind `Policy`, whose validation stands a second time in
-- `validatePolicySpec` of internal/controllers/policy_evaluator.go.
use servicer.Prelude.{
  ◌↔◌, ◌≢◌, sym, ◌∙◌, is_empty, is_blank, String, Bool, true, false, ◌||◌, not, List, [], ◌∷◌, ◌≡◌,
  refl, Fallible, ok, err, ◌>>◌, check,
}
use servicer.Webhook.Problems.{named, invalid, Problems}
use servicer.Policy.Rules.{
  PolicyOperator, in_list, not_in, exists, not_exists, empty, not_empty, PolicyRule, RuleFault,
  no_name, no_path, no_path_values, no_path_value, check_operator, validate_policy_spec,
}

pub record PolicySpec : Type 0 where
  pub target_kinds : List String
  pub rules : List PolicyRule

pub data PolicyFault : Type 0 where
  no_targets no_rules : PolicyFault
  rule_fault : RuleFault → PolicyFault

-- What the switch on the operator wants of a rule.
pub check_rule : PolicyRule → PolicyOperator → Fallible PolicyFault (Unit {0})
check_rule rule exists = check (not (is_blank rule.path)) (rule_fault no_path)
check_rule rule not_exists = check (not (is_blank rule.path)) (rule_fault no_path)
check_rule rule empty = check (not (is_blank rule.path)) (rule_fault no_path)
check_rule rule not_empty = check (not (is_blank rule.path)) (rule_fault no_path)
check_rule rule in_list =
    check (not (is_blank rule.path || is_empty rule.values)) (rule_fault no_path_values)
check_rule rule not_in =
    check (not (is_blank rule.path || is_empty rule.values)) (rule_fault no_path_values)
check_rule rule _ =
    check (not (is_blank rule.path || is_blank rule.value)) (rule_fault no_path_value)

pub check_rules : List PolicyRule → Fallible PolicyFault (Unit {0})
unfolding check_rule
check_rules [] = ok tt
check_rules (rule ∷ rules) =
    check (not (is_blank rule.name)) (rule_fault no_name)
    >> (check_rule rule rule.operator >> check_rules rules)

unfoldable pub validate_policy_webhook_spec : PolicySpec → Fallible PolicyFault (Unit {0})
unfolding check_rules
validate_policy_webhook_spec spec =
    check (not (is_empty spec.target_kinds)) no_targets
    >> (check (not (is_empty spec.rules)) no_rules >> check_rules spec.rules)

-- `validatePolicy`: any fault is one problem.
pub policy_problems : PolicySpec → Problems
policy_problems spec = elim (validate_policy_webhook_spec spec) [
  | ok passed ↦ []
  | err fault ↦ invalid (named "spec" ∷ []) ∷ []
]

-- The outcome of a call in the words of its caller.
abbrev pub rethrow : Fallible RuleFault (Unit {0}) → Fallible PolicyFault (Unit {0})
rethrow (ok passed) = ok passed
rethrow (err fault) = err (rule_fault fault)

rethrow-check :
    (test : Bool) (fault : RuleFault) → check test (rule_fault fault) ≡ rethrow (check test fault)
rethrow-check true fault = refl
rethrow-check false fault = refl

check_operator_agrees :
    (rule : PolicyRule) (operator : PolicyOperator)
    → check_rule rule operator ≡ rethrow (check_operator rule operator)
unfolding check_rule check_operator
check_operator_agrees rule exists = rethrow-check (not (is_blank rule.path)) no_path
check_operator_agrees rule not_exists = rethrow-check (not (is_blank rule.path)) no_path
check_operator_agrees rule empty = rethrow-check (not (is_blank rule.path)) no_path
check_operator_agrees rule not_empty = rethrow-check (not (is_blank rule.path)) no_path
check_operator_agrees rule in_list =
    rethrow-check (not (is_blank rule.path || is_empty rule.values)) no_path_values
check_operator_agrees rule not_in =
    rethrow-check (not (is_blank rule.path || is_empty rule.values)) no_path_values
check_operator_agrees rule _ =
    rethrow-check (not (is_blank rule.path || is_blank rule.value)) no_path_value

rethrow-seq : (a b : Fallible RuleFault (Unit {0})) → (rethrow a >> rethrow b) ≡ rethrow (a >> b)
rethrow-seq (ok passed) b = refl
rethrow-seq (err fault) b = refl

check_rules_agree :
    (rules : List PolicyRule) → check_rules rules ≡ rethrow (validate_policy_spec rules)
unfolding check_rules validate_policy_spec
check_rules_agree [] = refl
check_rules_agree (rule ∷ rules) =
    rw
      (
        rethrow-check (not (is_blank rule.name)) no_name,
        check_operator_agrees rule rule.operator,
        check_rules_agree rules,
        rethrow-seq (check_operator rule rule.operator) (validate_policy_spec rules),
      )
      (rethrow-seq (check (not (is_blank rule.name)) no_name)
        (check_operator rule rule.operator >> validate_policy_spec rules))

rethrow_iff :
    (outcome : Fallible RuleFault (Unit {0}))
    → ((rethrow outcome ≡ ok tt) ↔ (outcome ≡ ok tt))
      × ((fault : RuleFault) → (rethrow outcome ≡ err (rule_fault fault)) ↔ (outcome ≡ err fault))
rethrow_iff (ok passed) = ((λ h. refl, λ h. refl), λ fault. (λ h. cc, λ h. cc))
rethrow_iff (err fault) = ((λ h. cc, λ h. cc), λ other. (λ h. cc, λ h. cc))

abbrev spec_of : List String → List PolicyRule → PolicySpec
spec_of kinds rules = record { target_kinds = kinds; rules = rules }

agree :
    (kinds : List String) (rules : List PolicyRule)
    → ((validate_policy_webhook_spec (spec_of kinds rules) ≡ ok tt)
        ↔ ((kinds ≢ []) × (rules ≢ []) × (validate_policy_spec rules ≡ ok tt)))
      × ((fault : RuleFault)
          → (validate_policy_webhook_spec (spec_of kinds rules) ≡ err (rule_fault fault))
            ↔ ((kinds ≢ []) × (validate_policy_spec rules ≡ err fault)))
unfolding validate_policy_webhook_spec validate_policy_spec
agree [] rules =
    ((λ h. cc, λ (k, r, v). absurd (k refl)), λ fault. (λ h. cc, λ (k, v). absurd (k refl)))
agree (kind ∷ kinds) [] =
    ((λ h. cc, λ (k, r, v). absurd (r refl)), λ fault. (λ h. cc, λ (k, v). cc))
agree (kind ∷ kinds) (rule ∷ rules) =
    let same = check_rules_agree (rule ∷ rules) in
    let (passes, fails) = rethrow_iff (validate_policy_spec (rule ∷ rules)) in
    (
      (λ h. (λ e. cc, λ e. cc, passes.0 (sym same ∙ h)), λ (k, r, v). same ∙ passes.1 v),
      λ fault. (λ h. (λ e. cc, (fails fault).0 (sym same ∙ h)), λ (k, v). same ∙ (fails fault).1 v),
    )

-- The webhook lets a policy in exactly when it has a target and a rule and the controller's validation
-- of its rules passes; of its rules both report the same first fault.
pub validators_agree :
    (spec : PolicySpec) (fault : RuleFault)
    → ((validate_policy_webhook_spec spec ≡ ok tt) ↔ (
        (spec.target_kinds ≢ []) × (spec.rules ≢ []) × (validate_policy_spec spec.rules ≡ ok tt)))
      × ((validate_policy_webhook_spec spec ≡ err (rule_fault fault))
          ↔ ((spec.target_kinds ≢ []) × (validate_policy_spec spec.rules ≡ err fault)))
validators_agree spec fault =
    let (passes, fails) = agree spec.target_kinds spec.rules in (passes, fails fault)
