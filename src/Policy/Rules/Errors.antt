-- ===== src/Policy/Rules/Errors.antt =====
-- internal/controllers/policy_evaluator.go, `evaluatePolicyRule`: when a rule can not be evaluated.
use servicer.Prelude.{
  String, iff_trans, sym, ◌∙◌, Bool, Option, none, some, ◌≡◌, ◌↔◌, ◌⊎◌, inl, inr, refl,
  Option-cases, Fallible, ok, err,
}
use servicer.Json.{Json}
use servicer.Policy.Rules.{
  PolicyOperator, gt, gte, lt, lte, other, PolicyRule, Library, RuleError, not_a_number,
  no_rule_number, unsupported, as_float, compared, compare_numbers, evaluate_present,
  evaluate_operator, resolve_policy_value, evaluate_policy_rule,
}

-- The operators that compare numbers.
pub data IsNumeric : PolicyOperator → Type 0 where
  is_gt : IsNumeric gt
  is_gte : IsNumeric gte
  is_lt : IsNumeric lt
  is_lte : IsNumeric lte

pub data IsUnknown : PolicyOperator → Type 0 where
  is_other : {text : String} → IsUnknown (other text)

not_both : {operator : PolicyOperator} → IsNumeric operator → IsUnknown operator → ⊥
not_both is_gt u = elim u [ ]
not_both is_gte u = elim u [ ]
not_both is_lt u = elim u [ ]
not_both is_lte u = elim u [ ]

ok≢err : {b : Bool} {e : RuleError} → ◌≡◌ {A = Fallible RuleError Bool} (ok b) (err e) → ⊥
ok≢err h = cc

none≢some : {A : Type 0} {a : A} → ◌≡◌ {A = Option A} none (some a) → ⊥
none≢some h = cc

some_inj : {A : Type 0} {a b : A} → ◌≡◌ {A = Option A} (some a) (some b) → a ≡ b
some_inj h = cc

module _ (lib : Library) where
  -- What makes the evaluation of a rule on a value fail.
  pub data Fails (rule : PolicyRule) (operator : PolicyOperator) (value : Json) : Type 0 where
    unknown : IsUnknown operator → Fails rule operator value
    no_number : IsNumeric operator → as_float lib value ≡ none → Fails rule operator value
    no_rule_value :
        IsNumeric operator → lib.parse_float rule.value ≡ none → Fails rule operator value

  abbrev Errs : Fallible RuleError Bool → Type 0
  Errs outcome = (e : RuleError) × (outcome ≡ err e)

  compared-Errs :
      (holds : lib.Float → lib.Float → Bool) (left right : Option lib.Float)
      → Errs (compared lib holds left right) ↔ ((left ≡ none) ⊎ (right ≡ none))
  unfolding compared
  compared-Errs holds none right = (λ h. inl refl, λ h. (not_a_number, refl))
  compared-Errs holds (some l) none = (λ h. inr refl, λ h. (no_rule_number, refl))
  compared-Errs holds (some l) (some r) =
      (λ (e, h). absurd (ok≢err h), λ h. elim h [ inl f ↦ cc | inr f ↦ cc ])

  module _ (rule : PolicyRule) (value : Json) where
    numeric-Errs :
        {operator : PolicyOperator}
        → IsNumeric operator
        → (holds : lib.Float → lib.Float → Bool)
        → Errs (compare_numbers lib holds rule value) ↔ Fails rule operator value
    unfolding compare_numbers
    numeric-Errs {operator} is holds =
        iff_trans (compared-Errs holds (as_float lib value) (lib.parse_float rule.value))
          (λ h. elim h [ inl e ↦ no_number is e | inr e ↦ no_rule_value is e ], λ f. back is f)
      where
        back :
            IsNumeric operator
            → Fails rule operator value
            → (as_float lib value ≡ none) ⊎ (lib.parse_float rule.value ≡ none)
        back n (unknown u) = absurd (not_both n u)
        back n (no_number m e) = inl e
        back n (no_rule_value m e) = inr e

    silent :
        {operator : PolicyOperator} {b : Bool}
        → (IsNumeric operator → ⊥)
        → (IsUnknown operator → ⊥)
        → Errs (ok b) ↔ Fails rule operator value
    silent {operator} {b} n u = (λ (e, h). absurd (ok≢err h), none_fails)
      where
        none_fails : Fails rule operator value → Errs (ok b)
        none_fails (unknown m) = absurd (u m)
        none_fails (no_number m e) = absurd (n m)
        none_fails (no_rule_value m e) = absurd (n m)

    present-Errs :
        (operator : PolicyOperator)
        → Errs (evaluate_operator lib rule operator (some value)) ↔ Fails rule operator value
    unfolding evaluate_operator evaluate_present
    present-Errs gt = numeric-Errs is_gt (λ a b. lib.less b a)
    present-Errs gte = numeric-Errs is_gte (λ a b. lib.at_most b a)
    present-Errs lt = numeric-Errs is_lt lib.less
    present-Errs lte = numeric-Errs is_lte lib.at_most
    present-Errs (other text) = (λ h. unknown is_other, λ h. (unsupported, refl))
    present-Errs _ = silent (λ n. elim n [ ]) (λ u. elim u [ ])

  absent_passes :
      (rule : PolicyRule) (operator : PolicyOperator)
      → Errs (evaluate_operator lib rule operator none)
      → ⊥
  unfolding evaluate_operator
  absent_passes rule (other text) (e, h) = ok≢err h
  absent_passes rule _ (e, h) = ok≢err h

-- Evaluating a rule fails exactly when its path leads to a value and the operator is none of the
-- twelve, or compares numbers where the value or the rule's own value is no number.
pub evaluate_policy_rule_errs :
    (lib : Library) (rule : PolicyRule) (root : Json)
    → ((e : RuleError) × (evaluate_policy_rule lib rule root ≡ err e)) ↔ (
        (value : Json) × (resolve_policy_value root rule.path ≡ some value)
        × Fails lib rule rule.operator value)
unfolding evaluate_policy_rule
evaluate_policy_rule_errs lib rule root =
    elim (Option-cases (resolve_policy_value root rule.path)) [
      | inl e ↦ (
        λ h. absurd (absent_passes lib rule rule.operator (rw e at h)),
        λ (value, f, k). absurd (none≢some (sym e ∙ f)),
      )
      | inr (value, e) ↦
          let errs = present-Errs lib rule value rule.operator in
          (
            λ h. (value, e, errs.0 (rw e at h)),
            λ (other_value, f, k). rw e (errs.1 (rw (some_inj (sym f ∙ e)) at k)),
          )
    ]
