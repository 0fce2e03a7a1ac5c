-- ===== src/Policy/Rules.antt =====
-- internal/controllers/policy_evaluator.go: one rule of a policy, its validation and its evaluation
-- over the values of an instance.
pub mod Errors
use servicer.Prelude.{
  is_empty, is_blank, is_given, ℕ, String, Bool, true, false, ◌||◌, not, List, [], ◌∷◌, Option,
  none, some, ◌==◌, trim_space, split, any, Fallible, ok, err, ◌>>◌, check, if◌then◌else◌,
}
use servicer.Json.{Json, Number, Fields, Items, null, num, str, arr, obj, nil, end, field}

-- `other` is a text that names no operator.
pub data PolicyOperator : Type 0 where
  equals not_equals in_list not_in exists not_exists gt gte lt lte empty not_empty : PolicyOperator
  other : String → PolicyOperator

pub record PolicyRule : Type 0 where
  pub name : String
  pub path : String
  pub operator : PolicyOperator
  pub value : String
  pub values : List String

-- What the evaluation uses of other packages: `fmt.Sprint` of a decoded value, `strconv.ParseFloat`,
-- and the type `float64` with the float of a JSON number and the comparisons.
pub record Library : Type 1 where
  pub Float : Type 0
  pub sprint : Json → String
  pub parse_float : String → Option Float
  pub of_num : Number → Float
  pub less : Float → Float → Bool
  pub at_most : Float → Float → Bool

pub data RuleFault : Type 0 where
  no_name no_path no_path_values no_path_value : RuleFault

-- The switch on the operator.
unfoldable pub check_operator : PolicyRule → PolicyOperator → Fallible RuleFault (Unit {0})
check_operator rule exists = check (not (is_blank rule.path)) no_path
check_operator rule not_exists = check (not (is_blank rule.path)) no_path
check_operator rule empty = check (not (is_blank rule.path)) no_path
check_operator rule not_empty = check (not (is_blank rule.path)) no_path
check_operator rule in_list =
    check (not (is_blank rule.path || is_empty rule.values)) no_path_values
check_operator rule not_in = check (not (is_blank rule.path || is_empty rule.values)) no_path_values
check_operator rule _ = check (not (is_blank rule.path || is_blank rule.value)) no_path_value

unfoldable pub validate_policy_spec : List PolicyRule → Fallible RuleFault (Unit {0})
unfolding check_operator
validate_policy_spec [] = ok tt
validate_policy_spec (rule ∷ rules) =
    check (not (is_blank rule.name)) no_name
    >> (check_operator rule rule.operator >> validate_policy_spec rules)

-- `node[segment]`, where the value is a map.
pub member : String → Json → Option Json
member segment (obj fields) = find fields
  where
    find : Fields → Option Json
    find end = none
    find (field name value rest) = if name == segment then some value else find rest
member segment _ = none

-- The loop over the segments of a path.
pub resolve_from : List String → Json → Option Json
unfolding member
resolve_from [] current = some current
resolve_from (segment ∷ segments) current =
    if segment == ""
    then resolve_from segments current
    else elim (member segment current) [ none ↦ none | some next ↦ resolve_from segments next ]

unfoldable pub resolve_policy_value : Json → String → Option Json
unfolding resolve_from
resolve_policy_value root path = resolve_from (split (trim_space path) b'.') root

pub data RuleError : Type 0 where
  not_a_number no_rule_number unsupported : RuleError

module _ (lib : Library) where
  -- `compareString(value, candidate) == 0`.
  pub same_text : Json → String → Bool
  same_text value candidate = trim_space (lib.sprint value) == trim_space candidate

  pub as_float : Json → Option lib.Float
  as_float (num n) = some (lib.of_num n)
  as_float value = lib.parse_float (trim_space (lib.sprint value))

  pub is_empty_value : Json → Bool
  is_empty_value null = true
  is_empty_value (str s) = trim_space s == ""
  is_empty_value (arr nil) = true
  is_empty_value (arr (Items.cons v vs)) = false
  is_empty_value (obj end) = true
  is_empty_value (obj (field name v rest)) = false
  is_empty_value value = trim_space (lib.sprint value) == ""

  pub is_absent_or_empty : Option Json → Bool
  unfolding is_empty_value
  is_absent_or_empty none = true
  is_absent_or_empty (some value) = is_empty_value value

  -- A comparison of two numbers that may not be any.
  pub compared :
      (lib.Float → lib.Float → Bool) → Option lib.Float → Option lib.Float → Fallible RuleError Bool
  compared holds none right = err not_a_number
  compared holds (some left) none = err no_rule_number
  compared holds (some left) (some right) = ok (holds left right)

  pub compare_numbers : (lib.Float → lib.Float → Bool) → PolicyRule → Json → Fallible RuleError Bool
  unfolding as_float compared
  compare_numbers holds rule value = compared holds (as_float value) (lib.parse_float rule.value)

  -- The second switch, on a value that is there.
  pub evaluate_present : PolicyRule → PolicyOperator → Json → Fallible RuleError Bool
  unfolding same_text compare_numbers
  evaluate_present rule equals value = ok (same_text value rule.value)
  evaluate_present rule not_equals value = ok (not (same_text value rule.value))
  evaluate_present rule in_list value = ok (any (same_text value) rule.values)
  evaluate_present rule not_in value = ok (not (any (same_text value) rule.values))
  evaluate_present rule gt value = compare_numbers (λ a b. lib.less b a) rule value
  evaluate_present rule gte value = compare_numbers (λ a b. lib.at_most b a) rule value
  evaluate_present rule lt value = compare_numbers lib.less rule value
  evaluate_present rule lte value = compare_numbers lib.at_most rule value
  evaluate_present rule _ value = err unsupported

  -- Both switches: an absent value violates no rule that compares it.
  pub evaluate_operator : PolicyRule → PolicyOperator → Option Json → Fallible RuleError Bool
  unfolding is_absent_or_empty evaluate_present
  evaluate_operator rule exists found = ok (is_given found)
  evaluate_operator rule not_exists found = ok (not (is_given found))
  evaluate_operator rule empty found = ok (is_absent_or_empty found)
  evaluate_operator rule not_empty found = ok (not (is_absent_or_empty found))
  evaluate_operator rule operator none = ok false
  evaluate_operator rule operator (some value) = evaluate_present rule operator value

  -- True where the rule is violated.
  unfoldable pub evaluate_policy_rule : PolicyRule → Json → Fallible RuleError Bool
  unfolding evaluate_operator
  evaluate_policy_rule rule root =
      evaluate_operator rule rule.operator (resolve_policy_value root rule.path)
