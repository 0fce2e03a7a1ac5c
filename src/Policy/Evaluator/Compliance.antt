-- ===== src/Policy/Evaluator/Compliance.antt =====
-- internal/controllers/policy_evaluator.go: when an instance is let through.
use mathlib.Core.List.Memᴰ as MemD
use servicer.Prelude.{
  iff_trans, append_nil_iff, String, Bool, false, List, [], ◌∷◌, Option, some, ◌==◌, ◌≡◌, ◌≢◌, ◌↔◌,
  refl, ◌⊎◌, inl, inr, arith, eq_iff, Memᴰ, Bool-cases, Option-cases, append_nil, contains,
  contains_iff, eq_false_iff, not_eq_iff, ok, err, Fallible, All, ap, sym, ◌∙◌,
}
use servicer.Json.{Json}
use servicer.Api.{Tenant, Project, ServiceInstance, Lookup, found, Lookup-cases}
use servicer.Webhook.Problems.{Problem, Problems, append_if_nil}
use servicer.Policy.Rules.{PolicyRule, Library, RuleError, evaluate_policy_rule}
use servicer.Policy.Context.{build_policy_evaluation_context}
use servicer.Policy.Constraints.{
  Decoders, ServicePlan, instance_service_parameters, decode_plan_constraints,
}
use servicer.Policy.Constraints.Allows.{Allows, evaluate_constraints_iff}
use servicer.Policy.Evaluator.{
  Policy, policy_targets_kind, evaluate_curated_policy, rule_problems, handled_or, evaluate_rules,
  evaluate_defined_policy, evaluate_served, evaluate_referenced, evaluate_policies,
  merged_policy_refs, evaluate_instance_policies,
}

-- The names with a meaning of their own.
abbrev pub curated : List String
curated =
    "deny-public-ingress" ∷ "require-external-secrets" ∷ "require-backups" ∷ "protect-delete" ∷ []

cons≢nil : {p : Problem} {ps : Problems} → ◌≡◌ {A = Problems} (p ∷ ps) [] → ⊥
cons≢nil h = cc

ok_inj : {a b : Bool} → ◌≡◌ {A = Fallible RuleError Bool} (ok a) (ok b) → a ≡ b
ok_inj h = cc

curated_or_not :
    (name : String)
    → (name ≡ "deny-public-ingress")
      ⊎ ((name ≡ "require-external-secrets")
          ⊎ ((name ≡ "require-backups")
              ⊎ ((name ≡ "protect-delete") ⊎ (contains name curated ≡ false))))
curated_or_not name = elim (Bool-cases (contains name curated)) [
  | inl e ↦ elim ((contains_iff name curated).0 e) [
    | Memᴰ.head f ↦ inl f
    | Memᴰ.tail (Memᴰ.head f) ↦ inr (inl f)
    | Memᴰ.tail (Memᴰ.tail (Memᴰ.head f)) ↦ inr (inr (inl f))
    | Memᴰ.tail (Memᴰ.tail (Memᴰ.tail (Memᴰ.head f))) ↦ inr (inr (inr (inl f)))
    | Memᴰ.tail (Memᴰ.tail (Memᴰ.tail (Memᴰ.tail m))) ↦ elim m [ ]
  ]
  | inr e ↦ inr (inr (inr (inr e)))
]

module _ (lib : Library) (decoders : Decoders) (get : Option (String → Lookup Policy))
    (i : ServiceInstance) where
  -- A policy of the API that lets the instance through: it is about another kind, or none of its
  -- rules is violated.
  pub data Permits (name : String) : Type 0 where
    other_kind :
        (serve : String → Lookup Policy) (p : Policy)
        → get ≡ some serve
        → serve name ≡ found p
        → policy_targets_kind p "ServiceInstance" ≡ false
        → Permits name
    no_rule_violated :
        (serve : String → Lookup Policy) (p : Policy)
        → get ≡ some serve
        → serve name ≡ found p
        → All
            (λ rule. evaluate_policy_rule lib rule (build_policy_evaluation_context i) ≡ ok false)
            p.rules
        → Permits name

  -- The instance satisfies the policy of a name.
  pub record Complies (name : String) : Type 0 where
    pub not_public : name ≡ "deny-public-ingress" → i.exposure_mode ≢ "public-ingress"
    pub external : name ≡ "require-external-secrets" → i.secret_delivery_mode ≡ "external-secret"
    pub backed_up :
        name ≡ "require-backups"
        → (instance_service_parameters decoders i.parameters).backup_profile ≢ ""
    pub protected : name ≡ "protect-delete" → i.deletion_policy ≢ "delete"
    pub permitted : contains name curated ≡ false → Permits name

  rule_problems_nil :
      (rule : PolicyRule) (outcome : Fallible RuleError Bool)
      → (rule_problems rule outcome ≡ []) ↔ (outcome ≡ ok false)
  unfolding rule_problems
  rule_problems_nil rule (err error) = (λ h. cc, λ h. cc)
  rule_problems_nil rule (ok violated) =
      (λ h. ap ok ((append_if_nil violated _).0 h), λ h. (append_if_nil violated _).1 (ok_inj h))

  evaluate_rules_nil :
      (rules : List PolicyRule) (root : Json)
      → (evaluate_rules lib rules root ≡ [])
        ↔ All (λ rule. evaluate_policy_rule lib rule root ≡ ok false) rules
  unfolding evaluate_rules
  evaluate_rules_nil [] root = (λ h. tt, λ h. refl)
  evaluate_rules_nil (rule ∷ rules) root =
      let split =
        append_nil (rule_problems rule (evaluate_policy_rule lib rule root))
          (evaluate_rules lib rules root) in
      let head = rule_problems_nil rule (evaluate_policy_rule lib rule root) in
      let tail = evaluate_rules_nil rules root in
      (λ h. let (a, b) = split.0 h in (head.0 a, tail.0 b), λ (a, b). split.1 (head.1 a, tail.1 b))

  -- A policy that has been read.
  defined_iff :
      (p : Policy)
      → (evaluate_defined_policy lib p i ≡ []) ↔ (
          (policy_targets_kind p "ServiceInstance" ≡ false)
          ⊎ All
              (λ rule. evaluate_policy_rule lib rule (build_policy_evaluation_context i) ≡ ok false)
              p.rules)
  unfolding evaluate_defined_policy
  defined_iff p =
      let rules = evaluate_rules_nil p.rules (build_policy_evaluation_context i) in
      elim (Bool-cases (policy_targets_kind p "ServiceInstance")) [
        | inl e ↦ (
          λ h. inr (rules.0 (rw (evaluate_defined_policy, e) at h)),
          λ h. elim h [ inl f ↦ cc | inr a ↦ rw (evaluate_defined_policy, e) (rules.1 a) ],
        )
        | inr e ↦ (λ h. inl e, λ h. rw (evaluate_defined_policy, e) refl)
      ]

  Permits-of_nil : (name : String) → evaluate_referenced lib get name i ≡ [] → Permits name
  unfolding evaluate_referenced evaluate_served
  Permits-of_nil name h = elim (Option-cases get) [
    | inl e ↦ absurd (cons≢nil (rw e at h))
    | inr (serve, e) ↦ elim (Lookup-cases (serve name)) [
      | inl (p, f) ↦ elim ((defined_iff p).0 (rw f at (rw e at h))) [
        | inl other ↦ other_kind serve p e f other
        | inr all ↦ no_rule_violated serve p e f all
      ]
      | inr (inl f) ↦ absurd (cons≢nil (rw f at (rw e at h)))
      | inr (inr f) ↦ absurd (cons≢nil (rw f at (rw e at h)))
    ]
  ]

  nil_of_Permits : (name : String) → Permits name → evaluate_referenced lib get name i ≡ []
  unfolding evaluate_referenced evaluate_served
  nil_of_Permits name (other_kind serve p e f other) = rw (e, f) ((defined_iff p).1 (inl other))
  nil_of_Permits name (no_rule_violated serve p e f all) = rw (e, f) ((defined_iff p).1 (inr all))

  -- What a name adds to the problems.
  abbrev problems_of : String → Problems
  problems_of name =
      handled_or (evaluate_curated_policy decoders name i) (evaluate_referenced lib get name i)

  -- The four names.
  at_curated :
      ((problems_of "deny-public-ingress" ≡ []) ↔ (i.exposure_mode ≢ "public-ingress"))
      × ((problems_of "require-external-secrets" ≡ [])
          ↔ (i.secret_delivery_mode ≡ "external-secret"))
      × ((problems_of "require-backups" ≡ [])
          ↔ ((instance_service_parameters decoders i.parameters).backup_profile ≢ ""))
      × ((problems_of "protect-delete" ≡ []) ↔ (i.deletion_policy ≢ "delete"))
  unfolding evaluate_curated_policy handled_or
  at_curated = (
    iff_trans (append_if_nil _ _) (eq_false_iff _ _),
    iff_trans (append_if_nil _ _) (not_eq_iff _ _),
    iff_trans (append_if_nil _ _) (eq_false_iff _ _),
    iff_trans (append_if_nil _ _) (eq_false_iff _ _),
  )

  at_other :
      (name : String)
      → contains name curated ≡ false
      → problems_of name ≡ evaluate_referenced lib get name i
  unfolding evaluate_curated_policy handled_or
  at_other name h =
      let a : (name == "deny-public-ingress") ≡ false =
        ground (arith, eq_iff name "deny-public-ingress", eq_iff "deny-public-ingress" name) in
      let b : (name == "require-external-secrets") ≡ false =
        ground
          (arith, eq_iff name "require-external-secrets", eq_iff "require-external-secrets" name) in
      let c : (name == "require-backups") ≡ false =
        ground (arith, eq_iff name "require-backups", eq_iff "require-backups" name) in
      let d : (name == "protect-delete") ≡ false =
        ground (arith, eq_iff name "protect-delete", eq_iff "protect-delete" name) in
      rw (a, b, c, d) refl

  Complies-iff : (name : String) → (problems_of name ≡ []) ↔ Complies name
  Complies-iff name = (to, from)
    where
      to : problems_of name ≡ [] → Complies name
      to h = record {
        not_public = λ e. at_curated.0.0 (rw e at h);
        external = λ e. at_curated.1.0 (rw e at h);
        backed_up = λ e. at_curated.2.0 (rw e at h);
        protected = λ e. at_curated.3.0 (rw e at h);
        permitted = λ e. Permits-of_nil name (sym (at_other name e) ∙ h);
      }

      from : Complies name → problems_of name ≡ []
      from c = elim (curated_or_not name) [
        | inl e ↦ rw e (at_curated.0.1 (c.not_public e))
        | inr (inl e) ↦ rw e (at_curated.1.1 (c.external e))
        | inr (inr (inl e)) ↦ rw e (at_curated.2.1 (c.backed_up e))
        | inr (inr (inr (inl e))) ↦ rw e (at_curated.3.1 (c.protected e))
        | inr (inr (inr (inr e))) ↦ at_other name e ∙ nil_of_Permits name (c.permitted e)
      ]

  evaluate_policies_nil :
      (names : List String)
      → (evaluate_policies lib decoders get names i ≡ [])
        ↔ ((name : String) → Memᴰ name names → Complies name)
  unfolding evaluate_policies
  evaluate_policies_nil [] = (λ h name m. elim m [ ], λ h. refl)
  evaluate_policies_nil (name ∷ names) =
      let split = append_nil (problems_of name) (evaluate_policies lib decoders get names i) in
      let rest = evaluate_policies_nil names in
      (
        λ h n m.
            let (a, b) = split.0 h in
            elim (MemD.cases_cons m) [
              | inl e ↦ rw e ((Complies-iff name).0 a)
              | inr k ↦ rest.0 b n k
            ],
        λ h.
            split.1
              ((Complies-iff name).1 (h name (Memᴰ.head refl)), rest.1 (λ n m. h n (Memᴰ.tail m))),
      )

-- An instance is let through exactly when it satisfies each policy that its tenant, its project or
-- its plan names, and is within the constraints of its plan.
pub evaluate_instance_policies_iff :
    (lib : Library) (decoders : Decoders) (get : Option (String → Lookup Policy))
    → (i : ServiceInstance) (t : Option Tenant) (p : Option Project) (plan : Option ServicePlan)
    → (evaluate_instance_policies lib decoders get i t p plan ≡ []) ↔ (
        ((name : String)
          → Memᴰ name (merged_policy_refs t p plan)
          → Complies lib decoders get i name)
        × Allows
            (decode_plan_constraints decoders plan)
            (instance_service_parameters decoders i.parameters)
            i)
unfolding evaluate_instance_policies
evaluate_instance_policies_iff lib decoders get i t p plan =
    append_nil_iff (evaluate_policies_nil lib decoders get i (merged_policy_refs t p plan)) (
      evaluate_constraints_iff (decode_plan_constraints decoders plan)
        (instance_service_parameters decoders i.parameters) i)
