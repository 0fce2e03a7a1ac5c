-- ===== src/Policy/Constraints/Allows.antt =====
-- internal/controllers/policy_evaluator.go: when the constraints of a plan are met.
use servicer.Prelude.{
  ℤ, exceeds, is_empty, String, Bool, true, false, ◌&&◌, not, List, [], ◌∷◌, Option, none, some,
  ◌==◌, ◌≡◌, ◌≢◌, ◌↔◌, refl, ◌⊎◌, inl, inr, arith, eq_iff, eq_false_iff, Memᴰ, Bool-cases,
  append_nil_iff, iff_trans, contains, contains_iff,
}
use servicer.Api.{ServiceInstance}
use servicer.Webhook.Problems.{append_if_iff}
use servicer.Policy.Constraints.{
  PlanConstraints, ServiceInstanceParameters, or_else, too_many, evaluate_constraints,
}

-- An empty list allows everything.
abbrev pub Allowed : String → List String → Type 0
Allowed value choices = (choices ≡ []) ⊎ Memᴰ value choices

-- An instance is within the constraints of its plan.
pub record Allows (c : PlanConstraints) (params : ServiceInstanceParameters) (i : ServiceInstance)
    : Type 0 where
  pub exposure : Allowed i.exposure_mode c.allowed_exposure_modes
  pub deletion : Allowed i.deletion_policy c.allowed_deletion_policies
  pub delivery :
      c.required_secret_delivery_mode ≢ ""
      → i.secret_delivery_mode ≡ c.required_secret_delivery_mode
  pub replicas :
      (most asked : ℤ)
      → c.max_replicas ≡ some most
      → (params.replicas ≡ some asked)
        ⊎ ((params.replicas ≡ none) × (params.instances ≡ some asked))
      → exceeds asked most ≡ false
  pub backups : c.require_backup_profile ≡ true → params.backup_profile ≢ ""

Allowed-iff :
    (value : String) (choices : List String)
    → (not (is_empty choices) && not (contains value choices)) ≡ false ↔ Allowed value choices
Allowed-iff value [] = (λ h. inl refl, λ h. refl)
Allowed-iff value (x ∷ xs) = (
  λ h. inr ((contains_iff value (x ∷ xs)).0 (ground arith)),
  λ h. elim h [ inl e ↦ cc | inr m ↦ let k = (contains_iff value (x ∷ xs)).1 m in ground arith ],
)

too_many_iff :
    (limit replicas instances : Option ℤ)
    → (too_many limit (or_else replicas instances) ≡ false) ↔ (
        (most asked : ℤ)
        → limit ≡ some most
        → (replicas ≡ some asked) ⊎ ((replicas ≡ none) × (instances ≡ some asked))
        → exceeds asked most ≡ false)
unfolding too_many or_else
too_many_iff none r n = (λ h most asked e k. cc, λ h. refl)
too_many_iff (some most) (some r) n =
    (λ h most' asked e k. elim k [ inl f ↦ cc | inr (f, g) ↦ cc ], λ h. h most r refl (inl refl))
too_many_iff (some most) none (some n) = (
  λ h most' asked e k. elim k [ inl f ↦ cc | inr (f, g) ↦ cc ],
  λ h. h most n refl (inr (refl, refl)),
)
too_many_iff (some most) none none =
    (λ h most asked e k. elim k [ inl f ↦ cc | inr (f, g) ↦ cc ], λ h. refl)

unmet_iff : (test : Bool) (s t : String) → ((test && s == t) ≡ false) ↔ (test ≡ true → s ≢ t)
unmet_iff true s t = let k = eq_false_iff s t in (λ h _. k.0 h, λ h. k.1 (h refl))
unmet_iff false s t = (λ h e. cc, λ h. refl)

demanded_iff :
    (demand given : String)
    → ((not (demand == "") && not (given == demand)) ≡ false) ↔ (demand ≢ "" → given ≡ demand)
demanded_iff demand given = (
  λ h ne. (eq_iff given demand).0 (let k = (eq_false_iff demand "").1 ne in ground arith),
  λ h. elim (Bool-cases (demand == "")) [
    | inl e ↦ ground arith
    | inr e ↦ let k = (eq_iff given demand).1 (h ((eq_false_iff demand "").0 e)) in ground arith
  ],
)

-- No constraint reports a problem exactly when the instance is within them.
pub evaluate_constraints_iff :
    (c : PlanConstraints) (params : ServiceInstanceParameters) (i : ServiceInstance)
    → (evaluate_constraints c params i ≡ []) ↔ Allows c params i
unfolding evaluate_constraints too_many or_else
evaluate_constraints_iff c params i =
    iff_trans
      (append_nil_iff
        (append_nil_iff
          (append_nil_iff
            (append_nil_iff
              (append_if_iff _ _ (Allowed-iff i.exposure_mode c.allowed_exposure_modes))
              (append_if_iff _ _ (Allowed-iff i.deletion_policy c.allowed_deletion_policies)))
            (append_if_iff _ _
              (demanded_iff c.required_secret_delivery_mode i.secret_delivery_mode)))
          (append_if_iff _ _ (too_many_iff c.max_replicas params.replicas params.instances)))
        (append_if_iff _ _ (unmet_iff c.require_backup_profile params.backup_profile "")))
      (
        λ ((((exposure, deletion), delivery), replicas), backups). record {
          exposure = exposure;
          deletion = deletion;
          delivery = delivery;
          replicas = replicas;
          backups = backups;
        },
        λ w. ((((w.exposure, w.deletion), w.delivery), w.replicas), w.backups),
      )
