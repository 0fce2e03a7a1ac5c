-- ===== src/Webhook/Problems.antt =====
-- api/v1alpha1/webhook_validation.go: the problems that a validation finds, and the checks that several
-- kinds share. `field.Path` is the list of its steps.
use servicer.Prelude.{
  ◌≡◌, ◌↔◌, iff_trans, refl, ℕ, suc, String, Bool, true, false, List, [], ◌∷◌, ◌++◌, Option,
  Fallible, ok, err, if◌then◌else◌,
}
use servicer.Json.{Json}

pub data Step : Type 0 where
  named : String → Step
  indexed : ℕ → Step
  keyed : String → Step

abbrev pub FieldPath : Type 0
FieldPath = List Step

pub data Problem : Type 0 where
  required invalid not_supported forbidden not_found internal : FieldPath → Problem

abbrev pub Problems : Type 0
Problems = List Problem

-- What the checks use of other packages: the environment, `json.Unmarshal`, and whether
-- `validation.IsQualifiedName` and `validation.IsValidLabelValue` find no fault.
pub record Environment : Type 0 where
  pub getenv : String → String
  pub unmarshal : String → Option Json
  pub is_qualified_name : String → Bool
  pub is_valid_label_value : String → Bool

-- `if test { allErrs = append(allErrs, problem) }`.
unfoldable pub append_if : Bool → Problem → Problems
append_if test problem = if test then problem ∷ [] else []

-- `for i, item := range items`, from the index at hand on.
unfoldable pub each {ℓ} : {A : Type ℓ} → (ℕ → A → Problems) → ℕ → List A → Problems
each check i [] = []
each check i (item ∷ items) = check i item ++ each check (suc i) items

-- `apierrors.NewInvalid` where there is a problem.
unfoldable pub admit : Problems → Fallible Problems (Unit {0})
admit [] = ok tt
admit (problem ∷ problems) = err (problem ∷ problems)

abbrev pub spec_path : String → FieldPath
spec_path name = named "spec" ∷ named name ∷ []

-- `path.Child(name)`, and `path.Index(i)` with a child of it.
abbrev pub child : FieldPath → String → FieldPath
child path name = path ++ named name ∷ []

abbrev pub entry_child : FieldPath → ℕ → String → FieldPath
entry_child path i name = path ++ indexed i ∷ named name ∷ []

-- No problem is appended where the test is what does not hold.
pub append_if_nil : (test : Bool) (p : Problem) → (append_if test p ≡ []) ↔ (test ≡ false)
unfolding append_if
append_if_nil true p = (λ h. cc, λ h. cc)
append_if_nil false p = (λ h. refl, λ h. refl)

pub append_if_iff {ℓ} :
    {P : Type ℓ} (test : Bool) (p : Problem) → (test ≡ false) ↔ P → (append_if test p ≡ []) ↔ P
append_if_iff test p f = iff_trans (append_if_nil test p) f
