-- ===== src/Quota/Count.antt =====
-- internal/controllers/serviceinstance_controller.go, `enforceProjectQuota`: what is counted.
use servicer.Prelude.{
  ℕ, ◌+◌, ◌≤◌, String, Bool, ◌&&◌, ◌||◌, not, List, [], ◌∷◌, ◌==◌, ◌≡◌, inl, inr, ◌∙◌, ap, any,
  keep, contains, length, Distinct, pos, increment, increment_below, max_int32, arith, eq_iff,
  Bool-cases, if◌then◌else◌,
}
use servicer.Quota.{QuotaProject, QuotaInstance, Usage, counts, namespace_of, insert, usage_from}

contains-insert :
    (n m : String) (s : List String) → contains n (insert m s) ≡ (contains n s || m == n)
unfolding insert
contains-insert n m s = elim (Bool-cases (contains m s)) [
  | inl e ↦ rw e (elim (Bool-cases (m == n)) [
    | inl f ↦ let same = (eq_iff m n).0 f in rw f (ground (arith, ap (λ x. contains x s) same))
    | inr f ↦ rw f (ground arith)
  ])
  | inr e ↦ rw e (ground arith)
]

Distinct-insert : (m : String) (s : List String) → Distinct s → Distinct (insert m s)
unfolding insert
Distinct-insert m s d = elim (Bool-cases (contains m s)) [ inl e ↦ rw e d | inr e ↦ rw e (e, d) ]

module _ (p : QuotaProject) where
  -- An instance that counts and takes up the namespace.
  abbrev pub occupies : String → QuotaInstance → Bool
  occupies n i = counts p i && (not (namespace_of p i == "") && namespace_of p i == n)

  -- One round of the loop.
  abbrev step : Usage → QuotaInstance → Usage
  step u i = record {
    service_count = increment u.service_count;
    namespaces =
        if namespace_of p i == "" then u.namespaces else insert (namespace_of p i) u.namespaces;
  }

  contains-step :
      (n : String) (u : Usage) (i : QuotaInstance)
      → contains n (step u i).namespaces
        ≡ (contains n u.namespaces || (not (namespace_of p i == "") && namespace_of p i == n))
  contains-step n u i = elim (Bool-cases (namespace_of p i == "")) [
    | inl e ↦ rw e (ground arith)
    | inr e ↦ rw e (contains-insert n (namespace_of p i) u.namespaces)
  ]

  pub usage_from-contains :
      (n : String) (instances : List QuotaInstance) (u : Usage)
      → contains n (usage_from p u instances).namespaces
        ≡ (contains n u.namespaces || any (occupies n) instances)
  unfolding usage_from
  usage_from-contains n [] u = ground arith
  usage_from-contains n (i ∷ instances) u = elim (Bool-cases (counts p i)) [
    | inl e ↦
        rw (usage_from, e)
          (ground (arith, contains-step n u i, usage_from-contains n instances (step u i)))
    | inr e ↦ rw (usage_from, e) (usage_from-contains n instances u)
  ]

  Distinct-step :
      (i : QuotaInstance) (u : Usage) → Distinct u.namespaces → Distinct (step u i).namespaces
  Distinct-step i u d = elim (Bool-cases (namespace_of p i == "")) [
    | inl e ↦ rw e d
    | inr e ↦ rw e (Distinct-insert (namespace_of p i) u.namespaces d)
  ]

  pub usage_from-Distinct :
      (instances : List QuotaInstance) (u : Usage)
      → Distinct u.namespaces
      → Distinct (usage_from p u instances).namespaces
  unfolding usage_from
  usage_from-Distinct [] u d = d
  usage_from-Distinct (i ∷ instances) u d = elim (Bool-cases (counts p i)) [
    | inl e ↦ rw (usage_from, e) (usage_from-Distinct instances (step u i) (Distinct-step i u d))
    | inr e ↦ rw (usage_from, e) (usage_from-Distinct instances u d)
  ]

  pub usage_from-count :
      (instances : List QuotaInstance) (u : Usage) (k : ℕ)
      → u.service_count ≡ pos k
      → k + length (keep (counts p) instances) ≤ max_int32
      → (usage_from p u instances).service_count ≡ pos (k + length (keep (counts p) instances))
  unfolding usage_from
  usage_from-count [] u k e h = e ∙ ap pos (omega arith)
  usage_from-count (i ∷ instances) u k e h = elim (Bool-cases (counts p i)) [
    | inl f ↦
        let bound = (rw f at h) in
        let rest =
          usage_from-count instances (step u i) (k + 1)
            (ap increment e ∙ increment_below k (omega arith)) (omega arith) in
        rw (usage_from, f) (rest ∙ ap pos (omega arith))
    | inr f ↦ rw (usage_from, f) (usage_from-count instances u k e (rw f at h))
  ]
