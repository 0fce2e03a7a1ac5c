-- ===== src/Quota/Enforced.antt =====
-- internal/controllers/serviceinstance_controller.go, `enforceProjectQuota`: who passes the check.
use servicer.Prelude.{
  ℕ, ◌≤◌, String, true, false, List, [], Option, none, some, ◌==◌, ◌≡◌, ◌≢◌, ◌↔◌, inl, inr, refl,
  sym, ◌∙◌, ap, any, keep, contains, length, Distinct, Memᴰ, ℤ, pos, exceeds, max_int32, arith,
  eq_iff, eq_false_iff, Bool-cases, mem_of_any, any_of_mem, Fallible, ok, err,
}
use servicer.Quota.{
  Quota, QuotaProject, QuotaInstance, Usage, QuotaRefusal, counts, namespace_of, usage_from,
  is_over, quota_in_force, is_unlimited, compare_usage, enforce_project_quota,
}
use servicer.Quota.Count.{occupies, usage_from-contains, usage_from-Distinct, usage_from-count}

-- A number that no limit is below.
abbrev pub Within : ℕ → Option ℤ → Type 0
Within n limit = (most : ℤ) → limit ≡ some most → exceeds (pos n) most ≡ false

is_over_iff : (n : ℕ) (limit : Option ℤ) → (is_over (pos n) limit ≡ false) ↔ Within n limit
unfolding is_over
is_over_iff n none = (λ h most e. cc, λ h. refl)
is_over_iff n (some most) = (λ h other e. cc, λ h. h most refl)

ok≢err : {r : QuotaRefusal} → ◌≡◌ {A = Fallible QuotaRefusal (Unit {0})} (err r) (ok tt) → ⊥
ok≢err h = cc

compare_usage_iff :
    (q : Quota) (u : Usage)
    → (compare_usage q u ≡ ok tt) ↔ (
        (is_over u.service_count q.max_services ≡ false)
        × (is_over (pos (length u.namespaces)) q.max_namespaces ≡ false))
unfolding compare_usage
compare_usage_iff q u = elim (Bool-cases (is_over u.service_count q.max_services)) [
  | inl e ↦ (λ h. absurd (ok≢err (rw (compare_usage, e) at h)), λ (a, b). cc)
  | inr e ↦ elim (Bool-cases (is_over (pos (length u.namespaces)) q.max_namespaces)) [
    | inl f ↦ (λ h. absurd (ok≢err (rw (compare_usage, e, f) at h)), λ (a, b). cc)
    | inr f ↦ (λ h. (e, f), λ h. rw (compare_usage, e, f) refl)
  ]
]

unlimited_passes :
    (services namespaces : Option ℤ) (u : Usage)
    → is_unlimited (record { max_services = services; max_namespaces = namespaces }) ≡ true
    → compare_usage (record { max_services = services; max_namespaces = namespaces }) u ≡ ok tt
unfolding is_unlimited compare_usage is_over
unlimited_passes none none u h = refl
unlimited_passes none (some n) u h = cc
unlimited_passes (some m) n u h = cc

abbrev start : Usage
start = record { service_count = pos 0; namespaces = [] }

enforce-compare :
    (p : QuotaProject) (profile : Option String) (instances : List QuotaInstance)
    → enforce_project_quota p profile (some instances)
      ≡ compare_usage (quota_in_force p profile) (usage_from p start instances)
unfolding enforce_project_quota
enforce-compare p profile instances =
    let q = quota_in_force p profile in
    elim (Bool-cases (is_unlimited q)) [
      | inl e ↦
          rw e (
            sym (unlimited_passes q.max_services q.max_namespaces (usage_from p start instances) e))
      | inr e ↦ rw e refl
    ]

occupies_iff :
    (p : QuotaProject) (n : String) (instances : List QuotaInstance)
    → (any (occupies p n) instances ≡ true) ↔ (
        (i : QuotaInstance) × Memᴰ i instances
        × (counts p i ≡ true)
        × (namespace_of p i ≡ n)
        × (n ≢ ""))
occupies_iff p n instances = (
  λ h.
      let (i, m, k) = mem_of_any (occupies p n) instances h in
      let same = (eq_iff (namespace_of p i) n).0 (ground arith) in
      (i, m, ground arith, same, λ e. ground (arith, eq_iff (namespace_of p i) "", same ∙ e)),
  λ (i, m, c, e, ne).
      any_of_mem (occupies p n) instances m (
        ground (arith, eq_iff (namespace_of p i) n, (eq_false_iff n "").1 ne, ap (λ x. x == "") e)),
)

-- Where fewer than 2^31 instances of the project are live, the check passes exactly when their number
-- is within the limit of services and the number of the namespaces that they take up, each counted
-- once, is within the limit of namespaces.
pub enforce_project_quota_iff :
    (p : QuotaProject) (profile : Option String) (instances : List QuotaInstance)
    → length (keep (counts p) instances) ≤ max_int32
    → (names : List String) × Distinct names
      × ((n : String)
          → (contains n names ≡ true) ↔ (
              (i : QuotaInstance) × Memᴰ i instances
              × (counts p i ≡ true)
              × (namespace_of p i ≡ n)
              × (n ≢ "")))
      × ((enforce_project_quota p profile (some instances) ≡ ok tt) ↔ (
          Within (length (keep (counts p) instances)) (quota_in_force p profile).max_services
          × Within (length names) (quota_in_force p profile).max_namespaces))
enforce_project_quota_iff p profile instances h =
    let u = usage_from p start instances in
    let q = quota_in_force p profile in
    let count = usage_from-count p instances start 0 refl (omega arith) ∙ ap pos (omega arith) in
    let services = is_over_iff (length (keep (counts p) instances)) q.max_services in
    let namespaces = is_over_iff (length u.namespaces) q.max_namespaces in
    let both = compare_usage_iff q u in
    (
      u.namespaces,
      usage_from-Distinct p instances start tt,
      λ n. (
        λ k. (occupies_iff p n instances).0 (sym (usage_from-contains p n instances start) ∙ k),
        λ k. usage_from-contains p n instances start ∙ (occupies_iff p n instances).1 k,
      ),
      (
        λ k.
            let (a, b) = both.0 (sym (enforce-compare p profile instances) ∙ k) in
            (services.0 (sym (ap (λ c. is_over c q.max_services) count) ∙ a), namespaces.0 b),
        λ (a, b).
            enforce-compare p profile instances
            ∙ both.1 (ap (λ c. is_over c q.max_services) count ∙ services.1 a, namespaces.1 b),
      ),
    )
