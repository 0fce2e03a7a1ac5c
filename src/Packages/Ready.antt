-- ===== src/Packages/Ready.antt =====
-- internal/controllers/operator_package_dependencies.go, `packagesReady`: what it means.
use mathlib.Core.List.Memᴰ as MemD
use servicer.Prelude.{
  String, true, false, ◌&&◌, not, List, [], ◌∷◌, Option, none, some, ◌==◌, ◌≡◌, ◌≢◌, ◌↔◌, ◌⊎◌, inl,
  inr, refl, contains, contains_iff, Memᴰ, and_true, eq_false_iff, iff_trans, arith,
}
use servicer.Packages.{
  ClusterTarget, PackagePhase, installed, package_status, package_is_required, is_installed,
  is_ready, all_ready, unique_package_names, packages_ready,
}
use servicer.Packages.Names.{contains-unique_package_names}

-- The package is installed, or nothing is known of it and the target does not ask for it.
abbrev pub Ready : ClusterTarget → String → Type 0
Ready target n =
    (package_status target.packages n ≡ some installed)
    ⊎ ((package_status target.packages n ≡ none) × (contains n target.required_packages ≡ false))

module _ (target : ClusterTarget) where
  status_iff :
      (n : String) (status : Option PackagePhase)
      → (is_ready target n status ≡ true) ↔ (
          (status ≡ some installed)
          ⊎ ((status ≡ none) × (contains n target.required_packages ≡ false)))
  unfolding is_ready is_installed package_is_required
  status_iff n none =
      (λ h. inr (refl, ground arith), λ h. elim h [ inl e ↦ cc | inr (e, f) ↦ ground arith ])
  status_iff n (some installed) = (λ h. inl refl, λ h. refl)
  status_iff n (some phase) = (λ h. cc, λ h. elim h [ inl e ↦ cc | inr (e, f) ↦ cc ])

  all_ready_iff :
      (names : List String)
      → (all_ready target names ≡ true) ↔ ((n : String) → Memᴰ n names → Ready target n)
  unfolding all_ready
  all_ready_iff [] = (λ h n m. elim m [ ], λ h. refl)
  all_ready_iff (name ∷ names) =
      let head = status_iff name (package_status target.packages name) in
      let rest = all_ready_iff names in
      (
        λ h n m.
            let (a, b) = and_true _ _ h in
            elim (MemD.cases_cons m) [ inl e ↦ rw e (head.0 a) | inr k ↦ rest.0 b n k ],
        λ h.
            let a = head.1 (h name (Memᴰ.head refl)) in
            let b = rest.1 (λ n m. h n (Memᴰ.tail m)) in ground arith,
      )

-- The packages are ready exactly when each that is named is installed on the target, or has no
-- status there and is not one of those that the target itself asks for.
pub packages_ready_iff :
    (target : ClusterTarget) (names : List String)
    → (packages_ready (some target) names ≡ true)
      ↔ ((n : String) → n ≢ "" → Memᴰ n names → Ready target n)
unfolding packages_ready
packages_ready_iff target names = iff_trans (all_ready_iff target (unique_package_names names)) (
  λ h n ne m. h n ((contains_iff n _).0 (to n ne m)),
  λ h n m. from h n (contains-unique_package_names n names) ((contains_iff n _).1 m),
)
  where
    to : (n : String) → n ≢ "" → Memᴰ n names → contains n (unique_package_names names) ≡ true
    to n ne m =
        let k = (contains_iff n names).1 m in
        ground (arith, contains-unique_package_names n names, (eq_false_iff n "").1 ne)

    from :
        ((n : String) → n ≢ "" → Memᴰ n names → Ready target n)
        → (n : String)
        → contains n (unique_package_names names) ≡ (not (n == "") && contains n names)
        → contains n (unique_package_names names) ≡ true
        → Ready target n
    from h n e k =
        h n ((eq_false_iff n "").0 (ground arith)) ((contains_iff n names).0 (ground arith))
