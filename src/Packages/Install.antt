-- ===== src/Packages/Install.antt =====
-- internal/controllers/clustertarget_controller.go, `reconcilePackages`. The writes to the target
-- cluster, and the probe that reads it, are parameters over a state of that cluster.
use servicer.Prelude.{
  String, Bool, true, false, ◌||◌, not, List, [], ◌∷◌, Option, none, some, ◌==◌, ◌≡◌, refl, ap, ◌∙◌,
  map, ok, err, Fallible, ◌>>=◌, Bool-cases, eq_iff, ◌⊎◌, inl, inr, subst, if◌then◌else◌,
}
use servicer.Api.{Lookup, found, not_found, failed}
use servicer.Packages.{
  PackagePhase, installed, deploying, missing, error, PackageStatus, Unread, unread, package_status,
}

pub record OperatorPackage : Type 0 where
  pub manifest_url : String
  pub chart_archive_url : String

-- `Get` of the catalog, `probePackage` (`none` is an error), `installPackageDirect` (`false` is an
-- error) and `ensurePackageArgoApp` (`none` is an error).
pub record Operations : Type 1 where
  pub Cluster : Type 0
  pub get : String → Lookup OperatorPackage
  pub probe : Cluster → OperatorPackage → Option Bool
  pub install_direct : Cluster → OperatorPackage → Cluster × Bool
  pub ensure_argo_app : Cluster → OperatorPackage → Cluster × Option String

missing≢installed : missing ≡ installed → ⊥
missing≢installed h = cc

deploying≢installed : deploying ≡ installed → ⊥
deploying≢installed h = cc

error≢installed : error ≡ installed → ⊥
error≢installed h = cc

phase_inj : {a b : PackagePhase} → ◌≡◌ {A = Option PackagePhase} (some a) (some b) → a ≡ b
phase_inj h = cc

module _ {A : Type 0} where
  pub ok_inj : {a b : A} → ◌≡◌ {A = Fallible Unread A} (ok a) (ok b) → a ≡ b
  ok_inj h = cc

  err≢ok : {e : Unread} {a : A} → ◌≡◌ {A = Fallible Unread A} (err e) (ok a) → ⊥
  err≢ok h = cc

module _ (ops : Operations) where
  abbrev pub Step : Type 0
  Step = ops.Cluster × PackagePhase

  -- The second probe, whose error is dropped.
  pub reprobed : Option Bool → PackagePhase
  reprobed (some true) = installed
  reprobed _ = deploying

  pub after_install : OperatorPackage → ops.Cluster × Bool → Step
  unfolding reprobed
  after_install pkg (c, true) = (c, reprobed (ops.probe c pkg))
  after_install pkg (c, false) = (c, error)

  pub after_argo : ops.Cluster × Option String → Step
  after_argo (c, none) = (c, missing)
  after_argo (c, some app_name) = (c, if app_name == "" then missing else deploying)

  -- What follows the first probe.
  pub probed : ops.Cluster → OperatorPackage → Option Bool → Step
  unfolding after_install after_argo
  probed c pkg none = (c, error)
  probed c pkg (some true) = (c, installed)
  probed c pkg (some false) =
      if not (pkg.manifest_url == "") || not (pkg.chart_archive_url == "")
      then after_install pkg (ops.install_direct c pkg)
      else after_argo (ops.ensure_argo_app c pkg)

  pub reconcile_package : ops.Cluster → Lookup OperatorPackage → Fallible Unread Step
  unfolding probed
  reconcile_package c (found pkg) = ok (probed c pkg (ops.probe c pkg))
  reconcile_package c not_found = ok (c, error)
  reconcile_package c failed = err unread

  unfoldable pub reconcile_packages :
      ops.Cluster → List String → Fallible Unread (ops.Cluster × List PackageStatus)
  unfolding reconcile_package
  reconcile_packages c [] = ok (c, [])
  reconcile_packages c (name ∷ names) = do
    step ← reconcile_package c (ops.get name)
    rest ← reconcile_packages step.0 names
    ok (rest.0, record { name = name; phase = step.1 } ∷ rest.1)

  -- A probe of the cluster as it is found the package in place, or one after the manifests of the
  -- package were applied to it.
  abbrev pub InPlace : ops.Cluster → OperatorPackage → Type 0
  InPlace c pkg =
      (ops.probe c pkg ≡ some true)
      ⊎ ((d : ops.Cluster) × (ops.probe c pkg ≡ some false)
          × (ops.install_direct c pkg ≡ (d, true))
          × (ops.probe d pkg ≡ some true))

  -- The package of the catalog, found in place when it is the turn of `name`.
  abbrev pub Found : ops.Cluster → String → Type 0
  Found c name = (pkg : OperatorPackage) × (ops.get name ≡ found pkg) × InPlace c pkg

  -- The round over `names` that begins at `c` comes to `name` and finds its package in place there,
  -- on the cluster as the packages before it left it.
  abbrev pub Probed : ops.Cluster → List String → String → Type 0
  Probed c [] name = ⊥
  Probed c (next ∷ names) name =
      ((next ≡ name) × Found c name)
      ⊎ ((step : Step) × (reconcile_package c (ops.get next) ≡ ok step) × Probed step.0 names name)

  module _ (pkg : OperatorPackage) where
    reprobed_lem : (o : Option Bool) → reprobed o ≡ installed → o ≡ some true
    unfolding reprobed
    reprobed_lem (some true) h = refl
    reprobed_lem (some false) h = cc
    reprobed_lem none h = cc

    after_install_lem :
        (c : ops.Cluster) (r : ops.Cluster × Bool)
        → ops.probe c pkg ≡ some false
        → ops.install_direct c pkg ≡ r
        → (after_install pkg r).1 ≡ installed
        → InPlace c pkg
    unfolding after_install
    after_install_lem c (d, true) e f h = inr (d, e, f, reprobed_lem (ops.probe d pkg) h)
    after_install_lem c (d, false) e f h = cc

    after_argo_lem : (r : ops.Cluster × Option String) → (after_argo r).1 ≡ installed → ⊥
    unfolding after_argo
    after_argo_lem (c, none) h = cc
    after_argo_lem (c, some app_name) h = elim (Bool-cases (app_name == "")) [
      | inl e ↦ missing≢installed (rw e at h)
      | inr e ↦ deploying≢installed (rw e at h)
    ]

    probed_lem :
        (c : ops.Cluster) (o : Option Bool)
        → ops.probe c pkg ≡ o
        → (probed c pkg o).1 ≡ installed
        → InPlace c pkg
    unfolding probed
    probed_lem c none e h = cc
    probed_lem c (some true) e h = inl e
    probed_lem c (some false) e h =
        elim (Bool-cases (not (pkg.manifest_url == "") || not (pkg.chart_archive_url == ""))) [
          | inl f ↦ after_install_lem c (ops.install_direct c pkg) e refl (rw (probed, f) at h)
          | inr f ↦ absurd (after_argo_lem (ops.ensure_argo_app c pkg) (rw (probed, f) at h))
        ]

  reconcile_package_lem :
      (name : String) (c : ops.Cluster) (l : Lookup OperatorPackage) {step : Step}
      → ops.get name ≡ l
      → reconcile_package c l ≡ ok step
      → step.1 ≡ installed
      → Found c name
  unfolding reconcile_package
  reconcile_package_lem name c (found pkg) e h k =
      (pkg, e, probed_lem pkg c (ops.probe c pkg) refl (ap (λ (s : Step). s.1) (ok_inj h) ∙ k))
  reconcile_package_lem name c not_found e h k =
      absurd (error≢installed (ap (λ (s : Step). s.1) (ok_inj h) ∙ k))
  reconcile_package_lem name c failed e h k = absurd (err≢ok h)

  abbrev Round : Type 0
  Round = ops.Cluster × List PackageStatus

  -- One status for each name, in order, and a name that has an installed package was probed.
  abbrev pub Tells : ops.Cluster → List String → Round → Type 0
  Tells c names round =
      (map (λ (s : PackageStatus). s.name) round.1 ≡ names)
      × ((name : String) → package_status round.1 name ≡ some installed → Probed c names name)

  package_status_head :
      (name n : String) (phase : PackagePhase) (statuses : List PackageStatus)
      → package_status (record { name = name; phase = phase } ∷ statuses) n ≡ some installed
      → ((name ≡ n) × (phase ≡ installed)) ⊎ (package_status statuses n ≡ some installed)
  unfolding package_status
  package_status_head name n phase statuses h = elim (Bool-cases (name == n)) [
    | inl e ↦ inl ((eq_iff name n).0 e, phase_inj (rw e at h))
    | inr e ↦ inr (rw e at h)
  ]

  rest_lem :
      (c : ops.Cluster) (name : String) (names : List String) (step : Step)
      (rest : Fallible Unread Round) {round : Round}
      → reconcile_package c (ops.get name) ≡ ok step
      → ((r : Round) → rest ≡ ok r → Tells step.0 names r)
      → (do r ← rest; ok (r.0, record { name = name; phase = step.1 } ∷ r.1)) ≡ ok round
      → Tells c (name ∷ names) round
  rest_lem c name names step (err x) taken tells e = absurd (err≢ok e)
  rest_lem c name names step (ok r) taken tells e =
      let (same, later) = tells r refl in
      subst (Tells c (name ∷ names)) (ok_inj e) (
        λ i. name ∷ same i,
        λ n h. elim (package_status_head name n step.1 r.1 h) [
          | inl (is, there) ↦ inl (
            is,
            subst (Found c) is (reconcile_package_lem name c (ops.get name) refl taken there),
          )
          | inr there ↦ inr (step, taken, later n there)
        ],
      )

  step_lem :
      (c : ops.Cluster) (name : String) (names : List String) (step : Fallible Unread Step)
      {round : Round}
      → reconcile_package c (ops.get name) ≡ step
      → ((d : ops.Cluster) (r : Round) → reconcile_packages d names ≡ ok r → Tells d names r)
      → (do
        s ← step
        r ← reconcile_packages s.0 names
        ok (r.0, record { name = name; phase = s.1 } ∷ r.1))
        ≡ ok round
      → Tells c (name ∷ names) round
  step_lem c name names (ok s) taken tells e =
      rest_lem c name names s (reconcile_packages s.0 names) taken (tells s.0) e
  step_lem c name names (err x) taken tells e = absurd (err≢ok e)

  -- A round that ends gives each name one status, in order, and says that a package is installed only
  -- where it came to the name, the catalog has the package and a probe found it in place then.
  pub reconcile_packages_lem :
      (names : List String) (c : ops.Cluster) {round : Round}
      → reconcile_packages c names ≡ ok round
      → Tells c names round
  unfolding reconcile_packages package_status
  reconcile_packages_lem [] c h = subst (Tells c []) (ok_inj h) (refl, λ n k. cc)
  reconcile_packages_lem (name ∷ names) c h =
      step_lem c name names (reconcile_package c (ops.get name)) refl
        (λ d r k. reconcile_packages_lem names d k) h
