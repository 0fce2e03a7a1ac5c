-- ===== src/Packages/Covers.antt =====
-- The cluster target controller keeps the statuses that the service instance controller reads: what
-- the one writes as installed is what the other waits for.
use mathlib.Core.List.Memᴰ as MemD
use servicer.Prelude.{
  String, Bool, true, false, ◌&&◌, ◌||◌, not, List, [], ◌∷◌, ◌++◌, Option, none, some, ◌==◌, ◌≡◌,
  ◌≢◌, refl, sym, ◌∙◌, ap, map, ok, inl, inr, contains, contains_iff, Memᴰ, Bool-cases, and_true,
  eq_iff, arith, subst, if◌then◌else◌,
}
use servicer.Packages.{
  ClusterTarget, ServiceClass, PlacedInstance, PackageStatus, PackagePhase, class_packages,
  instance_packages, external_secrets, published_packages, placed_packages, listed,
  unique_package_names, required_packages_for_service_instance,
  effective_required_packages_for_cluster_target, package_status, packages_ready,
  external_secrets_package, external_secrets_package_ready, is_ready, has_status, has_installed,
  all_ready, package_is_required,
}
use servicer.Packages.Names.{contains-unique_package_names}
use servicer.Packages.Ready.{packages_ready_iff}
use servicer.Packages.Install.{
  Operations, reconcile_packages, reconcile_packages_lem, Probed, ok_inj,
}

contains-append :
    (n : String) (xs ys : List String) → contains n (xs ++ ys) ≡ (contains n xs || contains n ys)
contains-append n [] ys = refl
contains-append n (x ∷ xs) ys = ground (arith, contains-append n xs ys)

contains-published_packages :
    (n : String) (class : ServiceClass) (classes : List ServiceClass)
    → Memᴰ class classes
    → class.published ≡ true
    → contains n class.required_packages ≡ true
    → contains n (published_packages classes) ≡ true
unfolding published_packages
contains-published_packages n class [] m p k = elim m [ ]
contains-published_packages n class (c ∷ classes) m p k = elim (MemD.cases_cons m) [
  | inl e ↦
      let k' : contains n c.required_packages ≡ true = rw e at k in
      let p' : c.published ≡ true = rw e at p in
      ground (arith, contains-append n c.required_packages (published_packages classes))
  | inr r ↦
      let rest = contains-published_packages n class classes r p k in
      ground (arith, contains-append n c.required_packages (published_packages classes))
]

contains-placed_packages :
    (n name : String) (i : PlacedInstance) (instances : List PlacedInstance)
    → Memᴰ i instances
    → i.cluster_name ≡ name
    → contains n (external_secrets i) ≡ true
    → contains n (placed_packages name instances) ≡ true
unfolding placed_packages
contains-placed_packages n name i [] m p k = elim m [ ]
contains-placed_packages n name i (j ∷ instances) m p k = elim (MemD.cases_cons m) [
  | inl e ↦
      let k' : contains n (external_secrets j) ≡ true = rw e at k in
      let p' : (j.cluster_name == name) ≡ true = (eq_iff j.cluster_name name).1 (rw e at p) in
      ground (arith, contains-append n (external_secrets j) (placed_packages name instances))
  | inr r ↦
      let rest = contains-placed_packages n name i instances r p k in
      ground (arith, contains-append n (external_secrets j) (placed_packages name instances))
]

package_status_lem :
    (n : String) (statuses : List PackageStatus)
    → contains n (map (λ (s : PackageStatus). s.name) statuses) ≡ true
    → package_status statuses n ≢ none
unfolding package_status
package_status_lem n [] h k = cc
package_status_lem n (s ∷ statuses) h k = elim (Bool-cases (s.name == n)) [
  | inl e ↦ cc
  | inr e ↦ package_status_lem n statuses (ground arith) (ground arith)
]

module _ (n : String) (target : ClusterTarget) (classes : List ServiceClass)
    (instances : List PlacedInstance) (class : ServiceClass) (i : PlacedInstance)
    (m : Memᴰ class classes) (p : class.published ≡ true) (k : Memᴰ i instances)
    (c : i.cluster_name ≡ target.name) where
  gathered_lem :
      contains n (class.required_packages ++ external_secrets i) ≡ true
      → contains n (
          target.required_packages
          ++ published_packages classes
          ++ placed_packages target.name instances)
        ≡ true
  gathered_lem h =
      let whole =
        contains-append n (target.required_packages ++ published_packages classes)
          (placed_packages target.name instances) in
      let tail = contains-append n target.required_packages (published_packages classes) in
      elim (Bool-cases (contains n class.required_packages)) [
        | inl e ↦ let there = contains-published_packages n class classes m p e in ground arith
        | inr e ↦
            let there =
              contains-placed_packages n target.name i instances k c
                (ground (arith, contains-append n class.required_packages (external_secrets i))) in
            ground arith
      ]

  -- What an instance needs is among what its cluster gets.
  effective_required_packages_for_cluster_target_lem :
      {names : List String}
      → effective_required_packages_for_cluster_target target (some classes) (some instances)
        ≡ ok names
      → contains n (required_packages_for_service_instance (some class) (some i)) ≡ true
      → contains n names ≡ true
  unfolding effective_required_packages_for_cluster_target required_packages_for_service_instance
      listed class_packages instance_packages
  effective_required_packages_for_cluster_target_lem e h =
      let needed =
        contains-unique_package_names n (class.required_packages ++ external_secrets i) in
      let (a, b) = and_true _ _ (sym needed ∙ h) in
      subst (λ ns. contains n ns ≡ true) (ok_inj e)
        (contains-unique_package_names n (
            target.required_packages
            ++ published_packages classes
            ++ placed_packages target.name instances)
          ∙ both a (gathered_lem b))
    where
      both : {a b : Bool} → a ≡ true → b ≡ true → (a && b) ≡ true
      both a b = ground arith

-- Where the statuses of a target come from a round over what it must have, and an instance of a
-- published class is placed there, the instance finds its packages ready only if the round came to each
-- package it needs and a probe found it in place then: on the cluster as the packages before it
-- left it, or after its manifests were applied there.
pub ready-Probed :
    (ops : Operations) (target : ClusterTarget) (classes : List ServiceClass)
    (instances : List PlacedInstance) (class : ServiceClass) (i : PlacedInstance)
    {names : List String} (c : ops.Cluster) {round : ops.Cluster × List PackageStatus}
    → effective_required_packages_for_cluster_target target (some classes) (some instances)
      ≡ ok names
    → reconcile_packages ops c names ≡ ok round
    → Memᴰ class classes
    → class.published ≡ true
    → Memᴰ i instances
    → i.cluster_name ≡ target.name
    → packages_ready
        (some (record target { packages = round.1 }))
        (required_packages_for_service_instance (some class) (some i))
      ≡ true
    → (n : String) → n ≢ ""
    → Memᴰ n (required_packages_for_service_instance (some class) (some i))
    → Probed ops c names n
ready-Probed ops target classes instances class i {names = names} c {round = round} e f m p k q
      ready n given needed =
    let (same, truths) = reconcile_packages_lem ops names c f in
    let listed =
      effective_required_packages_for_cluster_target_lem n target classes instances class i m p k q
        e ((contains_iff n _).1 needed) in
    elim ((packages_ready_iff _ _).0 ready n given needed) [
      | inl there ↦ truths n there
      | inr (unknown, _) ↦
          absurd (package_status_lem n round.1 (ap (λ ns. contains n ns) same ∙ listed) unknown)
    ]

one_name : unique_package_names (external_secrets_package ∷ []) ≡ external_secrets_package ∷ []
unfolding unique_package_names
one_name = refl

module _ (target : ClusterTarget) where
  chain_lem :
      (status : Option PackagePhase)
      → (let required = package_is_required target external_secrets_package in
          if not required && not (has_status status)
          then true
          else if not required && has_status status && has_installed status
          then true
          else if required && not (has_status status)
          then false
          else if not (has_status status)
          then true
          else has_installed status)
        ≡ (is_ready target external_secrets_package status && true)
  unfolding is_ready has_installed has_status
  chain_lem none = ground arith
  chain_lem (some phase) = ground arith

-- The check for external secrets is the check for one package, on a target that is known.
pub external_secrets_package_ready_lem :
    (target : ClusterTarget)
    → external_secrets_package_ready (some target)
      ≡ packages_ready (some target) (external_secrets_package ∷ [])
unfolding external_secrets_package_ready packages_ready all_ready
external_secrets_package_ready_lem target =
    chain_lem target _ ∙ sym (ap (all_ready target) one_name)
