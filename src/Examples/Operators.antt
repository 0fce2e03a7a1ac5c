-- ===== src/Examples/Operators.antt =====
-- The theorems on operator packages at concrete inputs.
use servicer.Prelude.{
  String, true, [], ◌∷◌, List, some, none, ◌==◌, not, ◌&&◌, eq_false_iff, sym, arith, ◌≡◌, ◌≢◌, ◌↔◌,
  Memᴰ, refl, less, contains, if◌then◌else◌,
}
use servicer.Api.{found, not_found}
use servicer.Packages.{
  ClusterTarget, ServiceClass, PlacedInstance, PackageStatus, installed, unique_package_names,
  requires_external_secrets_operator, required_packages_for_service_instance,
  effective_required_packages_for_cluster_target, package_status, package_is_required,
  packages_ready, external_secrets_package_ready, external_secrets_package,
}
use servicer.Packages.Names.{Ascending, unique_package_names_canonical}
use servicer.Packages.Ready.{Ready, packages_ready_iff}
use servicer.Packages.Install.{Operations, reconcile_packages, Probed}
use servicer.Packages.Covers.{ready-Probed, external_secrets_package_ready_lem}

-- A cluster is the manifests that were applied to it.
abbrev operations : Operations
operations = record {
  Cluster = List String;
  get = λ name.
      if name == "ghost"
      then not_found
      else found (record { manifest_url = name; chart_archive_url = "" });
  probe = λ c pkg. some (contains pkg.manifest_url c);
  install_direct = λ c pkg. (pkg.manifest_url ∷ c, true);
  ensure_argo_app = λ c pkg. (c, none);
}

abbrev postgres : ServiceClass
postgres = record { published = true; required_packages = "cnpg" ∷ [] }

abbrev orders : PlacedInstance
orders = record { cluster_name = "east"; delivery_mode = "external-secret" }

abbrev east : ClusterTarget
east = record { name = "east"; required_packages = "argo" ∷ []; packages = [] }

abbrev needs : List String
needs = "argo" ∷ "cnpg" ∷ "external-secrets" ∷ []

abbrev all_installed : List PackageStatus
all_installed =
    record { name = "argo"; phase = installed }
    ∷ record { name = "cnpg"; phase = installed }
    ∷ record { name = "external-secrets"; phase = installed }
    ∷ []

abbrev twice : List String
twice = "a" ∷ "" ∷ "b" ∷ "a" ∷ []

unique_package_names_canonical_example :
    (unique_package_names ("b" ∷ "a" ∷ []) ≡ unique_package_names twice)
    × Ascending (unique_package_names ("b" ∷ "a" ∷ []))
    × ((n : String)
        → contains n (unique_package_names ("b" ∷ "a" ∷ []))
          ≡ (not (n == "") && contains n ("b" ∷ "a" ∷ [])))
unique_package_names_canonical_example =
    unique_package_names_canonical ("b" ∷ "a" ∷ []) twice
      (λ n h. ground (arith, (eq_false_iff "" n).1 (λ k. h (sym k))))

packages_ready_iff_example :
    (packages_ready (some (record east { packages = all_installed })) ("cnpg" ∷ "mysql" ∷ [])
      ≡ true)
    ↔ ((n : String)
        → n ≢ ""
        → Memᴰ n ("cnpg" ∷ "mysql" ∷ [])
        → Ready (record east { packages = all_installed }) n)
packages_ready_iff_example =
    packages_ready_iff (record east { packages = all_installed }) ("cnpg" ∷ "mysql" ∷ [])

external_secrets_package_ready_lem_example :
    external_secrets_package_ready (some (record east { packages = all_installed }))
    ≡ packages_ready
        (some (record east { packages = all_installed }))
        (external_secrets_package ∷ [])
external_secrets_package_ready_lem_example =
    external_secrets_package_ready_lem (record east { packages = all_installed })

-- What the target must have, after a round on an empty cluster.
ready-Probed_example : Probed operations [] needs "cnpg"
unfolding effective_required_packages_for_cluster_target required_packages_for_service_instance
    unique_package_names reconcile_packages packages_ready requires_external_secrets_operator
    package_status package_is_required less
ready-Probed_example =
    ready-Probed operations east (postgres ∷ []) (orders ∷ []) postgres orders {names = needs} []
      {round = ("external-secrets" ∷ "cnpg" ∷ "argo" ∷ [], all_installed)} refl refl
      (Memᴰ.head refl) refl (Memᴰ.head refl) refl refl "cnpg" (λ h. cc) (Memᴰ.head refl)
