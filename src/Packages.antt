-- ===== src/Packages.antt =====
-- internal/controllers/operator_package_dependencies.go, and `reconcilePackages` of
-- internal/controllers/clustertarget_controller.go: the operator packages that a cluster needs, and
-- whether they are there. Texts of messages are left out.
pub mod Names
pub mod Ready
pub mod Install
pub mod Covers
use servicer.Prelude.{
  String, Bool, true, false, ◌&&◌, not, List, [], ◌∷◌, ◌++◌, Option, none, some, ◌==◌, contains,
  trim_space, less, is_given, Fallible, ok, err, ◌>>=◌, if◌then◌else◌,
}
use servicer.Api.{Lookup, found, not_found, failed}

-- A loop over names with the set of those seen.
pub unique_names : List String → List String → List String
unique_names seen [] = []
unique_names seen (name ∷ names) =
    if name == ""
    then unique_names seen names
    else if contains name seen
    then unique_names seen names
    else name ∷ unique_names (name ∷ seen) names

-- `sort.Strings`.
pub insert_name : String → List String → List String
insert_name name [] = name ∷ []
insert_name name (other ∷ names) =
    if less name other then name ∷ other ∷ names else other ∷ insert_name name names

pub sort : List String → List String
unfolding insert_name
sort [] = []
sort (name ∷ names) = insert_name name (sort names)

unfoldable pub unique_package_names : List String → List String
unfolding unique_names sort
unique_package_names names = sort (unique_names [] names)

-- The CRD admits no other phase, and the zero value of Go is none of them.
pub data PackagePhase : Type 0 where
  installed deploying missing error : PackagePhase

pub record PackageStatus : Type 0 where
  pub name : String
  pub phase : PackagePhase

pub record ClusterTarget : Type 0 where
  pub name : String
  pub required_packages : List String
  pub packages : List PackageStatus

pub record ServiceClass : Type 0 where
  pub published : Bool
  pub required_packages : List String

pub record PlacedInstance : Type 0 where
  pub cluster_name : String
  pub delivery_mode : String

abbrev pub external_secrets_package : String
external_secrets_package = "external-secrets"

unfoldable pub requires_external_secrets_operator : PlacedInstance → Bool
requires_external_secrets_operator i = i.delivery_mode == "external-secret"

-- `if requiresExternalSecretsOperator(...) { packages = append(...) }`.
abbrev pub external_secrets : PlacedInstance → List String
external_secrets i =
    if requires_external_secrets_operator i then external_secrets_package ∷ [] else []

class_packages : Option ServiceClass → List String
class_packages none = []
class_packages (some class) = class.required_packages

instance_packages : Option PlacedInstance → List String
instance_packages none = []
instance_packages (some i) = external_secrets i

unfoldable pub required_packages_for_service_instance :
    Option ServiceClass → Option PlacedInstance → List String
unfolding class_packages instance_packages
required_packages_for_service_instance class i =
    unique_package_names (class_packages class ++ instance_packages i)

-- The two loops.
pub published_packages : List ServiceClass → List String
published_packages [] = []
published_packages (class ∷ classes) =
    if not class.published
    then published_packages classes
    else class.required_packages ++ published_packages classes

pub placed_packages : String → List PlacedInstance → List String
placed_packages name [] = []
placed_packages name (i ∷ instances) =
    if not (i.cluster_name == name)
    then placed_packages name instances
    else external_secrets i ++ placed_packages name instances

pub data Unread : Type 0 where
  unread : Unread

pub listed {ℓ} : {A : Type ℓ} → Option A → Fallible Unread A
listed none = err unread
listed (some a) = ok a

-- `none` is a list that could not be read.
unfoldable pub effective_required_packages_for_cluster_target :
    ClusterTarget
    → Option (List ServiceClass)
    → Option (List PlacedInstance)
    → Fallible Unread (List String)
unfolding published_packages placed_packages listed
effective_required_packages_for_cluster_target target classes instances = do
  class_list ← listed classes
  placed ← listed instances
  ok (
      unique_package_names (
        target.required_packages
        ++ published_packages class_list
        ++ placed_packages target.name placed))

-- The first entry of a name.
unfoldable pub package_status : List PackageStatus → String → Option PackagePhase
package_status [] package_name = none
package_status (status ∷ statuses) package_name =
    if status.name == package_name then some status.phase else package_status statuses package_name

unfoldable pub package_is_required : ClusterTarget → String → Bool
package_is_required target package_name = contains package_name target.required_packages

pub is_installed : PackagePhase → Bool
is_installed installed = true
is_installed _ = false

-- One round of the loop of `packagesReady`: a package without a status blocks where the target's own
-- list names it.
pub is_ready : ClusterTarget → String → Option PackagePhase → Bool
unfolding is_installed
is_ready target package_name none = not (package_is_required target package_name)
is_ready target package_name (some phase) = is_installed phase

pub all_ready : ClusterTarget → List String → Bool
unfolding is_ready
all_ready target [] = true
all_ready target (name ∷ names) =
    is_ready target name (package_status target.packages name) && all_ready target names

unfoldable pub packages_ready : Option ClusterTarget → List String → Bool
unfolding all_ready
packages_ready none package_names = false
packages_ready (some target) package_names = all_ready target (unique_package_names package_names)

pub has_status : Option PackagePhase → Bool
has_status none = false
has_status (some phase) = true

-- A status that is there, with the phase `Installed`.
pub has_installed : Option PackagePhase → Bool
unfolding is_installed
has_installed none = false
has_installed (some phase) = is_installed phase

-- The chain of early returns.
unfoldable pub external_secrets_package_ready : Option ClusterTarget → Bool
unfolding has_status has_installed
external_secrets_package_ready none = true
external_secrets_package_ready (some target) =
    let status = package_status target.packages external_secrets_package in
    let required = package_is_required target external_secrets_package in
    if not required && not (has_status status)
    then true
    else if not required && has_status status && has_installed status
    then true
    else if required && not (has_status status)
    then false
    else if not (has_status status)
    then true
    else has_installed status
