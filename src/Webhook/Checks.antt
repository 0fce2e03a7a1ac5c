-- ===== src/Webhook/Checks.antt =====
-- api/v1alpha1/webhook_validation.go: the checks and defaults of fields that several kinds have.
use servicer.Prelude.{
  is_blank, is_given, String, Bool, true, false, ◌&&◌, ◌||◌, not, List, [], ◌∷◌, ◌++◌, Option, none,
  some, ◌==◌, trim_space, has_prefix, contains, if◌then◌else◌,
}
use servicer.Json.{Json, obj}
use servicer.Action.{TypedObjectReference}
use servicer.Webhook.Problems.{
  named, keyed, indexed, FieldPath, required, invalid, not_supported, forbidden, Problems,
  Environment, append_if, each, child, entry_child,
}

-- A `LocalObjectReference` is the name in it.
unfoldable pub validate_local_ref : String → FieldPath → Problems
validate_local_ref name path = append_if (name == "") (required (child path "name"))

pub record NamespacedObjectReference : Type 0 where
  pub name : String
  pub namespace : String

unfoldable pub validate_namespaced_ref : NamespacedObjectReference → FieldPath → Problems
validate_namespaced_ref ref path =
    append_if (is_blank ref.name) (required (child path "name"))
    ++ append_if (is_blank ref.namespace) (required (child path "namespace"))

unfoldable pub validate_typed_ref : TypedObjectReference → FieldPath → Problems
validate_typed_ref ref path =
    append_if (ref.api_version == "") (required (child path "apiVersion"))
    ++ append_if (ref.kind == "") (required (child path "kind"))
    ++ append_if (ref.name == "" && ref.namespace == "") (required path)

unfoldable pub validate_immutable_local_ref : String → String → FieldPath → Problems
validate_immutable_local_ref previous current path =
    append_if (not (previous == current)) (invalid (child path "name"))

unfoldable pub validate_immutable_string : String → String → FieldPath → Problems
validate_immutable_string previous current path =
    append_if (not (previous == current)) (invalid path)

unfoldable pub validate_immutable_typed_ref :
    TypedObjectReference → TypedObjectReference → FieldPath → Problems
validate_immutable_typed_ref previous current path =
    append_if (not (previous.api_version == current.api_version))
      (invalid (child path "apiVersion"))
    ++ append_if (not (previous.kind == current.kind)) (invalid (child path "kind"))
    ++ append_if (not (previous.name == current.name)) (invalid (child path "name"))
    ++ append_if (not (previous.namespace == current.namespace)) (invalid (child path "namespace"))

abbrev pub exposure_modes : List String
exposure_modes = "cluster-internal" ∷ "private-ingress" ∷ "public-ingress" ∷ []

unfoldable pub validate_exposure : String → FieldPath → Problems
validate_exposure mode path =
    if mode == ""
    then required (child path "mode") ∷ []
    else append_if (not (contains mode exposure_modes)) (not_supported (child path "mode"))

abbrev pub deletion_policies : List String
deletion_policies = "delete" ∷ "orphan" ∷ "snapshot" ∷ []

unfoldable pub validate_deletion_policy : String → FieldPath → Problems
validate_deletion_policy policy path =
    if policy == ""
    then required path ∷ []
    else append_if (not (contains policy deletion_policies)) (not_supported path)

pub record VaultSecretProvider : Type 0 where
  pub server : String
  pub path : String
  pub version : String
  pub auth_secret_name : String

pub record SecretPolicy : Type 0 where
  pub delivery_mode : String
  pub external_secret_provider : String
  pub vault : Option VaultSecretProvider

abbrev pub external_secret : String
external_secret = "external-secret"

abbrev pub secret_delivery_modes : List String
secret_delivery_modes = external_secret ∷ "direct-secret-ref" ∷ "manual" ∷ []

pub validate_vault : Option VaultSecretProvider → FieldPath → Problems
validate_vault none path = required (child path "vault") ∷ []
validate_vault (some vault) path =
    append_if (is_blank vault.server) (required (path ++ named "vault" ∷ named "server" ∷ []))
    ++ append_if (is_blank vault.path) (required (path ++ named "vault" ∷ named "path" ∷ []))
    ++ append_if
        (not (vault.version == "") && not (vault.version == "v1") && not (vault.version == "v2"))
        (not_supported (path ++ named "vault" ∷ named "version" ∷ []))
    ++ append_if (is_blank vault.auth_secret_name)
        (required (path ++ named "vault" ∷ named "authSecretRef" ∷ named "name" ∷ []))

-- The switch on the provider.
pub validate_provider : SecretPolicy → FieldPath → Problems
unfolding validate_vault
validate_provider policy path =
    if policy.external_secret_provider == "" || policy.external_secret_provider == "kubernetes"
    then append_if (is_given policy.vault) (forbidden (child path "vault"))
    else if policy.external_secret_provider == "vault"
    then validate_vault policy.vault path
    else not_supported (child path "externalSecretProvider") ∷ []

unfoldable pub validate_secret_policy : SecretPolicy → FieldPath → Problems
unfolding validate_provider
validate_secret_policy policy path =
    if policy.delivery_mode == ""
    then required (child path "deliveryMode") ∷ []
    else append_if (not (contains policy.delivery_mode secret_delivery_modes))
        (not_supported (child path "deliveryMode"))
      ++ append_if
          (not (policy.external_secret_provider == "")
            && not (policy.delivery_mode == external_secret))
          (forbidden (child path "externalSecretProvider"))
      ++ (if policy.delivery_mode == external_secret then validate_provider policy path else [])

-- A value that has not been given takes the default.
abbrev pub or_default : String → String → String
or_default value default = if value == "" then default else value

unfoldable pub default_exposure : String → String
default_exposure mode = or_default mode "cluster-internal"

unfoldable pub default_deletion : String → String
default_deletion policy = or_default policy "delete"

unfoldable pub default_vault : Option VaultSecretProvider → Option VaultSecretProvider
default_vault none = none
default_vault (some vault) = some (record vault {
  path = or_default vault.path "secret";
  version = or_default vault.version "v2";
})

unfoldable pub default_secret_policy : SecretPolicy → SecretPolicy
unfolding default_vault
default_secret_policy policy =
    let mode = or_default policy.delivery_mode external_secret in
    record {
      delivery_mode = mode;
      external_secret_provider =
          if mode == external_secret && policy.external_secret_provider == ""
          then "kubernetes"
          else policy.external_secret_provider;
      vault = default_vault policy.vault;
    }

pub is_object : Option Json → Bool
is_object none = false
is_object (some (obj fields)) = true
is_object (some _) = false

-- The bytes of a raw JSON field are a text.
unfoldable pub validate_json_map : Environment → Option String → FieldPath → Problems
unfolding is_object
validate_json_map env none path = []
validate_json_map env (some raw) path =
    append_if
      (not (raw == "" || raw == "null" || has_prefix b'{' (trim_space raw))
        && not (is_object (env.unmarshal raw)))
      (invalid path)

unfoldable pub validate_label_map : Environment → List (String × String) → FieldPath → Problems
validate_label_map env [] path = []
validate_label_map env (label ∷ labels) path =
    append_if (not (env.is_qualified_name label.0)) (invalid (path ++ keyed label.0 ∷ []))
    ++ append_if (not (env.is_valid_label_value label.1)) (invalid (path ++ keyed label.0 ∷ []))
    ++ validate_label_map env labels path

unfoldable pub validate_policy_refs : List String → FieldPath → Problems
validate_policy_refs refs path =
    each (λ i ref. append_if (is_blank ref) (required (entry_child path i "name"))) 0 refs

-- A check of each text of a list that it is not blank.
unfoldable pub validate_names : List String → FieldPath → Problems
validate_names names path =
    each (λ i name. append_if (is_blank name) (required (path ++ indexed i ∷ []))) 0 names
