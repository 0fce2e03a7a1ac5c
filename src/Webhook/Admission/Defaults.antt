-- ===== src/Webhook/Admission/Defaults.antt =====
-- api/v1alpha1/webhook_validation.go: what the mutating webhook leaves alone.
use servicer.Prelude.{
  inl, inr, String, Bool, true, false, ◌&&◌, Option, none, some, ◌==◌, ◌≡◌, refl, Bool-cases,
  if◌then◌else◌,
}
use servicer.Webhook.Checks.{
  SecretPolicy, VaultSecretProvider, external_secret, or_default, default_exposure,
  default_deletion, default_vault, default_secret_policy,
}
use servicer.Webhook.Catalog.{default_operator_package}
use servicer.Webhook.Tenants.{default_tenant, default_project, default_namespace_claim}
use servicer.Webhook.Instances.{
  default_action_request, default_service_instance, default_service_binding,
  default_virtual_machine_claim,
}
use servicer.Webhook.Admission.{
  Kind, action_request, operator_package, project, service_instance, tenant, namespace_claim,
  service_binding, virtual_machine_claim, Spec, default_object,
}
use servicer.Webhook.Admission.Immutable.{immutable}

or_default_idem :
    (value default : String)
    → or_default (or_default value default) default ≡ or_default value default
or_default_idem value default = elim (Bool-cases (value == "")) [
  | inl e ↦ rw e (elim (Bool-cases (default == "")) [ inl f ↦ rw f refl | inr f ↦ rw f refl ])
  | inr e ↦ rw e (rw e refl)
]

-- A default that is given on a condition.
fill_idem :
    (test : Bool) (value default : String)
    → (if test && (if test && value == "" then default else value) == ""
        then default
        else (if test && value == "" then default else value))
      ≡ (if test && value == "" then default else value)
fill_idem false value default = refl
fill_idem true value default = or_default_idem value default

default_vault_idem :
    (vault : Option VaultSecretProvider) → default_vault (default_vault vault) ≡ default_vault vault
unfolding default_vault
default_vault_idem none = refl
default_vault_idem (some vault) =
    rw (or_default_idem vault.path "secret", or_default_idem vault.version "v2") refl

default_secret_policy_idem :
    (p : SecretPolicy) → default_secret_policy (default_secret_policy p) ≡ default_secret_policy p
unfolding default_secret_policy
default_secret_policy_idem p =
    rw
      (
        or_default_idem p.delivery_mode external_secret,
        default_vault_idem p.vault,
        fill_idem (or_default p.delivery_mode external_secret == external_secret)
            p.external_secret_provider "kubernetes",
      )
      refl

-- Filling in the defaults twice is filling them in once, and it touches no field that may not change.
pub default_object_settles :
    (kind : Kind) (spec : Spec kind)
    → (default_object kind (default_object kind spec) ≡ default_object kind spec)
      × (immutable kind (default_object kind spec) ≡ immutable kind spec)
unfolding default_object default_action_request default_operator_package default_tenant
    default_project default_namespace_claim default_service_instance default_service_binding
    default_virtual_machine_claim default_exposure default_deletion
default_object_settles action_request s = (
  rw (or_default_idem s.approval_mode "auto", or_default_idem s.requested_by_source "api") refl,
  refl,
)
default_object_settles operator_package s = (
  rw
      (
        or_default_idem s.target_namespace "operators",
        or_default_idem s.source.target_revision "HEAD",
      )
      refl,
  refl,
)
default_object_settles tenant s = (rw (or_default_idem s.lifecycle_phase "active") refl, refl)
default_object_settles project s = (
  rw
      (
        or_default_idem s.namespace_mode "dedicated",
        fill_idem (or_default s.namespace_mode "dedicated" == "dedicated") s.namespace_prefix
            s.name,
      )
      refl,
  refl,
)
default_object_settles namespace_claim s =
    (rw (or_default_idem s.deletion_policy "delete") refl, refl)
default_object_settles service_instance s = (
  rw
      (
        or_default_idem s.exposure_mode "cluster-internal",
        default_secret_policy_idem s.secret_policy,
        or_default_idem s.deletion_policy "delete",
      )
      refl,
  refl,
)
default_object_settles service_binding s =
    (rw (default_secret_policy_idem s.secret_policy) refl, refl)
default_object_settles virtual_machine_claim s = (
  rw
      (
        or_default_idem s.exposure_mode "cluster-internal",
        default_secret_policy_idem s.secret_policy,
        or_default_idem s.deletion_policy "delete",
        or_default_idem s.power_state "running",
      )
      refl,
  refl,
)
default_object_settles _ s = (refl, refl)
