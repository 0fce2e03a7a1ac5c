-- ===== src/Webhook/Admission/History.antt =====
-- api/v1alpha1/webhook_validation.go: an object of the cluster, from its creation on, as the webhooks
-- let it come to be. Each request may meet another environment.
use servicer.Prelude.{◌≡◌, refl, ok, ◌∙◌}
use servicer.Webhook.Problems.{Environment}
use servicer.Webhook.Admission.{Kind, Spec, default_object, validate_create, validate_update}
use servicer.Webhook.Admission.Immutable.{immutable}
use servicer.Webhook.Admission.Updates.{validate_update_iff}
use servicer.Webhook.Admission.Defaults.{default_object_settles}

-- What is stored after a creation and updates; one that is refused stores nothing.
-- The environment is the one of the last request.
pub data Stored (kind : Kind) : Environment → Spec kind → Spec kind → Type 0 where
  created :
      (env : Environment) (requested : Spec kind)
      → validate_create env kind (default_object kind requested) ≡ ok tt
      → Stored kind env (default_object kind requested) (default_object kind requested)
  updated :
      {earlier : Environment} {first previous : Spec kind}
      → Stored kind earlier first previous
      → (env : Environment) (requested : Spec kind)
      → validate_update env kind previous (default_object kind requested) ≡ ok tt
      → Stored kind env first (default_object kind requested)

-- What is stored has the values that its first version had in the fields that may not change, has
-- its defaults, and would be let in as a new object in the environment of the last request.
pub stored_keeps :
    (kind : Kind) (env : Environment) (first now : Spec kind)
    → Stored kind env first now
    → (immutable kind first ≡ immutable kind now)
      × (default_object kind now ≡ now)
      × (validate_create env kind now ≡ ok tt)
stored_keeps kind _ _ _ (created env requested h) =
    (refl, (default_object_settles kind requested).0, h)
stored_keeps kind _ first _ (updated {earlier = earlier} {previous = previous} s env requested h) =
    let (valid, same) =
      (validate_update_iff env kind previous (default_object kind requested)).0 h in
    let (kept, defaulted, was_valid) = stored_keeps kind earlier first previous s in
    (kept ∙ same, (default_object_settles kind requested).0, valid)
