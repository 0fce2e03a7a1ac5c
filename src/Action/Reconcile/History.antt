-- ===== src/Action/Reconcile/History.antt =====
-- internal/controllers/actionrequest_controller.go, `Reconcile`: histories of reconciliations where no
-- call fails, no client interferes and each read sees what is stored. The environment, what other resources hold and what an
-- execution returns, may differ from one to the next.
use servicer.Prelude.{
  suc, ◌≤◌, some, true, false, List, [], ◌∷◌, ◌++◌, ◌≡◌, refl, ◌∙◌, ap, arith, inl, inr, length,
  length-append, All,
}
use servicer.Action.{ActionRequest, action_already_submitted}
use servicer.Action.Status.{resolution_failed}
use servicer.Action.Status.Started.{
  Started, updated, resolution_failed-Ended, resolution_failed_lem, submitted_of_Ended,
}
use servicer.Action.Resolve.{ActionResolutionError, refused, resolve_action}
use servicer.Action.World.{World, Execution, done}
use servicer.Action.World.Calm.{calm, get_action-calm}
use servicer.Action.Reconcile.{
  Environment, finished, requeue_after_30s, reconcile, reconcile_found, after_resolution,
}
use servicer.Action.Reconcile.Calm.{Fair, patch_then-calm}
use servicer.Action.Reconcile.Once.{reconcile-Step}

-- One reconciliation after the other.
abbrev pub reconciles : List Environment → World → World
reconciles [] w = w
reconciles (env ∷ envs) w = reconciles envs (reconcile env w).1

Started-executions :
    (envs : List Environment) (r : ActionRequest) (past : List Execution)
    → All Fair envs
    → Started r
    → (reconciles envs (calm r past)).executions ≡ past
Started-executions [] r past fair started = refl
Started-executions (env ∷ envs) r past (f, fs) started =
    let (o, r', step) = reconcile-Step env f r past in
    elim step [
      | inl (moved, kept) ↦
          ap (λ t. (reconciles envs t.1).executions) moved
          ∙ Started-executions envs r' past fs (kept started)
      | inr (e, moved, started', fresh) ↦ absurd (fresh started)
    ]

-- However often a stored request is reconciled, where no call fails, no client edits it and each read
-- sees what is stored, the cache not lagging behind, under whatever environments whose comparison
-- of statuses is sound and whose patches have a round and make what changed since the stored status
-- the new one: at most one execution is added.
pub executions-reconciles :
    (envs : List Environment) (r : ActionRequest) (past : List Execution)
    → All Fair envs
    → length (reconciles envs (calm r past)).executions ≤ suc (length past)
executions-reconciles [] r past fair = omega arith
executions-reconciles (env ∷ envs) r past (f, fs) =
    let (o, r', step) = reconcile-Step env f r past in
    elim step [
      | inl (moved, kept) ↦
          let next = ap (λ t. length (reconciles envs t.1).executions) moved in
          omega (arith, next, executions-reconciles envs r' past fs)
      | inr (e, moved, started, fresh) ↦
          let next = ap (λ t. length (reconciles envs t.1).executions) moved in
          let kept = ap length (Started-executions envs r' (past ++ e ∷ []) fs started) in
          omega (arith, next, kept, length-append past (e ∷ []))
    ]

-- A request that was submitted for its generation is left alone.
submitted-calm :
    (env : Environment) (r : ActionRequest) (past : List Execution)
    → action_already_submitted r.status r.generation ≡ true
    → reconcile env (calm r past) ≡ (done finished, calm r past)
unfolding reconcile reconcile_found
submitted-calm env r past h = rw (get_action-calm r past, h) refl

refused-calm :
    (env : Environment) (r : ActionRequest) (past : List Execution) (e : ActionResolutionError)
    → Fair env
    → action_already_submitted r.status r.generation ≡ false
    → resolve_action env.cluster r.spec ≡ refused e
    → e.requeue ≡ true
    → reconcile env (calm r past) ≡ (
      done requeue_after_30s,
      calm (updated r (resolution_failed env.kit e.reason e.code e.retryable r)) past,
    )
unfolding reconcile reconcile_found after_resolution
refused-calm env r past e fair fresh missing again =
    rw (get_action-calm r past, fresh, missing, again)
      (patch_then-calm env fair _ requeue_after_30s r past)

-- Where no call fails, no client edits it and each read sees what is stored, and the first comparison
-- of statuses is sound and its patch has a round and makes what changed the new status: a request whose
-- target misses a dependency is stored as Failed for its generation, with the code of what is
-- missing, its spec unchanged and nothing executed, and is put back for
-- a retry in 30 seconds; but the retry, under whatever environment, returns at once and
-- changes nothing, also where the dependency is there by then.
pub requeue_never_retries :
    (env later : Environment) (r : ActionRequest) (past : List Execution)
    (e : ActionResolutionError)
    → Fair env
    → action_already_submitted r.status r.generation ≡ false
    → resolve_action env.cluster r.spec ≡ refused e
    → e.requeue ≡ true
    → (w : World) × (stored : ActionRequest) × (reconcile env (calm r past)
        ≡ (done requeue_after_30s, w))
      × (w.stored ≡ some stored)
      × (stored.status.phase ≡ "Failed")
      × (stored.status.observed_generation ≡ r.generation)
      × (stored.status.result_code ≡ e.code)
      × (stored.spec ≡ r.spec)
      × (w.executions ≡ past)
      × (reconcile later w ≡ (done finished, w))
requeue_never_retries env later r past e fair fresh missing again =
    let failed = resolution_failed env.kit e.reason e.code e.retryable r in
    let (phase, seen, code) = resolution_failed_lem env.kit r e.reason e.code e.retryable in
    (
      calm (updated r failed) past,
      updated r failed,
      refused-calm env r past e fair fresh missing again,
      refl,
      phase,
      seen,
      code,
      refl,
      refl,
      submitted-calm later (updated r failed) past (
          submitted_of_Ended r failed
            (resolution_failed-Ended env.kit r e.reason e.code e.retryable)),
    )
