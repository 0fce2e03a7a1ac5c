-- ===== src/Action/Reconcile/Stale.antt =====
-- internal/controllers/actionrequest_controller.go, `Reconcile`, with a cache that lags behind: a read
-- from before the operation was applied.
use servicer.Prelude.{
  ℕ, suc, true, false, List, [], ◌∷◌, ◌++◌, some, ◌==◌, ◌≡◌, refl, ◌∙◌, ap, trim_space,
}
use servicer.Action.{
  ActionRequest, state_prepared, state_applied, is_rejected, approval_pending,
  approval_approved_without_approver, action_already_submitted, valid_action_operation_state,
}
use servicer.Action.Status.{prepare}
use servicer.Action.Status.Started.{updated}
use servicer.Action.Resolve.{Resolved, resolved, resolve_action}
use servicer.Action.World.{World, Execution, stale, done, get_action, patch_action_request_status}
use servicer.Action.World.Calm.{calm, get_action-calm}
use servicer.Action.World.Lagging.{get_action-stale, patch-stale, patch-changed}
use servicer.Action.Reconcile.{
  Environment, patch, perform, advance, run, proceed, after_resolution, reconcile_found, reconcile,
}
use servicer.Action.Reconcile.Trace.{executions-settle}

-- An execution under the identifier of `p`, found with what `w` has stored.
abbrev pub execution_of : ActionRequest → World → Execution
execution_of p w = record { operation_id = p.status.operation_id; stored = w.stored }

module _ (env : Environment) (x : Resolved) where
  executions-advance :
      (p : ActionRequest) (w : World)
      → p.status.operation_state ≡ state_prepared
      → (advance env x p w).1.executions ≡ w.executions ++ execution_of p w ∷ []
  unfolding advance perform valid_action_operation_state trim_space
  executions-advance p w h =
      let applied : (p.status.operation_state == state_applied) ≡ false =
        ap (λ s. s == state_applied) h in
      let valid : valid_action_operation_state p.status.operation_state ≡ true =
        ap valid_action_operation_state h in
      let prepared : (p.status.operation_state == state_prepared) ≡ true =
        ap (λ s. s == state_prepared) h in
      rw (applied, valid, prepared) (executions-settle env _ _)

  -- What the checks of `reconcile` ask of a request that was read.
  pub record Passes (r : ActionRequest) : Type 0 where
    pub fresh : action_already_submitted r.status r.generation ≡ false
    pub resolves : resolve_action env.cluster r.spec ≡ resolved x
    pub not_pending : approval_pending r.spec x.capability ≡ false
    pub not_rejected : is_rejected r.spec.approval_mode ≡ false
    pub has_approver : approval_approved_without_approver r.spec x.capability ≡ false

  executions-reconcile :
      (r p : ActionRequest) (w w1 w2 : World)
      → Passes r
      → p.status.operation_state ≡ state_prepared
      → get_action w ≡ (done (some r), w1)
      → patch_action_request_status env.same_status env.merge_status env.retry_rounds
          (prepare env.kit)
          w1
        ≡ (done p, w2)
      → (reconcile env w).1.executions ≡ w2.executions ++ execution_of p w2 ∷ []
  unfolding reconcile reconcile_found after_resolution proceed run patch
  executions-reconcile r p w w1 w2 h prepared reading patching =
      rw (reading, h.fresh, h.resolves, h.not_pending, h.not_rejected, h.has_approver, patching)
        (executions-advance p w2 prepared)

-- A request that passes all checks, and whose preparation as `Prepared` changes its status and is
-- stored as it was made, is executed once. Where the cache of the next reconciliation still holds
-- the request as it was prepared, and it passes the checks as such and preparing it again changes
-- nothing, it is executed a second time, under the same operation identifier, whatever the first
-- execution has stored.
pub stale_cache_executes_again :
    (env : Environment) (x : Resolved) (r : ActionRequest) (past : List Execution) (rounds : ℕ)
    → let p = updated r (prepare env.kit r) in
      env.retry_rounds ≡ suc rounds
      → Passes env x r
      → Passes env x p
      → p.status.operation_state ≡ state_prepared
      → env.same_status r.status p.status ≡ false
      → env.merge_status r.status p.status r.status ≡ p.status
      → prepare env.kit p ≡ p.status
      → env.same_status p.status p.status ≡ true
      → (first again : Execution) × ((reconcile env (calm r past)).1.executions
          ≡ past ++ first ∷ [])
        × ((reconcile env (record ((reconcile env (calm r past)).1) {
          events = stale (some p) ∷ stale (some p) ∷ [];
        })).1.executions
            ≡ past ++ first ∷ [] ++ again ∷ [])
        × (first.operation_id ≡ p.status.operation_id)
        × (again.operation_id ≡ p.status.operation_id)
        × (again.stored ≡ (reconcile env (calm r past)).1.stored)
stale_cache_executes_again env x r past rounds granted passes still prepared changed merges settled
      same =
    let p = updated r (prepare env.kit r) in
    let w = (reconcile env (calm r past)).1 in
    let mutate = prepare env.kit in
    let once =
      executions-reconcile env x r p (calm r past) (calm r past) (calm p past) passes prepared
        (get_action-calm r past)
        (rw granted
          (patch-changed env.same_status env.merge_status mutate rounds r past changed merges)) in
    let twice =
      executions-reconcile env x p p (record w { events = stale (some p) ∷ stale (some p) ∷ [] })
        (record w { events = stale (some p) ∷ [] }) (record w { events = [] }) still prepared
        (get_action-stale w (some p) (stale (some p) ∷ []))
        (ap
            (λ n.
              patch_action_request_status env.same_status env.merge_status n mutate
                (record w { events = stale (some p) ∷ [] }))
            granted
          ∙ patch-stale env.same_status env.merge_status mutate rounds p w settled same) in
    (
      execution_of p (calm p past),
      execution_of p w,
      once,
      twice ∙ ap (λ es. es ++ execution_of p w ∷ []) once,
      refl,
      refl,
      refl,
    )
