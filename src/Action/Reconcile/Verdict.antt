-- ===== src/Action/Reconcile/Verdict.antt =====
-- internal/controllers/actionrequest_controller.go, `Reconcile`: what is stored for a request that is
-- not executed for want of an approval.
use servicer.Prelude.{true, false, List, ◌==◌, ◌≡◌}
use servicer.Action.{
  ActionRequest, is_rejected, approval_pending, approval_approved_without_approver,
  action_already_submitted, state_applied,
}
use servicer.Action.Status.{wait_for_approval, refuse}
use servicer.Action.Status.Started.{updated}
use servicer.Action.Resolve.{Resolved, resolved, resolve_action}
use servicer.Action.World.{Execution, Reply}
use servicer.Action.World.Calm.{calm, get_action-calm}
use servicer.Action.Reconcile.{
  Environment, finished, reconcile, reconcile_found, after_resolution, proceed,
}
use servicer.Action.Reconcile.Calm.{Fair, patch_and_finish-calm}

module _ (env : Environment) (fair : Fair env) (r : ActionRequest) (past : List Execution)
    (x : Resolved) (fresh : action_already_submitted r.status r.generation ≡ false)
    (resolves : resolve_action env.cluster r.spec ≡ resolved x) where
  -- A request that waits for an approval.
  pub waiting-calm :
      approval_pending r.spec x.capability ≡ true
      → (r.status.operation_state == state_applied) ≡ false
      → reconcile env (calm r past)
        ≡ (Reply.done finished, calm (updated r (wait_for_approval env.kit r)) past)
  unfolding reconcile reconcile_found after_resolution proceed
  waiting-calm p a =
      rw (get_action-calm r past, fresh, resolves, p, a) (patch_and_finish-calm env fair _ r past)

  -- A request that nobody approved.
  pub invalid-calm :
      approval_pending r.spec x.capability ≡ false
      → is_rejected r.spec.approval_mode ≡ false
      → approval_approved_without_approver r.spec x.capability ≡ true
      → reconcile env (calm r past) ≡ (
        Reply.done finished,
        calm (updated r (refuse env.kit "ApprovalInvalid" "approval-invalid" r)) past,
      )
  unfolding reconcile reconcile_found after_resolution proceed
  invalid-calm p j o =
      rw (get_action-calm r past, fresh, resolves, p, j, o)
        (patch_and_finish-calm env fair _ r past)
