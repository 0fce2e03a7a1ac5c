-- ===== src/Action/Reconcile.antt =====
-- internal/controllers/actionrequest_controller.go, `Reconcile` of the action requests. What runs an
-- action (`executeAction`) and what reads a Backup object are parameters.
pub mod Trace
pub mod Gate
pub mod Calm
pub mod Once
pub mod History
pub mod Verdict
pub mod Stale
use servicer.Prelude.{
  ℕ, String, Bool, true, false, ◌&&◌, ◌||◌, not, [], ◌∷◌, ◌++◌, Option, none, some, ◌==◌,
  if◌then◌else◌,
}
use servicer.Api.{Lookup, found, not_found, failed}
use servicer.Action.{
  TypedObjectReference, ActionRequestStatus, ActionRequest, ActionExecutionResult, state_prepared,
  state_applied, is_rejected, approval_pending, approval_approved_without_approver,
  action_already_submitted, valid_action_operation_state,
}
use servicer.Action.Status.{
  Kit, resolution_failed, completed_with_failure, wait_for_approval, refuse, prepare,
  record_execution, record_progress, wait_for_backup,
}
use servicer.Action.Backup.{Backup, cnpg_backup_execution_result}
use servicer.Action.Resolve.{
  Cluster, Resolved, Resolution, resolved, refused, broken, resolve_action,
}
use servicer.Action.World.{World, Merge, M, ◌>>=◌, pure, get_action, patch_action_request_status}
use servicer.Action.World

pub record Environment : Type 0 where
  pub cluster : Cluster
  pub kit : Kit
  pub same_status : ActionRequestStatus → ActionRequestStatus → Bool
  pub merge_status : Merge
  pub retry_rounds : ℕ
  pub execute : Resolved → ActionRequest → String → Option ActionExecutionResult
  pub get_backup : TypedObjectReference → Lookup Backup

pub data Outcome : Type 0 where
  finished requeue_after_30s : Outcome

module _ (env : Environment) where
  pub patch : (ActionRequest → ActionRequestStatus) → M ActionRequest
  patch = patch_action_request_status env.same_status env.merge_status env.retry_rounds

  pub patch_and_finish : (ActionRequest → ActionRequestStatus) → M Outcome
  unfolding patch
  patch_and_finish mutate = do patched ← patch mutate; pure finished

  -- The call of `executeAction`; an error is `none`.
  pub perform : Resolved → ActionRequest → M (Option ActionExecutionResult)
  perform x prepared w = (
    World.done (env.execute x prepared prepared.status.operation_id),
    record w {
      executions =
          w.executions
          ++ record { operation_id = prepared.status.operation_id; stored = w.stored } ∷ [];
    },
  )

  is_backup_ref : TypedObjectReference → Bool
  is_backup_ref ref =
      ref.kind == "Backup"
      && ref.api_version == "postgresql.cnpg.io/v1"
      && not (ref.name == "")
      && not (ref.namespace == "")

  follow_backup : TypedObjectReference → M Outcome
  follow_backup ref = elim (env.get_backup ref) [
    | failed ↦ λ w. (World.failed, w)
    | not_found ↦ patch_and_finish (
        wait_for_backup env.kit
          (record { phase = "Queued"; operation_ref = some ref; retryable = true }))
    | found backup ↦
        patch_and_finish (record_progress env.kit (cnpg_backup_execution_result backup ref))
  ]

  -- Only backups of CloudNativePG are followed once they are applied.
  pub reconcile_in_flight_action : Resolved → ActionRequest → M Outcome
  unfolding follow_backup is_backup_ref
  reconcile_in_flight_action x request =
      if not (x.adapter.runtime_driver == "cnpg") || not (request.spec.action == "backup")
      then pure finished
      else elim request.status.operation_ref [
        | none ↦ pure finished
        | some ref ↦ if is_backup_ref ref then follow_backup ref else pure finished
      ]

  -- After the execution.
  pub settle : Option ActionExecutionResult → M Outcome
  settle none =
      patch_and_finish
        (completed_with_failure env.kit "ActionExecutionFailed" "execution-failed" true)
  settle (some result) = patch_and_finish (record_execution env.kit result)

  -- After the operation's identifier and state are stored.
  pub advance : Resolved → ActionRequest → M Outcome
  unfolding reconcile_in_flight_action settle
  advance x prepared =
      let state = prepared.status.operation_state in
      if state == state_applied
      then reconcile_in_flight_action x prepared
      else if not (valid_action_operation_state state)
      then patch_and_finish
          (completed_with_failure env.kit "InvalidOperationState" "invalid-operation-state" false)
      else if not (state == state_prepared)
      then pure finished
      else do result ← perform x prepared; settle result

  pub run : Resolved → M Outcome
  unfolding advance
  run x = do prepared ← patch (prepare env.kit); advance x prepared

  -- What becomes of a request whose target was found.
  pub proceed : Resolved → ActionRequest → M Outcome
  unfolding run
  proceed x request =
      let pending = approval_pending request.spec x.capability in
      if pending && request.status.operation_state == state_applied
      then patch_and_finish
          (completed_with_failure env.kit "ApprovalInvalidState" "approval-invalid-state" false)
      else if pending
      then patch_and_finish (wait_for_approval env.kit)
      else if is_rejected request.spec.approval_mode
      then patch_and_finish (refuse env.kit "ApprovalRejected" "approval-rejected")
      else if approval_approved_without_approver request.spec x.capability
      then patch_and_finish (refuse env.kit "ApprovalInvalid" "approval-invalid")
      else run x

  pub after_resolution : Resolution Resolved → ActionRequest → M Outcome
  unfolding proceed
  after_resolution (resolved x) request = proceed x request
  after_resolution (refused e) request = do
    done ← patch (resolution_failed env.kit e.reason e.code e.retryable)
    if e.requeue then pure requeue_after_30s else pure finished
  after_resolution broken request = λ w. (World.failed, w)

  pub reconcile_found : Option ActionRequest → M Outcome
  unfolding after_resolution
  reconcile_found none = pure finished
  reconcile_found (some request) =
      if action_already_submitted request.status request.generation
      then pure finished
      else after_resolution (resolve_action env.cluster request.spec) request

  unfoldable pub reconcile : M Outcome
  unfolding reconcile_found
  reconcile = do request ← get_action; reconcile_found request
