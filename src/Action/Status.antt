-- ===== src/Action/Status.antt =====
-- internal/controllers/actionrequest_controller.go: the functions that `patchActionRequestStatus`
-- is called with, each from an action request to its new status.
pub mod Prepare
pub mod Started
use servicer.Prelude.{
  ℕ, String, Bool, true, false, not, List, Option, none, some, ◌==◌, eqb, trim_space, if◌then◌else◌,
}
use servicer.Action.{
  Condition, ActionRequestStatus, ActionRequest, ActionExecutionResult, state_prepared,
  state_applied, state_complete, is_terminal, normalized_action_phase, result_code_for_phase,
}

-- `apimeta.SetStatusCondition` is a parameter; its first argument is the list that it changes.
-- `operation_id_of` is the text `<uid>-<generation>` that `fmt.Sprintf` makes; `now` the clock.
pub record Kit : Type 0 where
  pub set_condition : List Condition → Condition → List Condition
  pub operation_id_of : String → ℕ → String
  pub now : ℕ

-- What each patch but that of a running backup does first.
observe : ActionRequest → ActionRequestStatus
observe r = record (r.status) { observed_generation = r.generation }

-- A new generation starts afresh.
reset_operation : Bool → ActionRequestStatus → ActionRequestStatus
reset_operation true s = record s { operation_id = ""; operation_state = "" }
reset_operation false s = s

begin_operation : ActionRequestStatus → ActionRequestStatus
begin_operation s =
    if s.operation_state == "" then record s { operation_state = state_prepared } else s

module _ (kit : Kit) where
  -- `setStatusCondition`; the observed generation and the message of a condition are left out.
  pub set_status_condition : ActionRequestStatus → String → Bool → String → ActionRequestStatus
  set_status_condition s kind status reason = record s {
    conditions =
        kit.set_condition s.conditions (record { kind = kind; status = status; reason = reason });
  }

  unfoldable pub action_operation_id : ActionRequest → String
  action_operation_id r =
      kit.operation_id_of (if trim_space r.uid == "" then r.name else r.uid) r.generation

  unfoldable pub apply_failed_status :
      ActionRequestStatus → String → String → Bool → ActionRequestStatus
  unfolding set_status_condition
  apply_failed_status s reason code retryable =
      let s1 = record s {
        phase = "Failed";
        operation_ref = none;
        result_code = code;
        retryable = retryable;
      } in
      let s2 = set_status_condition s1 "Accepted" false reason in
      let s3 = set_status_condition s2 "Ready" false reason in
      set_status_condition s3 "Failed" true reason

  -- The switch over the phase that was just set.
  finish_execution : ActionRequestStatus → ActionRequestStatus
  unfolding set_status_condition
  finish_execution s =
      if s.phase == "Succeeded"
      then set_status_condition
          (set_status_condition (record s { completed_at = some kit.now }) "Ready" true
            "ActionSucceeded")
          "Failed" false "ActionSucceeded"
      else if s.phase == "Failed"
      then failed_or_cancelled
      else if s.phase == "Cancelled"
      then failed_or_cancelled
      else if s.phase == "Running"
      then set_status_condition (set_status_condition s "Ready" false "ActionRunning") "Failed"
          false "ActionRunning"
      else set_status_condition (set_status_condition s "Ready" false "ActionQueued") "Failed" false
          "ActionQueued"
    where
      failed_or_cancelled : ActionRequestStatus
      failed_or_cancelled =
          set_status_condition
            (set_status_condition (record s { completed_at = some kit.now }) "Ready" false
              "ActionFailed")
            "Failed" true "ActionFailed"

  started : ActionRequestStatus → Option ℕ
  started s = elim s.started_at [ none ↦ some kit.now | some t ↦ some t ]

  unfoldable pub apply_execution_status :
      ActionRequestStatus → ActionExecutionResult → ActionRequestStatus
  unfolding started finish_execution
  apply_execution_status s result =
      let phase = normalized_action_phase result.phase in
      finish_execution (record s {
        started_at = started s;
        phase = phase;
        operation_ref = result.operation_ref;
        result_code = result_code_for_phase phase;
        retryable = result.retryable;
      })

  -- The target and the adapter were found.
  accept : ActionRequest → ActionRequestStatus
  unfolding observe set_status_condition
  accept r =
      set_status_condition (set_status_condition (observe r) "Accepted" true "ValidationSucceeded")
        "Failed" false "ValidationSucceeded"

  unfoldable pub resolution_failed : String → String → Bool → ActionRequest → ActionRequestStatus
  unfolding observe
  resolution_failed reason code retryable r =
      record (apply_failed_status (observe r) reason code retryable) {
        operation_id = "";
        operation_state = state_complete;
      }

  -- A failure after which the operation's identifier stays.
  unfoldable pub completed_with_failure :
      String → String → Bool → ActionRequest → ActionRequestStatus
  unfolding observe
  completed_with_failure reason code retryable r =
      record (apply_failed_status (observe r) reason code retryable) {
        operation_state = state_complete;
      }

  unfoldable pub wait_for_approval : ActionRequest → ActionRequestStatus
  unfolding accept
  wait_for_approval r =
      set_status_condition
        (record (accept r) {
          phase = "PendingApproval";
          operation_ref = none;
          operation_id = "";
          operation_state = "";
          result_code = "approval-required";
          retryable = false;
        })
        "Ready" false "ApprovalRequired"

  -- Rejected, or approved by nobody.
  unfoldable pub refuse : String → String → ActionRequest → ActionRequestStatus
  unfolding accept
  refuse reason code r =
      set_status_condition
        (set_status_condition
          (record (accept r) {
            phase = "Failed";
            operation_ref = none;
            operation_id = "";
            operation_state = state_complete;
            result_code = code;
            retryable = false;
          })
          "Ready" false reason)
        "Failed" true reason

  name_operation : ActionRequest → ActionRequestStatus → ActionRequestStatus
  name_operation r s =
      if trim_space s.operation_id == ""
      then record s { operation_id = action_operation_id r }
      else s

  run_operation : ActionRequestStatus → ActionRequestStatus
  unfolding set_status_condition started
  run_operation s =
      if s.operation_state == state_prepared
      then set_status_condition
          (set_status_condition
            (record s {
              phase = "Running";
              started_at = started s;
              result_code = "running";
              retryable = true;
            })
            "Ready" false "ActionRunning")
          "Failed" false "ActionRunning"
      else s

  unfoldable pub prepare : ActionRequest → ActionRequestStatus
  unfolding accept reset_operation name_operation begin_operation run_operation
  prepare r =
      let new_generation = not (eqb r.status.observed_generation r.generation) in
      run_operation (begin_operation (name_operation r (reset_operation new_generation (accept r))))

  unfoldable pub record_execution : ActionExecutionResult → ActionRequest → ActionRequestStatus
  unfolding observe
  record_execution result r =
      let s = apply_execution_status (observe r) result in
      record s { operation_state = if is_terminal s.phase then state_complete else state_applied }

  -- A running backup was looked at: a finished request stays.
  unfoldable pub record_progress : ActionExecutionResult → ActionRequest → ActionRequestStatus
  record_progress result r =
      if is_terminal r.status.phase
      then r.status
      else let s = apply_execution_status r.status result in
        record s {
          operation_state = if is_terminal s.phase then state_complete else state_applied;
          observed_generation = r.generation;
        }

  -- The Backup object is not there yet.
  unfoldable pub wait_for_backup : ActionExecutionResult → ActionRequest → ActionRequestStatus
  wait_for_backup result r =
      if is_terminal r.status.phase
      then r.status
      else record (apply_execution_status r.status result) {
        operation_state = state_applied;
        observed_generation = r.generation;
      }
