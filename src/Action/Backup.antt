-- ===== src/Action/Backup.antt =====
-- internal/controllers/actionrequest_controller.go, `cnpgBackupExecutionResult`: the state of a
-- CloudNativePG Backup object as the result of an action.
use servicer.Prelude.{
  String, true, false, ◌||◌, not, List, [], ◌∷◌, some, ◌==◌, trim_space, lower_is, if◌then◌else◌,
}
use servicer.Action.{TypedObjectReference, ActionExecutionResult}

-- The fields of `status`; a missing one is empty.
pub record Backup : Type 0 where
  pub phase : String
  pub error : String
  pub command_error : String
  pub failure : String
  pub message : String

-- `firstNonEmptyString`.
pub first_non_empty_string : List String → String
first_non_empty_string [] = ""
first_non_empty_string (value ∷ values) =
    if not (trim_space value == "") then value else first_non_empty_string values

unfoldable pub cnpg_backup_execution_result : Backup → TypedObjectReference → ActionExecutionResult
unfolding first_non_empty_string
cnpg_backup_execution_result backup ref =
    let phase = trim_space backup.phase in
    let error_text = first_non_empty_string (
      trim_space backup.error
      ∷ trim_space backup.command_error
      ∷ trim_space backup.failure
      ∷ trim_space backup.message
      ∷ []) in
    if lower_is phase "completed"
      || lower_is phase "succeeded"
      || lower_is phase "success"
      || lower_is phase "done"
    then record { phase = "Succeeded"; operation_ref = some ref; retryable = false }
    else if lower_is phase "failed" || lower_is phase "error"
    then record { phase = "Failed"; operation_ref = some ref; retryable = true }
    else if not (error_text == "")
    then record { phase = "Failed"; operation_ref = some ref; retryable = true }
    else if phase == ""
        || lower_is phase "pending"
        || lower_is phase "queued"
        || lower_is phase "starting"
    then record { phase = "Queued"; operation_ref = some ref; retryable = true }
    else record { phase = "Running"; operation_ref = some ref; retryable = true }
