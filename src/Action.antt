-- ===== src/Action.antt =====
-- api/v1alpha1/actionrequest_types.go, and the parts of
-- internal/controllers/actionrequest_controller.go that look at one action request.
pub mod Status
pub mod Resolve
pub mod Backup
pub mod World
pub mod Reconcile
use servicer.Prelude.{
  is_empty, ℕ, String, Bool, true, false, ◌&&◌, ◌||◌, not, List, [], ◌∷◌, Option, none, some, ◌==◌,
  eqb, trim_space, if◌then◌else◌,
}
use servicer.Json.{Json}
use servicer.Api.{ActionCapability}

-- The CRD admits no other mode.
pub data ApprovalMode : Type 0 where
  auto required approved rejected : ApprovalMode

pub record TypedObjectReference : Type 0 where
  pub api_version : String
  pub kind : String
  pub name : String
  pub namespace : String

pub record ActionRequestSpec : Type 0 where
  pub target_ref : TypedObjectReference
  pub action : String
  pub parameters : Option Json
  pub approval_mode : ApprovalMode
  pub approved_by : List String
  pub requested_by : String

pub record Condition : Type 0 where
  pub kind : String
  pub status : Bool
  pub reason : String

-- Times are numbers; the texts of messages are left out.
pub record ActionRequestStatus : Type 0 where
  pub observed_generation : ℕ
  pub phase : String
  pub conditions : List Condition
  pub started_at : Option ℕ
  pub completed_at : Option ℕ
  pub operation_ref : Option TypedObjectReference
  pub operation_id : String
  pub operation_state : String
  pub result_code : String
  pub retryable : Bool

pub record ActionRequest : Type 0 where
  pub name : String
  pub uid : String
  pub generation : ℕ
  pub spec : ActionRequestSpec
  pub status : ActionRequestStatus

pub record ActionExecutionResult : Type 0 where
  pub phase : String
  pub operation_ref : Option TypedObjectReference
  pub retryable : Bool

abbrev pub state_prepared : String
state_prepared = "Prepared"

abbrev pub state_applied : String
state_applied = "Applied"

abbrev pub state_complete : String
state_complete = "Complete"

abbrev pub is_required : ApprovalMode → Bool
is_required required = true
is_required _ = false

abbrev pub is_approved : ApprovalMode → Bool
is_approved approved = true
is_approved _ = false

abbrev pub is_rejected : ApprovalMode → Bool
is_rejected rejected = true
is_rejected _ = false

unfoldable pub approval_pending : ActionRequestSpec → ActionCapability → Bool
approval_pending spec capability =
    if is_required spec.approval_mode
    then true
    else capability.requires_approval && not (is_approved spec.approval_mode)

unfoldable pub approval_approved_without_approver : ActionRequestSpec → ActionCapability → Bool
approval_approved_without_approver spec capability =
    if not capability.requires_approval
    then false
    else if not (is_approved spec.approval_mode)
    then false
    else is_empty spec.approved_by

unfoldable pub action_capability : List ActionCapability → String → Option ActionCapability
action_capability [] action = none
action_capability (capability ∷ capabilities) action =
    if capability.name == action then some capability else action_capability capabilities action

-- The phases that end an action.
unfoldable pub is_terminal : String → Bool
is_terminal phase = phase == "Succeeded" || phase == "Failed" || phase == "Cancelled"

unfoldable pub action_already_submitted : ActionRequestStatus → ℕ → Bool
action_already_submitted status generation =
    if not (eqb status.observed_generation generation) then false else is_terminal status.phase

unfoldable pub normalized_action_phase : String → String
normalized_action_phase phase =
    let trimmed = trim_space phase in
    if trimmed == "Running"
      || trimmed == "Succeeded"
      || trimmed == "Failed"
      || trimmed == "Cancelled"
    then trimmed
    else "Queued"

unfoldable pub valid_action_operation_state : String → Bool
valid_action_operation_state state =
    let trimmed = trim_space state in
    trimmed == ""
    || trimmed == state_prepared
    || trimmed == state_applied
    || trimmed == state_complete

unfoldable pub result_code_for_phase : String → String
result_code_for_phase phase =
    if phase == "Running"
    then "running"
    else if phase == "Succeeded"
    then "succeeded"
    else if phase == "Failed"
    then "failed"
    else if phase == "Cancelled"
    then "cancelled"
    else "queued"
