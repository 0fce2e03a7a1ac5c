-- ===== src/Approval.antt =====
-- internal/bff/writes.go: a user's submission of an action, and an approver's decision on it. The
-- cluster's API (its reads, and whether it accepts a write) and the table of contracts are
-- parameters; annotations, the generated name and the idempotency key are left out.
pub mod Decision
pub mod Gate
use servicer.Prelude.{
  Fallible, ok, err, ◌>>=◌, ◌>>◌, check, String, Bool, true, false, ◌&&◌, ◌||◌, not, List, [], ◌∷◌,
  ◌++◌, Option, none, some, ◌==◌, any, contains, trim_space, lower_is, concat, if◌then◌else◌,
}
use servicer.Json.{Json, Fields, end, field, obj}
use servicer.Api.{ServiceInstance, ActionCapability, Lookup, found, not_found, failed}
use servicer.Auth.{
  Actor, role_platform_admin, role_tenant_operator, role_service_consumer, has_any,
  is_platform_admin, require_role,
}
use servicer.Tenancy.{Client, authorize_instance}
use servicer.Action.{
  ApprovalMode, auto, required, approved, rejected, is_required, TypedObjectReference,
  ActionRequestSpec, ActionRequest, action_capability,
}
use servicer.Action.Resolve.{group_version}

-- Why a request is refused, by the status that answers it.
pub data Refusal : Type 0 where
  forbidden bad_request missing unavailable conflict : Refusal

abbrev pub Answer : Type 0 → Type 0
Answer A = Fallible Refusal A

abbrev pub or_refuse : {A : Type 0} → Option A → Refusal → Answer A
or_refuse none e = err e
or_refuse (some a) e = ok a

abbrev pub fetch : {A : Type 0} → Lookup A → Answer A
fetch (found a) = ok a
fetch not_found = err missing
fetch failed = err unavailable

pub record Server : Type 0 where
  pub client : Client
  pub get_instance : String → Lookup ServiceInstance
  pub get_action : String → Lookup ActionRequest
  pub known_contract : String → Option (List ActionCapability)
  pub accepts : Bool

pub record Submission : Type 0 where
  pub action : String
  pub parameters : Fields

unfoldable pub action_capability_for_class :
    (String → Option (List ActionCapability)) → String → String → Option ActionCapability
action_capability_for_class known_contract service_class action =
    elim (known_contract service_class) [
      | none ↦ none
      | some actions ↦ action_capability actions action
    ]

unfoldable pub approval_mode_for : Actor → ActionCapability → ApprovalMode
approval_mode_for a capability =
    if capability.requires_approval
    then if has_any a (role_platform_admin ∷ []) then approved else required
    else auto

unfoldable pub actor_request_identity : Actor → String
actor_request_identity a =
    let provider = trim_space a.provider in
    let subject = trim_space a.subject in
    if not (provider == "") && not (subject == "")
    then concat provider (concat ":" subject)
    else if not (subject == "")
    then subject
    else trim_space a.name

unfoldable pub is_self_approval_request : String → Actor → Bool
is_self_approval_request requested_by a =
    let requested = trim_space requested_by in
    let identity = actor_request_identity a in
    if requested == ""
    then false
    else if not (identity == "") && requested == identity
    then true
    else any (λ legacy. not (legacy == "") && requested == legacy)
        (trim_space a.name
          ∷ trim_space a.subject
          ∷ trim_space a.email
          ∷ trim_space a.user_name
          ∷ [])

-- No map and an empty one are `end`.
pub raw_json_from_map : Fields → Option Json
raw_json_from_map end = none
raw_json_from_map (field name value rest) = some (obj (field name value rest))

-- The spec that `handleSubmitAction` builds.
unfoldable pub submitted_spec : Actor → String → Submission → ActionCapability → ActionRequestSpec
unfolding raw_json_from_map
submitted_spec a instance_name submission capability = record {
  target_ref = record {
    api_version = group_version;
    kind = "ServiceInstance";
    name = instance_name;
    namespace = "";
  };
  action = trim_space submission.action;
  parameters = raw_json_from_map submission.parameters;
  approval_mode = approval_mode_for a capability;
  approved_by = [];
  requested_by = actor_request_identity a;
}

-- The decisions that `handleActionApproval` knows.
abbrev pub is_approve : String → Bool
is_approve decision = lower_is (trim_space decision) "approve"

abbrev pub is_reject : String → Bool
is_reject decision = lower_is (trim_space decision) "reject"

unfoldable pub decided_spec : Bool → Actor → ActionRequestSpec → ActionRequestSpec
decided_spec true a spec = record spec {
  approval_mode = approved;
  approved_by =
      if contains a.name spec.approved_by
      then spec.approved_by
      else spec.approved_by ++ a.name ∷ [];
}
decided_spec false a spec = record spec { approval_mode = rejected; approved_by = [] }

module _ (server : Server) where
  -- `handleSubmitAction`: the spec of the request that it creates. `none` is a body that does not
  -- decode.
  unfoldable pub handle_submit_action :
      Actor → String → Option Submission → Answer ActionRequestSpec
  handle_submit_action caller path_name body = do
    a ←
        or_refuse
          (require_role caller
            (role_platform_admin ∷ role_tenant_operator ∷ role_service_consumer ∷ []))
          forbidden
    submission ← or_refuse body bad_request
    let instance_name = trim_space path_name
    let action_name = trim_space submission.action
    check (not (action_name == "")) bad_request
    instance' ← fetch (server.get_instance instance_name)
    check (authorize_instance server.client a instance') forbidden
    capability ←
        or_refuse
          (action_capability_for_class server.known_contract instance'.service_class_ref
            action_name)
          bad_request
    check
        (not (
          capability.requires_approval
          && not (has_any a (role_platform_admin ∷ role_tenant_operator ∷ []))))
        forbidden
    check server.accepts unavailable
    ok (submitted_spec a instance_name submission capability)

  -- `handleActionApproval`: the request that it stores.
  unfoldable pub handle_action_approval : Actor → String → Option String → Answer ActionRequest
  handle_action_approval caller path_name body = do
    a ← or_refuse (require_role caller (role_platform_admin ∷ role_tenant_operator ∷ [])) forbidden
    let name = trim_space path_name
    check (not (name == "")) bad_request
    decision ← or_refuse body bad_request
    check (is_approve decision || is_reject decision) bad_request
    action ← fetch (server.get_action name)
    instance' ← fetch (server.get_instance action.spec.target_ref.name)
    check (authorize_instance server.client a instance') forbidden
    check (not (is_self_approval_request action.spec.requested_by a && not (is_platform_admin a)))
        forbidden
    check (action.status.phase == "PendingApproval" && is_required action.spec.approval_mode)
        conflict
    check server.accepts unavailable
    ok (record action { spec = decided_spec (is_approve decision) a action.spec })
