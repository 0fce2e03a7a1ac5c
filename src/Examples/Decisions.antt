-- ===== src/Examples/Decisions.antt =====
-- The theorems on submissions and decisions at concrete inputs.
use servicer.Prelude.{
  ok, Bool, true, false, [], ◌∷◌, some, ◌==◌, ◌≡◌, ◌≢◌, ◌↔◌, refl, trim_space, equal_fold, lower_is,
  lookup,
}
use servicer.Json.{Fields}
use servicer.Api.{found}
use servicer.Auth.{
  Actor, has_any, has_role, require_role, is_platform_admin, platform_role_satisfies,
  tenant_role_satisfies, has_tenant_access,
}
use servicer.Tenancy.{authorize_instance, authorize_project, tenant_visible_to_actor}
use servicer.Action.{
  required, ActionRequest, is_rejected, approval_pending, approval_approved_without_approver,
  action_already_submitted, action_capability,
}
use servicer.Action.Status.{wait_for_approval, refuse}
use servicer.Action.Status.Started.{updated}
use servicer.Action.Resolve.{Resolved, resolved, resolve_action}
use servicer.Action.World.{Reply}
use servicer.Action.World.Calm.{calm}
use servicer.Action.Reconcile.{finished, reconcile}
use servicer.Approval.{
  Server, Submission, decided_spec, is_approve, handle_submit_action, handle_action_approval,
  action_capability_for_class, is_self_approval_request, actor_request_identity, submitted_spec,
}
use servicer.Approval.Decision.{Admitted, handle_action_approval_iff}
use servicer.Approval.Gate.{approval_opens_gate, rejection_never_ends, admin_submission_fails}
use servicer.Examples.Data.{cache, actor_with, client, backup_capability}
use servicer.Examples.Reconciling.{
  kit, adapter, cluster, environment, Fair-environment, request_with,
}

-- A server that stores this request.
abbrev server : ActionRequest → Server
server request = record {
  client = client;
  get_instance = λ name. found cache;
  get_action = λ name. found request;
  known_contract = λ name. some (backup_capability ∷ []);
  accepts = true;
}

abbrev waiting : ActionRequest
waiting = request_with required [] "PendingApproval"

abbrev operator : Actor
operator = actor_with "omar" ("tenant-operator" ∷ [])

abbrev admin : Actor
admin = actor_with "ada" ("platform-admin" ∷ [])

abbrev decided : Bool → ActionRequest
decided approves = record waiting { spec = decided_spec approves operator waiting.spec }

handle_action_approval_iff_example :
    (handle_action_approval (server waiting) operator "purge-cache" (some "approve")
      ≡ ok (decided true))
    ↔ ((action : ActionRequest) × Admitted (server waiting) operator "purge-cache" "approve" action
        × (decided true
            ≡ record action { spec = decided_spec (is_approve "approve") operator action.spec }))
handle_action_approval_iff_example =
    handle_action_approval_iff (server waiting) operator "purge-cache" "approve" (decided true)

operator_approves :
    handle_action_approval (server waiting) operator "purge-cache" (some "approve")
    ≡ ok (decided true)
unfolding handle_action_approval has_any has_role require_role is_platform_admin
    platform_role_satisfies tenant_role_satisfies has_tenant_access authorize_instance
    authorize_project tenant_visible_to_actor is_self_approval_request actor_request_identity
    trim_space lower_is lookup
operator_approves = refl

approves_lem : is_approve "approve" ≡ true
unfolding trim_space lower_is
approves_lem = refl

approval_opens_gate_example :
    (approval_pending (decided true).spec backup_capability ≡ false)
    × (is_rejected (decided true).spec.approval_mode ≡ false)
    × (approval_approved_without_approver (decided true).spec backup_capability ≡ false)
approval_opens_gate_example =
    approval_opens_gate (server waiting) operator "purge-cache" "approve" (decided true)
      backup_capability operator_approves approves_lem

operator_rejects :
    handle_action_approval (server waiting) operator "purge-cache" (some "reject")
    ≡ ok (decided false)
unfolding handle_action_approval has_any has_role require_role is_platform_admin
    platform_role_satisfies tenant_role_satisfies has_tenant_access authorize_instance
    authorize_project tenant_visible_to_actor is_self_approval_request actor_request_identity
    trim_space lower_is lookup
operator_rejects = refl

rejects_lem : is_approve "reject" ≡ false
unfolding trim_space lower_is
rejects_lem = refl

abbrev target : Resolved
target = record { instance' = cache; adapter = adapter; capability = backup_capability }

abbrev stuck : ActionRequest
stuck = updated (decided false) (wait_for_approval kit (decided false))

rejected_lem : resolve_action cluster (decided false).spec ≡ resolved target
unfolding resolve_action equal_fold action_capability decided_spec
rejected_lem = refl

rejection_never_ends_example :
    (reconcile (environment cluster) (calm (decided false) [])
      ≡ (Reply.done finished, calm stuck []))
    × (handle_action_approval (server stuck) admin "purge-cache" (some "approve") ≢ ok waiting)
rejection_never_ends_example =
    rejection_never_ends (environment cluster) (server waiting) (server stuck) operator admin
      "purge-cache" "reject" "purge-cache" "approve" (decided false) waiting (decided false) []
      target (Fair-environment cluster) operator_rejects rejects_lem refl refl refl rejected_lem
      refl refl

abbrev submission : Submission
submission = record { action = "purge"; parameters = Fields.end }

abbrev submitted : ActionRequest
submitted = record waiting { spec = submitted_spec admin "cache" submission backup_capability }

admin_lem : is_platform_admin admin ≡ true
unfolding is_platform_admin has_any has_role platform_role_satisfies
admin_lem = refl

submitted_lem :
    submitted.spec ≡ submitted_spec admin (trim_space "cache") submission backup_capability
unfolding trim_space
submitted_lem = refl

named_lem : (trim_space submission.action == "") ≡ false
unfolding trim_space
named_lem = refl

known_lem :
    action_capability_for_class
      (λ name. some (backup_capability ∷ []))
      "valkey"
      (trim_space submission.action)
    ≡ some backup_capability
unfolding action_capability_for_class action_capability trim_space
known_lem = refl

submitted_resolves : resolve_action cluster submitted.spec ≡ resolved target
unfolding resolve_action equal_fold action_capability submitted_spec trim_space
submitted_resolves = refl

submitted_fresh : action_already_submitted submitted.status 2 ≡ false
unfolding action_already_submitted
submitted_fresh = refl

admin_submission_fails_example :
    (handle_submit_action (server waiting) admin "cache" (some submission) ≡ ok submitted.spec)
    × (reconcile (environment cluster) (calm submitted []) ≡ (
      Reply.done finished,
      calm (updated submitted (refuse kit "ApprovalInvalid" "approval-invalid" submitted)) [],
    ))
admin_submission_fails_example =
    admin_submission_fails (server waiting) (environment cluster) admin "cache" submission cache
      backup_capability submitted [] target (Fair-environment cluster) admin_lem refl named_lem
      known_lem refl refl submitted_lem submitted_fresh submitted_resolves refl
