-- ===== src/Approval/Gate.antt =====
-- internal/bff/writes.go and internal/controllers/actionrequest_controller.go together: what the
-- controller makes of a submitted, an approved and a rejected action. Nothing fails between the two.
use servicer.Prelude.{
  ok, String, true, false, List, [], ◌∷◌, ◌++◌, some, ◌==◌, ◌≡◌, refl, sym, ◌∙◌, ap, arith,
  contains, trim_space, Bool-cases, inl, inr, eqb, and_true, eq_iff, ◌≢◌,
}
use servicer.Api.{ServiceInstance, ActionCapability, found}
use servicer.Auth.{
  Actor, role_platform_admin, role_tenant_operator, role_service_consumer, has_any,
  is_platform_admin, require_role,
}
use servicer.Tenancy.{authorize_instance}
use servicer.Action.{
  ActionRequestSpec, ActionRequestStatus, ActionRequest, approved, is_terminal, is_required,
  is_rejected, approval_pending, approval_approved_without_approver, action_already_submitted,
  state_applied,
}
use servicer.Action.Status.{wait_for_approval, refuse}
use servicer.Action.Status.Started.{updated}
use servicer.Action.Resolve.{Resolved, resolved, resolve_action}
use servicer.Action.World.{Execution, Reply}
use servicer.Action.World.Calm.{calm}
use servicer.Action.Reconcile.{Environment, finished, reconcile}
use servicer.Action.Reconcile.Calm.{Fair}
use servicer.Approval.{
  Server, Submission, decided_spec, is_approve, handle_submit_action, handle_action_approval,
  action_capability_for_class, approval_mode_for, submitted_spec,
}
use servicer.Action.Reconcile.Verdict.{waiting-calm, invalid-calm}
use servicer.Approval.Decision.{handle_action_approval_iff}

is_nil_snoc :
    (xs : List String) (x : String) (a : ActionRequestSpec) (c : ActionCapability)
    → approval_approved_without_approver (record a { approved_by = xs ++ x ∷ [] }) c ≡ false
unfolding approval_approved_without_approver
is_nil_snoc [] x a c = ground arith
is_nil_snoc (y ∷ ys) x a c = ground arith

has_approver_lem :
    (xs : List String) (name : String) (a : ActionRequestSpec) (c : ActionCapability)
    → contains name xs ≡ true
    → approval_approved_without_approver (record a { approved_by = xs }) c ≡ false
unfolding approval_approved_without_approver
has_approver_lem [] name a c h = cc
has_approver_lem (y ∷ ys) name a c h = ground arith

decided_lem :
    (a : Actor) (spec : ActionRequestSpec) (c : ActionCapability)
    → (approval_pending (decided_spec true a spec) c ≡ false)
      × (is_rejected (decided_spec true a spec).approval_mode ≡ false)
      × (approval_approved_without_approver (decided_spec true a spec) c ≡ false)
unfolding decided_spec approval_pending
decided_lem a spec c = elim (Bool-cases (contains a.name spec.approved_by)) [
  | inl e ↦ rw e (
    ground arith,
    refl,
    has_approver_lem spec.approved_by a.name (record spec { approval_mode = approved }) c e,
  )
  | inr e ↦ rw e (
    ground arith,
    refl,
    is_nil_snoc spec.approved_by a.name (record spec { approval_mode = approved }) c,
  )
]

-- A decision to approve that is stored passes the controller's three tests of an approval,
-- whatever the capability of the action asks for.
pub approval_opens_gate :
    (server : Server) (a : Actor) (name decision : String) (stored : ActionRequest)
    (c : ActionCapability)
    → handle_action_approval server a name (some decision) ≡ ok stored
    → is_approve decision ≡ true
    → (approval_pending stored.spec c ≡ false)
      × (is_rejected stored.spec.approval_mode ≡ false)
      × (approval_approved_without_approver stored.spec c ≡ false)
approval_opens_gate server a name decision stored c h approves =
    let (action, admitted, e) = (handle_action_approval_iff server a name decision stored).0 h in
    rw (e, approves) (decided_lem a action.spec c)

rejected_pending :
    (a : Actor) (spec : ActionRequestSpec) (c : ActionCapability)
    → c.requires_approval ≡ true
    → (approval_pending (decided_spec false a spec) c ≡ true)
      × (is_required (decided_spec false a spec).approval_mode ≡ false)
unfolding decided_spec approval_pending
rejected_pending a spec c h = rw h (refl, refl)

fresh_of_pending :
    (r : ActionRequest)
    → r.status.phase ≡ "PendingApproval"
    → action_already_submitted r.status r.generation ≡ false
unfolding action_already_submitted is_terminal
fresh_of_pending r h = elim (Bool-cases (eqb r.status.observed_generation r.generation)) [
  | inl e ↦ rw (e, h) refl
  | inr e ↦ rw e refl
]

-- Where the action needs an approval, a rejection that is stored does not end the request: the
-- controller puts it back to `PendingApproval`, in the mode that is not required, and no later
-- decision on it is stored. The request is read as it was decided, with no operation begun.
pub rejection_never_ends :
    (env : Environment) (server later : Server) (a b : Actor)
    (name decision name' decision' : String)
    → (stored stored' r : ActionRequest) (past : List Execution) (x : Resolved) → Fair env
    → handle_action_approval server a name (some decision) ≡ ok stored
    → is_approve decision ≡ false
    → r.spec ≡ stored.spec
    → r.status ≡ stored.status
    → r.status.operation_state ≡ ""
    → resolve_action env.cluster r.spec ≡ resolved x
    → x.capability.requires_approval ≡ true
    → later.get_action (trim_space name') ≡ found (updated r (wait_for_approval env.kit r))
    → (reconcile env (calm r past)
        ≡ (Reply.done finished, calm (updated r (wait_for_approval env.kit r)) past))
      × (handle_action_approval later b name' (some decision') ≢ ok stored')
rejection_never_ends env server later a b name decision name' decision' stored stored' r past x fair
      h rejects spec status begun resolves needs again =
    let (action, admitted, e) = (handle_action_approval_iff server a name decision stored).0 h in
    let made : r.spec ≡ decided_spec false a action.spec =
      spec
      ∙ ap (λ (q : ActionRequest). q.spec) e
      ∙ ap (λ d. decided_spec d a action.spec) rejects in
    let (pending, not_required) = rejected_pending a action.spec x.capability needs in
    let (waits, mode) = and_true _ _ admitted.waiting in
    let phase : r.status.phase ≡ "PendingApproval" =
      ap (λ (s : ActionRequestStatus). s.phase) (status ∙ ap (λ (q : ActionRequest). q.status) e)
      ∙ (eq_iff _ _).0 waits in
    (
      waiting-calm env fair r past x (fresh_of_pending r phase) resolves
          (ap (λ s. approval_pending s x.capability) made ∙ pending)
          (ap (λ s. s == state_applied) begun),
      λ k.
          let (action', admitted', e') =
            (handle_action_approval_iff later b name' decision' stored').0 k in
          let same : updated r (wait_for_approval env.kit r) ≡ action' =
            found_inj (sym again ∙ admitted'.stored) in
          let (waits', mode') = and_true _ _ admitted'.waiting in
          let one : is_required r.spec.approval_mode ≡ true =
            ap (λ (q : ActionRequest). is_required q.spec.approval_mode) same ∙ mode' in
          true≢false (
            sym one
            ∙ ap (λ (s : ActionRequestSpec). is_required s.approval_mode) made
            ∙ not_required),
    )
  where
    found_inj : {p q : ActionRequest} → found p ≡ found q → p ≡ q
    found_inj k = cc

    true≢false : true ≡ false → ⊥
    true≢false k = cc

admin_roles :
    (a : Actor) (roles : List String)
    → is_platform_admin a ≡ true
    → has_any a (role_platform_admin ∷ roles) ≡ true
unfolding is_platform_admin has_any
admin_roles a roles h = ground arith

admin_spec :
    (a : Actor) (name : String) (submission : Submission) (c : ActionCapability)
    → is_platform_admin a ≡ true
    → c.requires_approval ≡ true
    → let spec = submitted_spec a name submission c in
      (approval_pending spec c ≡ false)
      × (is_rejected spec.approval_mode ≡ false)
      × (approval_approved_without_approver spec c ≡ true)
unfolding submitted_spec approval_mode_for approval_pending approval_approved_without_approver
    is_platform_admin
admin_spec a name submission c admin needs = rw (needs, admin) (refl, refl, refl)

admin_accepted :
    (server : Server) (a : Actor) (name : String) (submission : Submission)
    (target : ServiceInstance) (c : ActionCapability)
    → is_platform_admin a ≡ true
    → server.get_instance (trim_space name) ≡ found target
    → (trim_space submission.action == "") ≡ false
    → action_capability_for_class server.known_contract target.service_class_ref
        (trim_space submission.action)
      ≡ some c
    → server.accepts ≡ true
    → handle_submit_action server a name (some submission)
      ≡ ok (submitted_spec a (trim_space name) submission c)
unfolding handle_submit_action require_role authorize_instance
admin_accepted server a name submission target c admin reads named known accepts =
    elim (Bool-cases c.requires_approval) [
      | inl n ↦
          rw
            (
              admin_roles a (role_tenant_operator ∷ role_service_consumer ∷ []) admin,
              named,
              reads,
              admin,
              known,
              n,
              admin_roles a (role_tenant_operator ∷ []) admin,
              accepts,
            )
            refl
      | inr n ↦
          rw
            (
              admin_roles a (role_tenant_operator ∷ role_service_consumer ∷ []) admin,
              named,
              reads,
              admin,
              known,
              n,
              accepts,
            )
            refl
    ]

-- A platform admin's submission of an action that needs an approval is accepted, already approved
-- and by nobody; and where that spec is stored and read as stored, and its target resolves, the controller fails the
-- request for want of an approver.
pub admin_submission_fails :
    (server : Server) (env : Environment) (a : Actor) (name : String) (submission : Submission)
    → (target : ServiceInstance) (c : ActionCapability) (r : ActionRequest) (past : List Execution)
      (x : Resolved)
    → Fair env
    → is_platform_admin a ≡ true
    → server.get_instance (trim_space name) ≡ found target
    → (trim_space submission.action == "") ≡ false
    → action_capability_for_class server.known_contract target.service_class_ref
        (trim_space submission.action)
      ≡ some c
    → server.accepts ≡ true
    → c.requires_approval ≡ true
    → r.spec ≡ submitted_spec a (trim_space name) submission c
    → action_already_submitted r.status r.generation ≡ false
    → resolve_action env.cluster r.spec ≡ resolved x
    → x.capability ≡ c
    → (handle_submit_action server a name (some submission) ≡ ok r.spec)
      × (reconcile env (calm r past) ≡ (
        Reply.done finished,
        calm (updated r (refuse env.kit "ApprovalInvalid" "approval-invalid" r)) past,
      ))
admin_submission_fails server env a name submission target c r past x fair admin reads named known
      accepts needs spec fresh resolves same =
    let (passes, not_rejected, nobody) = admin_spec a (trim_space name) submission c admin needs in
    (
      admin_accepted server a name submission target c admin reads named known accepts
          ∙ ap ok (sym spec),
      invalid-calm env fair r past x fresh resolves (rw (same, spec) passes) (rw spec not_rejected)
          (rw (same, spec) nobody),
    )
