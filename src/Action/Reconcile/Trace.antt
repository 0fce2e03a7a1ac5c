-- ===== src/Action/Reconcile/Trace.antt =====
-- internal/controllers/actionrequest_controller.go, `Reconcile`: the way to an execution, through
-- the functions that `reconcile` is composed of.
use servicer.Prelude.{
  false, [], ◌∷◌, ◌++◌, Option, none, some, ◌==◌, ◌≡◌, refl, sym, ◌∙◌, ap, arith, ◌⊎◌, inl, inr,
  Bool-cases, Option-cases, eq_iff,
}
use servicer.Api.{Lookup-cases}
use servicer.Action.{
  TypedObjectReference, ActionRequestStatus, ActionRequest, ActionExecutionResult, state_prepared,
  state_applied, is_rejected, approval_pending, approval_approved_without_approver,
  action_already_submitted, valid_action_operation_state,
}
use servicer.Action.Status.{prepare}
use servicer.Action.Resolve.{Resolved, Resolution, resolved, refused, broken, resolve_action}
use servicer.Action.World.{
  World, Execution, Reply, done, ◌>>=◌, pure, get_action, patch_action_request_status,
}
use servicer.Action.World
use servicer.Action.World.Calls.{executions-get_action, executions-patch}
use servicer.Action.Reconcile.{
  Environment, Outcome, patch, patch_and_finish, perform, follow_backup, reconcile_in_flight_action,
  settle, advance, run, proceed, after_resolution, reconcile_found, reconcile,
}

module _ (env : Environment) where
  -- `e` follows all the checks on the request that was read, and the preparation of the operation.
  pub record Checked (w : World) (e : Execution) : Type 0 where
    pub request : ActionRequest
    pub target : Resolved
    pub prepared : ActionRequest
    pub was_read : (get_action w).0 ≡ done (some request)
    pub not_submitted : action_already_submitted request.status request.generation ≡ false
    pub resolves : resolve_action env.cluster request.spec ≡ resolved target
    pub not_pending : approval_pending request.spec target.capability ≡ false
    pub not_rejected : is_rejected request.spec.approval_mode ≡ false
    pub has_approver : approval_approved_without_approver request.spec target.capability ≡ false
    pub after : World
    pub patched : patch env (prepare env.kit) (get_action w).1 ≡ (done prepared, after)
    pub at : e.stored ≡ after.stored
    pub identifier : e.operation_id ≡ prepared.status.operation_id
    pub state : prepared.status.operation_state ≡ state_prepared

  -- At most one execution was added, and it has the property.
  abbrev pub Ran : World → World → (Execution → Type 0) → Type 0
  Ran w w' P =
      (w'.executions ≡ w.executions)
      ⊎ ((e : Execution) × (w'.executions ≡ w.executions ++ e ∷ []) × P e)

  pub executions-patch_and_finish :
      (mutate : ActionRequest → ActionRequestStatus) (w : World)
      → (patch_and_finish env mutate w).1.executions ≡ w.executions
  unfolding patch_and_finish
  executions-patch_and_finish mutate w =
      ground (arith, executions-patch env.same_status env.merge_status mutate env.retry_rounds w)

  executions-follow_backup :
      (ref : TypedObjectReference) (w : World)
      → (follow_backup env ref w).1.executions ≡ w.executions
  unfolding follow_backup
  executions-follow_backup ref w = elim (Lookup-cases (env.get_backup ref)) [
    | inl (backup, e) ↦ rw (e, follow_backup) (executions-patch_and_finish _ w)
    | inr (inl e) ↦ rw (e, follow_backup) (executions-patch_and_finish _ w)
    | inr (inr e) ↦ rw (e, follow_backup) refl
  ]

  pub executions-in_flight :
      (x : Resolved) (request : ActionRequest) (w : World)
      → (reconcile_in_flight_action env x request w).1.executions ≡ w.executions
  unfolding reconcile_in_flight_action
  executions-in_flight x request w = elim (Option-cases request.status.operation_ref) [
    | inl e ↦ rw e (ground arith)
    | inr (ref, e) ↦ rw e (ground (arith, executions-follow_backup ref w))
  ]

  pub executions-settle :
      (result : Option ActionExecutionResult) (w : World)
      → (settle env result w).1.executions ≡ w.executions
  unfolding settle
  executions-settle none w = executions-patch_and_finish _ w
  executions-settle (some result) w = executions-patch_and_finish _ w

  advance-Ran :
      (x : Resolved) (prepared : ActionRequest) (w : World)
      → Ran w (advance env x prepared w).1 (λ e.
        (e.stored ≡ w.stored)
        × (e.operation_id ≡ prepared.status.operation_id)
        × (prepared.status.operation_state ≡ state_prepared))
  unfolding advance perform
  advance-Ran x prepared w = elim (Bool-cases (prepared.status.operation_state == state_applied)) [
    | inl a ↦ rw a (inl (executions-in_flight x prepared w))
    | inr a ↦ elim (Bool-cases (valid_action_operation_state prepared.status.operation_state)) [
      | inr v ↦ rw (a, v) (inl (executions-patch_and_finish _ w))
      | inl v ↦ elim (Bool-cases (prepared.status.operation_state == state_prepared)) [
        | inr p ↦ rw (a, v, p) (inl refl)
        | inl p ↦ rw (a, v, p) (inr (_, executions-settle _ _, (refl, refl, (eq_iff _ _).0 p)))
      ]
    ]
  ]

  -- An execution follows a preparation, and has its identifier.
  abbrev Prepared : World → Execution → Type 0
  Prepared w e =
      (prepared : ActionRequest) × (v : World) × (patch env (prepare env.kit) w
        ≡ (done prepared, v))
      × (e.stored ≡ v.stored)
      × (e.operation_id ≡ prepared.status.operation_id)
      × (prepared.status.operation_state ≡ state_prepared)

  after_patch :
      (x : Resolved) (r : Reply ActionRequest) (w w1 : World)
      → w1.executions ≡ w.executions
      → patch env (prepare env.kit) w ≡ (r, w1)
      → Ran w ((World.continue r (advance env x)) w1).1 (Prepared w)
  after_patch x World.failed w w1 kept g = inl kept
  after_patch x (done prepared) w w1 kept g = elim (advance-Ran x prepared w1) [
    | inl e ↦ inl (e ∙ kept)
    | inr (e, added, (at, id, state)) ↦ inr (e, rw (← kept) added, (prepared, w1, g, at, id, state))
  ]

  run-Ran : (x : Resolved) (w : World) → Ran w (run env x w).1 (Prepared w)
  unfolding run patch
  run-Ran x w =
      after_patch x _ w _
        (executions-patch env.same_status env.merge_status (prepare env.kit) env.retry_rounds w)
        refl

  -- What the checks of `proceed` let through.
  abbrev Passed : Resolved → ActionRequest → Type 0
  Passed x request =
      (approval_pending request.spec x.capability ≡ false)
      × (is_rejected request.spec.approval_mode ≡ false)
      × (approval_approved_without_approver request.spec x.capability ≡ false)

  proceed-Ran :
      (x : Resolved) (request : ActionRequest) (w : World)
      → Ran w (proceed env x request w).1 (λ e. Prepared w e × Passed x request)
  unfolding proceed
  proceed-Ran x request w = elim (Bool-cases (approval_pending request.spec x.capability)) [
    | inl p ↦ elim (Bool-cases (request.status.operation_state == state_applied)) [
      | inl a ↦ rw (p, a) (inl (executions-patch_and_finish _ w))
      | inr a ↦ rw (p, a) (inl (executions-patch_and_finish _ w))
    ]
    | inr p ↦ elim (Bool-cases (is_rejected request.spec.approval_mode)) [
      | inl j ↦ rw (p, j) (inl (executions-patch_and_finish _ w))
      | inr j ↦ elim (Bool-cases (approval_approved_without_approver request.spec x.capability)) [
        | inl o ↦ rw (p, j, o) (inl (executions-patch_and_finish _ w))
        | inr o ↦ elim (run-Ran x w) [
          | inl e ↦ rw (p, j, o) (inl e)
          | inr (e, added, h) ↦ rw (p, j, o) (inr (e, added, (h, (refl, refl, refl))))
        ]
      ]
    ]
  ]

  executions-patch_then :
      (mutate : ActionRequest → ActionRequestStatus) (o : Outcome) (w : World)
      → ((patch env mutate >>= (λ (r : ActionRequest). pure o)) w).1.executions ≡ w.executions
  unfolding patch
  executions-patch_then mutate o w =
      ground (arith, executions-patch env.same_status env.merge_status mutate env.retry_rounds w)

  -- What holds of an execution for the request that was read.
  abbrev Follows : World → ActionRequest → Execution → Type 0
  Follows w request e =
      (x : Resolved) × (resolve_action env.cluster request.spec ≡ resolved x)
      × Prepared w e
      × Passed x request

  after_resolution-Ran :
      (target : Resolution Resolved) (request : ActionRequest) (w : World)
      → target ≡ resolve_action env.cluster request.spec
      → Ran w (after_resolution env target request w).1 (Follows w request)
  unfolding after_resolution
  after_resolution-Ran broken request w h = inl refl
  after_resolution-Ran (refused e) request w h = elim (Bool-cases e.requeue) [
    | inl q ↦ rw q (inl (executions-patch_then _ _ w))
    | inr q ↦ rw q (inl (executions-patch_then _ _ w))
  ]
  after_resolution-Ran (resolved x) request w h = elim (proceed-Ran x request w) [
    | inl e ↦ inl e
    | inr (e, added, (prepared, passed)) ↦ inr (e, added, (x, sym h, prepared, passed))
  ]

  reconcile_found-Ran :
      (request : Option ActionRequest) (w : World)
      → Ran w (reconcile_found env request w).1 (λ e.
        (r : ActionRequest) × (request ≡ some r)
        × (action_already_submitted r.status r.generation ≡ false)
        × Follows w r e)
  unfolding reconcile_found
  reconcile_found-Ran none w = inl refl
  reconcile_found-Ran (some r) w =
      elim (Bool-cases (action_already_submitted r.status r.generation)) [
        | inl s ↦ rw s (inl refl)
        | inr s ↦ elim (after_resolution-Ran (resolve_action env.cluster r.spec) r w refl) [
          | inl e ↦ rw s (inl e)
          | inr (e, added, h) ↦ rw s (inr (e, added, (r, refl, s, h)))
        ]
      ]

  continue-Ran :
      (reply : Reply (Option ActionRequest)) (w w1 : World)
      → get_action w ≡ (reply, w1)
      → w1.executions ≡ w.executions
      → Ran w (World.continue reply (reconcile_found env) w1).1 (Checked w)
  continue-Ran World.failed w w1 h kept = inl kept
  continue-Ran (done request) w w1 h kept = elim (reconcile_found-Ran request w1) [
    | inl e ↦ inl (e ∙ kept)
    | inr (e, added, (r, is, fresh, (x, resolves, (prepared, v, g, at, id, state), (p, j, o)))) ↦
        inr (
          e,
          rw (← kept) added,
          record {
            request = r;
            target = x;
            prepared = prepared;
            was_read = ap (λ (t : Reply (Option ActionRequest) × World). t.0) h ∙ ap done is;
            not_submitted = fresh;
            resolves = resolves;
            not_pending = p;
            not_rejected = j;
            has_approver = o;
            after = v;
            patched =
                ap (λ (t : Reply (Option ActionRequest) × World). patch env (prepare env.kit) t.1) h
                ∙ g;
            at = at;
            identifier = id;
            state = state;
          },
        )
  ]

  pub reconcile-Checked : (w : World) → Ran w (reconcile env w).1 (Checked w)
  unfolding reconcile
  reconcile-Checked w =
      continue-Ran (get_action w).0 w (get_action w).1 refl (executions-get_action w)
