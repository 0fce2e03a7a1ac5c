-- ===== src/Action/Reconcile/Once.antt =====
-- internal/controllers/actionrequest_controller.go, `Reconcile`: where no call fails, no client
-- interferes and no read is stale, an action is executed at most once.
use servicer.Prelude.{
  String, true, false, List, [], ◌∷◌, ◌++◌, some, ◌==◌, ◌≡◌, refl, sym, ◌∙◌, ap, arith, inl, inr,
  Bool-cases, eq_iff,
}
use servicer.Action.{
  ActionRequestStatus, ActionRequest, state_prepared, state_applied, is_rejected, approval_pending,
  approval_approved_without_approver, action_already_submitted, valid_action_operation_state,
}
use servicer.Action.Status.{prepare}
use servicer.Action.Status.Started.{
  Started, Ended, updated, Started-of_Ended, applied_of_Started, resolution_failed-Ended,
  completed-Ended, refuse-Ended, prepare-applied,
}
use servicer.Action.Resolve.{Resolved, Resolution, resolved, refused, broken, resolve_action}
use servicer.Action.World.{
  World, Execution, Reply, done, M, ◌>>=◌, pure, get_action, patch_action_request_status,
}
use servicer.Action.World.Calm.{calm, get_action-calm}
use servicer.Action.World
use servicer.Action.Reconcile.{
  Environment, Outcome, finished, requeue_after_30s, patch, perform, settle, advance, run, proceed,
  after_resolution, reconcile_found, reconcile,
}
use servicer.Action.Reconcile.Calm.{
  Fair, InFlight, Step, patch-calm, patch_then-calm, patch-Step, Ended-Step, stay-Step,
  InFlight-Step, settle-Started,
}

prepared≢applied : state_prepared ≡ state_applied → ⊥
prepared≢applied e = let f : false ≡ true = ap (λ s. s == state_applied) e in cc

module _ (env : Environment) (fair : Fair env) where
  perform-Step :
      (x : Resolved) (r : ActionRequest) (past : List Execution)
      → r.status.operation_state ≡ state_prepared
      → Step InFlight (perform env x r >>= settle env) r past
  unfolding perform
  perform-Step x r past h =
      let e : Execution = record { operation_id = r.status.operation_id; stored = some r } in
      let (r', settled, started) =
        settle-Started env fair r (past ++ e ∷ []) (env.execute x r r.status.operation_id) in
      (done finished, r', inr (e, settled, started, (λ k. prepared≢applied (sym h ∙ k.applied))))

  advance-Step :
      (x : Resolved) (r : ActionRequest) (past : List Execution)
      → Step InFlight (advance env x r) r past
  unfolding advance
  advance-Step x r past = elim (Bool-cases (r.status.operation_state == state_applied)) [
    | inl a ↦ rw a (InFlight-Step env fair r past x r)
    | inr a ↦ elim (Bool-cases (valid_action_operation_state r.status.operation_state)) [
      | inr v ↦ rw (a, v) (Ended-Step env fair r past _ (completed-Ended env.kit r _ _ _))
      | inl v ↦ elim (Bool-cases (r.status.operation_state == state_prepared)) [
        | inr p ↦ rw (a, v, p) (stay-Step env fair r past (done finished))
        | inl p ↦ rw (a, v, p) (perform-Step x r past ((eq_iff _ _).0 p))
      ]
    ]
  ]

  module _ (r : ActionRequest) (past : List Execution) where
    run-calm :
        (x : Resolved)
        → let p = updated r (prepare env.kit r) in
          run env x (calm r past) ≡ advance env x p (calm p past)
    unfolding run
    run-calm x =
        ap (λ (t : Reply ActionRequest × World). World.continue t.0 (advance env x) t.1)
          (patch-calm env fair (prepare env.kit) r past)

    run-Step : (x : Resolved) → Step InFlight (run env x) r past
    run-Step x =
        let p = updated r (prepare env.kit r) in
        let prepared : InFlight r → InFlight p = λ h.
          let (a, o) = prepare-applied env.kit r h.observed h.applied in
          record { observed = o; applied = a } in
        let (o, r', step) = advance-Step x p past in
        (
          o,
          r',
          elim step [
            | inl (moved, kept) ↦ inl (run-calm x ∙ moved, λ h. kept (prepared h))
            | inr (e, moved, started, fresh) ↦
                inr (e, run-calm x ∙ moved, started, λ h. fresh (prepared h))
          ],
        )

    proceed-Step : (x : Resolved) → Step InFlight (proceed env x r) r past
    unfolding proceed
    proceed-Step x = elim (Bool-cases (approval_pending r.spec x.capability)) [
      | inl p ↦ elim (Bool-cases (r.status.operation_state == state_applied)) [
        | inl a ↦ rw (p, a) (Ended-Step env fair r past _ (completed-Ended env.kit r _ _ _))
        | inr a ↦ rw (p, a) (patch-Step env fair r past _ (λ h. absurd (apart a h.applied)))
      ]
      | inr p ↦ elim (Bool-cases (is_rejected r.spec.approval_mode)) [
        | inl j ↦ rw (p, j) (Ended-Step env fair r past _ (refuse-Ended env.kit r _ _))
        | inr j ↦ elim (Bool-cases (approval_approved_without_approver r.spec x.capability)) [
          | inl o ↦ rw (p, j, o) (Ended-Step env fair r past _ (refuse-Ended env.kit r _ _))
          | inr o ↦ rw (p, j, o) (run-Step x)
        ]
      ]
    ]
      where
        apart : {s : String} → (s == state_applied) ≡ false → s ≡ state_applied → ⊥
        apart {s} h e = ground (arith, eq_iff s state_applied)

    patch_then-Step :
        (mutate : ActionRequest → ActionRequestStatus) (o : Outcome)
        → Ended r (mutate r)
        → Step InFlight (patch env mutate >>= (λ (q : ActionRequest). pure o)) r past
    patch_then-Step mutate o ended =
        (_, _, inl (patch_then-calm env fair mutate o r past, λ h. Started-of_Ended r _ ended))

    after_resolution-Step :
        (target : Resolution Resolved) → Step InFlight (after_resolution env target r) r past
    unfolding after_resolution
    after_resolution-Step (resolved x) = proceed-Step x
    after_resolution-Step broken = stay-Step env fair r past World.failed
    after_resolution-Step (refused e) = elim (Bool-cases e.requeue) [
      | inl q ↦ rw q (patch_then-Step _ requeue_after_30s (resolution_failed-Ended env.kit r _ _ _))
      | inr q ↦ rw q (patch_then-Step _ finished (resolution_failed-Ended env.kit r _ _ _))
    ]

    -- One reconciliation: what it executes was not started for the generation, and is then.
    pub reconcile-Step : Step Started (reconcile env) r past
    unfolding reconcile reconcile_found
    reconcile-Step = elim (Bool-cases (action_already_submitted r.status r.generation)) [
      | inl s ↦ (done finished, r, inl (rw (get_action-calm r past, s) refl, λ h. h))
      | inr s ↦
          let (o, r', step) = after_resolution-Step (resolve_action env.cluster r.spec) in
          let flying : Started r → InFlight r =
            λ h. record { observed = h.observed; applied = applied_of_Started r h s } in
          (
            o,
            r',
            rw (get_action-calm r past, s)
                (elim step [
                  | inl (moved, kept) ↦ inl (moved, λ h. kept (flying h))
                  | inr (e, moved, started, fresh) ↦ inr (e, moved, started, λ h. fresh (flying h))
                ]),
          )
    ]
