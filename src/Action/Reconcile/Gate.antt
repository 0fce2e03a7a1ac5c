-- ===== src/Action/Reconcile/Gate.antt =====
-- internal/controllers/actionrequest_controller.go, `Reconcile`: what has been checked, and stored,
-- when an action is executed.
use servicer.Prelude.{subst, true, some, ◌≡◌, sym, ◌∙◌, ap, inl, inr}
use servicer.Action.{ActionRequestStatus}
use servicer.Action.Status.{prepare}
use servicer.Action.Status.Prepare.{prepare_phase}
use servicer.Action.World.{World, Execution, get_action}
use servicer.Action.World.Calls.{Wrote-patch, Wrote, Current, Current-get_action}
use servicer.Action.Reconcile.{Environment, patch, reconcile}
use servicer.Action.Reconcile.Trace.{Ran, Checked, reconcile-Checked}

module _ (env : Environment) where
  -- And what is prepared is stored when the execution begins.
  pub record Gated (w : World) (e : Execution) : Type 0 where
    pub checked : Checked env w e
    pub stored : e.stored ≡ some checked.prepared
    pub phase : checked.prepared.status.phase ≡ "Running"

  Ran-weaken :
      (w w' : World) {P Q : Execution → Type 0}
      → ((e : Execution) → P e → Q e)
      → Ran env w w' P
      → Ran env w w' Q
  Ran-weaken w w' h (inl kept) = inl kept
  Ran-weaken w w' h (inr (e, added, p)) = inr (e, added, h e p)

  module _ (same : (a b : ActionRequestStatus) → env.same_status a b ≡ true → a ≡ b)
      (merges : (a b : ActionRequestStatus) → env.merge_status a b a ≡ b) where
    Gated-of_Checked :
        (w : World) → Current w.events → (e : Execution) → Checked env w e → Gated w e
    unfolding patch
    Gated-of_Checked w now e c =
        let wrote =
          Wrote-patch env.same_status env.merge_status (prepare env.kit) same merges
            env.retry_rounds (get_action w).1 (Current-get_action w now) in
        let (stored, (current, status)) =
          subst (Wrote env.same_status env.merge_status (prepare env.kit)) c.patched wrote in
        record {
          checked = c;
          stored = c.at ∙ stored;
          phase =
              ap (λ (s : ActionRequestStatus). s.phase) status
              ∙ prepare_phase env.kit current
                  (sym (ap (λ (s : ActionRequestStatus). s.operation_state) status) ∙ c.state);
        }

    -- Where each read sees what is stored, the comparison of statuses is sound and a patch of what
    -- changed since the stored status makes that the new one, one call of `reconcile` adds at most one
    -- execution. When there is one, the request that was read was not yet submitted for its
    -- generation, its target resolves, its approval is neither pending nor rejected nor without an
    -- approver where one is needed; and at the time of the execution the stored request is `Running`
    -- and `Prepared` under the operation identifier that the execution is given.
    pub reconcile-Gated : (w : World) → Current w.events → Ran env w (reconcile env w).1 (Gated w)
    reconcile-Gated w now =
        Ran-weaken w (reconcile env w).1 (Gated-of_Checked w now) (reconcile-Checked env w)
