-- ===== src/Action/Reconcile/Calm.antt =====
-- internal/controllers/actionrequest_controller.go, `Reconcile`: the steps of a reconciliation where
-- no call fails, no client interferes and no read is stale.
use servicer.Prelude.{
  ℕ, suc, true, not, ◌||◌, List, [], ◌∷◌, ◌++◌, Option, none, some, ◌==◌, ◌≡◌, refl, ◌⊎◌, inl, inr,
  Bool-cases, Option-cases,
}
use servicer.Api.{Lookup-cases}
use servicer.Action.{
  TypedObjectReference, ActionRequestStatus, ActionRequest, ActionExecutionResult, state_applied,
}
use servicer.Action.Status.Started.{
  Started, Ended, updated, Started-of_Ended, completed-Ended, record_execution-Started,
  record_progress-Started, wait_for_backup-Started,
}
use servicer.Action.Resolve.{Resolved}
use servicer.Action.World.{
  World, Execution, Reply, done, M, ◌>>=◌, pure, get_action, patch_action_request_status,
}
use servicer.Action.World.Calm.{calm, patch_action_request_status-calm}
use servicer.Action.World
use servicer.Action.Reconcile.{
  Environment, Outcome, finished, patch, patch_and_finish, follow_backup, is_backup_ref,
  reconcile_in_flight_action, settle,
}

-- The comparison of statuses is sound, a patch has at least one round, and a patch of what changed
-- since the stored status makes that the new one.
pub record Fair (env : Environment) : Type 0 where
  pub same : (a b : ActionRequestStatus) → env.same_status a b ≡ true → a ≡ b
  pub merges : (a b : ActionRequestStatus) → env.merge_status a b a ≡ b
  pub rounds : ℕ
  pub granted : env.retry_rounds ≡ suc rounds

-- The action is applied for this generation.
pub record InFlight (r : ActionRequest) : Type 0 where
  pub observed : r.status.observed_generation ≡ r.generation
  pub applied : r.status.operation_state ≡ state_applied

pub Started-of_InFlight : (r : ActionRequest) → InFlight r → Started r
Started-of_InFlight r h = record { observed = h.observed; state = inl h.applied }

-- `m` either executes nothing and leaves what `P` holds of as a started request, or it executes once
-- what `P` does not hold of, and leaves that as a started request.
abbrev pub Step : (ActionRequest → Type 0) → M Outcome → ActionRequest → List Execution → Type 0
Step P m r past =
    (o : Reply Outcome) × (r' : ActionRequest) × (((m (calm r past) ≡ (o, calm r' past))
        × (P r → Started r'))
      ⊎ ((e : Execution) × (m (calm r past) ≡ (o, calm r' (past ++ e ∷ [])))
          × Started r'
          × (P r → ⊥)))

module _ (env : Environment) (fair : Fair env) where
  pub patch-calm :
      (mutate : ActionRequest → ActionRequestStatus) (r : ActionRequest) (past : List Execution)
      → patch env mutate (calm r past)
        ≡ (done (updated r (mutate r)), calm (updated r (mutate r)) past)
  unfolding patch
  patch-calm mutate r past = rw fair.granted (
      patch_action_request_status-calm r past env.same_status env.merge_status mutate fair.same
        fair.merges fair.rounds)

  pub patch_then-calm :
      (mutate : ActionRequest → ActionRequestStatus) (o : Outcome) (r : ActionRequest)
      (past : List Execution)
      → (patch env mutate >>= (λ (q : ActionRequest). pure o)) (calm r past)
        ≡ (done o, calm (updated r (mutate r)) past)
  patch_then-calm mutate o r past = rw (patch-calm mutate r past) refl

  pub patch_and_finish-calm :
      (mutate : ActionRequest → ActionRequestStatus) (r : ActionRequest) (past : List Execution)
      → patch_and_finish env mutate (calm r past)
        ≡ (done finished, calm (updated r (mutate r)) past)
  unfolding patch_and_finish
  patch_and_finish-calm mutate r past = patch_then-calm mutate finished r past

  module _ (r : ActionRequest) (past : List Execution) where
    -- A patch and no more.
    pub patch-Step :
        (mutate : ActionRequest → ActionRequestStatus)
        → (InFlight r → Started (updated r (mutate r)))
        → Step InFlight (patch_and_finish env mutate) r past
    patch-Step mutate h = (_, _, inl (patch_and_finish-calm mutate r past, h))

    pub Ended-Step :
        (mutate : ActionRequest → ActionRequestStatus)
        → Ended r (mutate r)
        → Step InFlight (patch_and_finish env mutate) r past
    Ended-Step mutate ended = patch-Step mutate (λ h. Started-of_Ended r (mutate r) ended)

    pub stay-Step : (o : Reply Outcome) → Step InFlight (λ w. (o, w)) r past
    stay-Step o = (o, r, inl (refl, Started-of_InFlight r))

    backup-Step : (ref : TypedObjectReference) → Step InFlight (follow_backup env ref) r past
    unfolding follow_backup
    backup-Step ref = elim (Lookup-cases (env.get_backup ref)) [
      | inl (backup, e) ↦
          rw (e, follow_backup)
            (patch-Step _ (λ h. record_progress-Started env.kit r _ (Started-of_InFlight r h)))
      | inr (inl e) ↦
          rw (e, follow_backup)
            (patch-Step _ (λ h. wait_for_backup-Started env.kit r _ (Started-of_InFlight r h)))
      | inr (inr e) ↦ rw (e, follow_backup) (stay-Step World.failed)
    ]

    pub InFlight-Step :
        (x : Resolved) (request : ActionRequest)
        → Step InFlight (reconcile_in_flight_action env x request) r past
    unfolding reconcile_in_flight_action is_backup_ref
    InFlight-Step x request =
        elim (Bool-cases
          (not (x.adapter.runtime_driver == "cnpg") || not (request.spec.action == "backup"))) [
            | inl d ↦ rw d (stay-Step (done finished))
            | inr d ↦ elim (Option-cases request.status.operation_ref) [
              | inl e ↦ rw (d, e) (stay-Step (done finished))
              | inr (ref, e) ↦ elim (Bool-cases (is_backup_ref env ref)) [
                | inl b ↦ rw (d, e, b) (backup-Step ref)
                | inr b ↦ rw (d, e, b) (stay-Step (done finished))
              ]
            ]
          ]

    pub settle-Started :
        (result : Option ActionExecutionResult)
        → (r' : ActionRequest) × (settle env result (calm r past) ≡ (done finished, calm r' past))
          × Started r'
    unfolding settle
    settle-Started none =
        (_, patch_and_finish-calm _ r past, Started-of_Ended r _ (completed-Ended env.kit r _ _ _))
    settle-Started (some result) =
        (_, patch_and_finish-calm _ r past, record_execution-Started env.kit r result)
