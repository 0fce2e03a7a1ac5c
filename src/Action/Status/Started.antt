-- ===== src/Action/Status/Started.antt =====
-- internal/controllers/actionrequest_controller.go: the requests that have been executed, or have
-- failed, for their generation, and the patches that leave them so.
use servicer.Prelude.{
  String, Bool, true, false, ◌≡◌, refl, sym, ◌∙◌, ◌⊎◌, inl, inr, Bool-cases, arith, if◌then◌else◌,
  eqb_iff,
}
use servicer.Action.{
  ActionRequestStatus, ActionRequest, ActionExecutionResult, state_applied, state_complete,
  is_terminal, normalized_action_phase, result_code_for_phase, action_already_submitted,
}
use servicer.Action.Status.{
  Kit, observe, started, resolution_failed, completed_with_failure, apply_failed_status, refuse,
  prepare, apply_execution_status, finish_execution, record_execution, record_progress,
  wait_for_backup,
}
use servicer.Action.Status.Prepare.{prepare_rest}

-- The status is one of this generation, and either the action is applied or its phase is terminal.
pub record Started (r : ActionRequest) : Type 0 where
  pub observed : r.status.observed_generation ≡ r.generation
  pub state : (r.status.operation_state ≡ state_applied) ⊎ (is_terminal r.status.phase ≡ true)

-- A status of this generation with a terminal phase.
abbrev pub Ended : ActionRequest → ActionRequestStatus → Type 0
Ended r s = (s.observed_generation ≡ r.generation) × (is_terminal s.phase ≡ true)

abbrev pub updated : ActionRequest → ActionRequestStatus → ActionRequest
updated r s = record r { status = s }

pub Started-of_Ended :
    (r : ActionRequest) (s : ActionRequestStatus) → Ended r s → Started (updated r s)
Started-of_Ended r s (o, t) = record { observed = o; state = inr t }

pub submitted_of_Ended :
    (r : ActionRequest) (s : ActionRequestStatus)
    → Ended r s
    → action_already_submitted s r.generation ≡ true
unfolding action_already_submitted
submitted_of_Ended r s (o, t) = rw ((eqb_iff s.observed_generation r.generation).1 o, t) refl

-- A request that was started and has not ended is applied.
pub applied_of_Started :
    (r : ActionRequest)
    → Started r
    → action_already_submitted r.status r.generation ≡ false
    → r.status.operation_state ≡ state_applied
unfolding action_already_submitted
applied_of_Started r s h = elim s.state [
  | inl a ↦ a
  | inr t ↦ absurd (true≢false (sym (submitted_of_Ended r r.status (s.observed, t)) ∙ h))
]
  where
    true≢false : true ≡ false → ⊥
    true≢false e = cc

module _ (kit : Kit) (r : ActionRequest) where
  pub resolution_failed-Ended :
      (reason code : String) (retryable : Bool)
      → Ended r (resolution_failed kit reason code retryable r)
  unfolding resolution_failed apply_failed_status is_terminal
  resolution_failed-Ended reason code retryable = (refl, refl)

  pub resolution_failed_lem :
      (reason code : String) (retryable : Bool)
      → let s = resolution_failed kit reason code retryable r in
        (s.phase ≡ "Failed") × (s.observed_generation ≡ r.generation) × (s.result_code ≡ code)
  unfolding resolution_failed apply_failed_status
  resolution_failed_lem reason code retryable = (refl, refl, refl)

  pub completed-Ended :
      (reason code : String) (retryable : Bool)
      → Ended r (completed_with_failure kit reason code retryable r)
  unfolding completed_with_failure apply_failed_status is_terminal
  completed-Ended reason code retryable = (refl, refl)

  pub refuse-Ended : (reason code : String) → Ended r (refuse kit reason code r)
  unfolding refuse is_terminal
  refuse-Ended reason code = (refl, refl)

  finish_rest :
      (s : ActionRequestStatus)
      → (finish_execution kit s).observed_generation ≡ s.observed_generation
  unfolding finish_execution
  finish_rest s = ground arith

  execution_rest :
      (s : ActionRequestStatus) (result : ActionExecutionResult)
      → (apply_execution_status kit s result).observed_generation ≡ s.observed_generation
  unfolding apply_execution_status
  execution_rest s result =
      let phase = normalized_action_phase result.phase in
      finish_rest (record s {
        started_at = started kit s;
        phase = phase;
        operation_ref = result.operation_ref;
        result_code = result_code_for_phase phase;
        retryable = result.retryable;
      })

  state_cases :
      (terminal : Bool)
      → ((if terminal then state_complete else state_applied) ≡ state_applied) ⊎ (terminal ≡ true)
  state_cases true = inr refl
  state_cases false = inl refl

  pub record_execution-Started :
      (result : ActionExecutionResult) → Started (updated r (record_execution kit result r))
  unfolding record_execution
  record_execution-Started result = record {
    observed = execution_rest (observe r) result;
    state = state_cases _;
  }

  pub record_progress-Started :
      (result : ActionExecutionResult)
      → Started r
      → Started (updated r (record_progress kit result r))
  unfolding record_progress
  record_progress-Started result s = elim (Bool-cases (is_terminal r.status.phase)) [
    | inl t ↦ rw t s
    | inr t ↦ rw t (record { observed = refl; state = state_cases _ })
  ]

  pub wait_for_backup-Started :
      (result : ActionExecutionResult)
      → Started r
      → Started (updated r (wait_for_backup kit result r))
  unfolding wait_for_backup
  wait_for_backup-Started result s = elim (Bool-cases (is_terminal r.status.phase)) [
    | inl t ↦ rw t s
    | inr t ↦ rw t (record { observed = refl; state = inl refl })
  ]

  -- A preparation leaves an applied operation of the generation applied.
  pub prepare-applied :
      r.status.observed_generation ≡ r.generation
      → r.status.operation_state ≡ state_applied
      → ((prepare kit r).operation_state ≡ state_applied)
        × ((prepare kit r).observed_generation ≡ r.generation)
  prepare-applied o a =
      let (state, id, seen) = prepare_rest kit r in
      (state ∙ rw ((eqb_iff r.status.observed_generation r.generation).1 o, a) refl, seen)
