-- ===== src/Action/Status/Prepare.antt =====
-- internal/controllers/actionrequest_controller.go: what the status holds once an operation is
-- prepared.
use servicer.Prelude.{
  Bool, not, ◌&&◌, ◌==◌, ◌≡◌, refl, ◌∙◌, String, true, false, arith, eq_iff, Bool-cases, inl, inr,
  eqb, trim_space, if◌then◌else◌,
}
use servicer.Action.{ActionRequestStatus, ActionRequest, state_prepared}
use servicer.Action.Status.{
  Kit, prepare, accept, reset_operation, name_operation, begin_operation, run_operation,
  action_operation_id,
}

state_lem :
    (same : Bool) (state : String)
    → (if (if not same then "" else state) == ""
        then state_prepared
        else (if not same then "" else state))
      ≡ (if same && not (state == "") then state else state_prepared)
state_lem true state = ground arith
state_lem false state = refl

id_lem :
    (same : Bool) (id fresh : String)
    → (if trim_space (if not same then "" else id) == ""
        then fresh
        else (if not same then "" else id))
      ≡ (if same && not (trim_space id == "") then id else fresh)
unfolding trim_space
id_lem true id fresh = ground arith
id_lem false id fresh = refl

module _ (kit : Kit) where
  run_operation_phase :
      (s : ActionRequestStatus)
      → (run_operation kit s).operation_state ≡ state_prepared
      → (run_operation kit s).phase ≡ "Running"
  unfolding run_operation
  run_operation_phase s h = elim (Bool-cases (s.operation_state == state_prepared)) [
    | inl e ↦ rw e refl
    | inr e ↦ ground (arith, eq_iff s.operation_state state_prepared)
  ]

  run_operation_rest :
      (s : ActionRequestStatus)
      → ((run_operation kit s).operation_state ≡ s.operation_state)
        × ((run_operation kit s).operation_id ≡ s.operation_id)
        × ((run_operation kit s).observed_generation ≡ s.observed_generation)
  unfolding run_operation
  run_operation_rest s = ground arith

  accept_rest :
      (r : ActionRequest)
      → ((accept kit r).operation_state ≡ r.status.operation_state)
        × ((accept kit r).operation_id ≡ r.status.operation_id)
        × ((accept kit r).observed_generation ≡ r.generation)
  unfolding accept
  accept_rest r = (refl, refl, refl)

  reset_rest :
      (new : Bool) (s : ActionRequestStatus)
      → ((reset_operation new s).operation_state ≡ (if new then "" else s.operation_state))
        × ((reset_operation new s).operation_id ≡ (if new then "" else s.operation_id))
        × ((reset_operation new s).observed_generation ≡ s.observed_generation)
  unfolding reset_operation
  reset_rest true s = (refl, refl, refl)
  reset_rest false s = (refl, refl, refl)

  name_rest :
      (r : ActionRequest) (s : ActionRequestStatus)
      → ((name_operation kit r s).operation_state ≡ s.operation_state)
        × ((name_operation kit r s).operation_id ≡ (
            if trim_space s.operation_id == "" then action_operation_id kit r else s.operation_id))
        × ((name_operation kit r s).observed_generation ≡ s.observed_generation)
  unfolding name_operation
  name_rest r s = ground arith

  begin_rest :
      (s : ActionRequestStatus)
      → ((begin_operation s).operation_state
          ≡ (if s.operation_state == "" then state_prepared else s.operation_state))
        × ((begin_operation s).operation_id ≡ s.operation_id)
        × ((begin_operation s).observed_generation ≡ s.observed_generation)
  unfolding begin_operation
  begin_rest s = ground arith

  pub prepare_phase :
      (r : ActionRequest)
      → (prepare kit r).operation_state ≡ state_prepared
      → (prepare kit r).phase ≡ "Running"
  unfolding prepare
  prepare_phase r h =
      run_operation_phase
        (begin_operation (
          name_operation kit r
            (reset_operation (not (eqb r.status.observed_generation r.generation)) (accept kit r))))
        h

  stages_rest :
      (r : ActionRequest) (same : Bool) (s0 : ActionRequestStatus)
      → let s =
          run_operation kit
            (begin_operation (name_operation kit r (reset_operation (not same) s0))) in
        (s.operation_state
          ≡ (if same && not (s0.operation_state == "") then s0.operation_state else state_prepared))
        × (s.operation_id ≡ (
            if same && not (trim_space s0.operation_id == "")
            then s0.operation_id
            else action_operation_id kit r))
        × (s.observed_generation ≡ s0.observed_generation)
  stages_rest r same s0 =
      let s1 = reset_operation (not same) s0 in
      let s2 = name_operation kit r s1 in
      let (state3, id3, seen3) = run_operation_rest (begin_operation s2) in
      let (state2, id2, seen2) = begin_rest s2 in
      let (state1, id1, seen1) = name_rest r s1 in
      let (state0, id0, seen0) = reset_rest (not same) s0 in
      (
        rw (state3, state2, state1, state0) (state_lem same s0.operation_state),
        rw (id3, id2, id1, id0) (id_lem same s0.operation_id (action_operation_id kit r)),
        seen3 ∙ seen2 ∙ seen1 ∙ seen0,
      )

  -- What a preparation leaves: the state and the identifier of an operation of the same generation
  -- stay; any other operation is prepared under the identifier that is made of the request's generation
  -- and of its uid, or its name where it has no uid.
  pub prepare_rest :
      (r : ActionRequest)
      → ((prepare kit r).operation_state ≡ (
          if eqb r.status.observed_generation r.generation && not (r.status.operation_state == "")
          then r.status.operation_state
          else state_prepared))
        × ((prepare kit r).operation_id ≡ (
            if eqb r.status.observed_generation r.generation
              && not (trim_space r.status.operation_id == "")
            then r.status.operation_id
            else kit.operation_id_of
                (if trim_space r.uid == "" then r.name else r.uid)
                r.generation))
        × ((prepare kit r).observed_generation ≡ r.generation)
  unfolding prepare action_operation_id
  prepare_rest r = stages_rest r (eqb r.status.observed_generation r.generation) (accept kit r)
