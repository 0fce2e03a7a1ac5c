-- ===== src/Action/World.antt =====
-- The cluster's API as the reconciler of action requests meets it: the stored request, what happens
-- at each call, and the executions so far. The reconciler reads through its manager's cache
-- (cmd/manager/main.go), which may lag behind what is stored; it writes to the API server itself. `patchActionRequestStatus` of
-- internal/controllers/actionrequest_controller.go is here.
pub mod Calls
pub mod Calm
pub mod Lagging
use servicer.Prelude.{ℕ, zero, suc, String, Bool, List, [], ◌∷◌, Option, none, some, if◌then◌else◌}
use servicer.Json.{Json}
use servicer.Action.{ApprovalMode, ActionRequestStatus, ActionRequest}

-- What the webhook lets a client change in the spec.
pub record Edit : Type 0 where
  pub parameters : Option Json
  pub approval_mode : ApprovalMode
  pub approved_by : List String

-- What happens at one call: nothing special, a conflict (for a patch), an error, a client's edit of
-- the spec just before it, or a read from a cache that lags behind and holds `seen`. What a lagging
-- cache may hold is left open, so there are more histories here than the cluster has.
pub data Event : Type 0 where
  quiet conflict broken : Event
  edited : Edit → Event
  stale : (seen : Option ActionRequest) → Event

-- An execution of the action, with the request that was stored when it began.
pub record Execution : Type 0 where
  pub operation_id : String
  pub stored : Option ActionRequest

pub record World : Type 0 where
  pub stored : Option ActionRequest
  pub events : List Event
  pub executions : List Execution

pub data Reply {ℓ} (A : Type ℓ) : Type ℓ where
  done : A → Reply A
  failed : Reply A

abbrev pub M {ℓ} : Type ℓ → Type ℓ
M A = World → Reply A × World

abbrev pub continue {ℓ} : {A B : Type ℓ} → Reply A → (A → M B) → M B
continue (done a) f w = f a w
continue failed f w = (failed, w)

infixl 5 ◌>>=◌
abbrev pub ◌>>=◌ {ℓ} : {A B : Type ℓ} → M A → (A → M B) → M B
◌>>=◌ m f w = let (r, w') = m w in continue r f w'

abbrev pub pure {ℓ} : {A : Type ℓ} → A → M A
pure a w = (done a, w)

-- The API server counts a change of the spec.
pub apply_edit : Edit → ActionRequest → ActionRequest
apply_edit e r = record r {
  generation = suc r.generation;
  spec = record (r.spec) {
    parameters = e.parameters;
    approval_mode = e.approval_mode;
    approved_by = e.approved_by;
  };
}

edit_stored : Edit → Option ActionRequest → Option ActionRequest
edit_stored e none = none
edit_stored e (some r) = some (apply_edit e r)

pub data Answer : Type 0 where
  fine conflicted no_answer : Answer
  behind : (seen : Option ActionRequest) → Answer

-- The next event happens; where none is left, all is quiet.
happen : List Event → World → Answer × World
happen [] w = (fine, w)
happen (quiet ∷ events) w = (fine, record w { events = events })
happen (conflict ∷ events) w = (conflicted, record w { events = events })
happen (broken ∷ events) w = (no_answer, record w { events = events })
happen (stale seen ∷ events) w = (behind seen, record w { events = events })
happen (edited e ∷ events) w = (fine, record w { events = events; stored = edit_stored e w.stored })

pub call : World → Answer × World
unfolding happen edit_stored apply_edit
call w = happen w.events w

read : Answer → World → Reply (Option ActionRequest) × World
read no_answer w = (failed, w)
read (behind seen) w = (done seen, w)
read _ w = (done w.stored, w)

-- `r.Get`; `none` is "not found".
unfoldable pub get_action : M (Option ActionRequest)
unfolding read
get_action w = let (answer, w') = call w in read answer w'

-- `merge before after stored`: the stored status after the patch that `client.MergeFrom` makes of what
-- changed from `before` to `after`.
abbrev pub Merge : Type 0
Merge = ActionRequestStatus → ActionRequestStatus → ActionRequestStatus → ActionRequestStatus

-- The API server's part of a status patch: the spec stays as stored, and the answer is what is stored.
write_status :
    Merge → ActionRequestStatus → ActionRequestStatus → World → Reply ActionRequest × World
write_status merge before after w = elim w.stored [
  | none ↦ (failed, w)
  | some r ↦
      let patched = record r { status = merge before after r.status } in
      (done patched, record w { stored = some patched })
]

module _ (same_status : ActionRequestStatus → ActionRequestStatus → Bool) (merge : Merge) where
  -- One round: `again` is the next round, for a conflict.
  patch_round :
      (ActionRequest → ActionRequestStatus)
      → M ActionRequest
      → Reply (Option ActionRequest)
      → M ActionRequest
  patch_round mutate again failed w = (failed, w)
  patch_round mutate again (done none) w = (failed, w)
  patch_round mutate again (done (some current)) w =
      if same_status current.status (mutate current)
      then (done (record current { status = mutate current }), w)
      else let (answer, w') = call w in
        elim answer [
          | fine ↦ write_status merge current.status (mutate current) w'
          | behind seen ↦ write_status merge current.status (mutate current) w'
          | conflicted ↦ again w'
          | no_answer ↦ (failed, w')
        ]

  -- `patchActionRequestStatus`: the rounds that `retry.RetryOnConflict` grants, and the function
  -- that changes the status.
  unfoldable pub patch_action_request_status :
      ℕ → (ActionRequest → ActionRequestStatus) → M ActionRequest
  unfolding patch_round write_status
  patch_action_request_status zero mutate w = (failed, w)
  patch_action_request_status (suc rounds) mutate w =
      let (r, w') = get_action w in
      patch_round mutate (patch_action_request_status rounds mutate) r w'
