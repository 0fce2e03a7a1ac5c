-- ===== src/Action/World/Calm.antt =====
-- internal/controllers/actionrequest_controller.go, `patchActionRequestStatus`: the calls where
-- nothing goes wrong, no client interferes and no read is stale.
use servicer.Prelude.{ℕ, suc, Bool, true, List, [], some, ◌≡◌, refl, ap, Bool-cases, inl, inr}
use servicer.Action.{ActionRequestStatus, ActionRequest}
use servicer.Action.World.{
  World, Merge, Execution, done, M, call, happen, get_action, patch_action_request_status,
  patch_round, write_status,
}
use servicer.Action.Status.Started.{updated}

-- The request is stored, and nothing is going to happen.
abbrev pub calm : ActionRequest → List Execution → World
calm r past = record { stored = some r; events = []; executions = past }

module _ (r : ActionRequest) (past : List Execution) where
  pub get_action-calm : get_action (calm r past) ≡ (done (some r), calm r past)
  unfolding get_action call happen
  get_action-calm = refl

  round-calm :
      (same_status : ActionRequestStatus → ActionRequestStatus → Bool) (merge : Merge)
      (mutate : ActionRequest → ActionRequestStatus)
      → ((a b : ActionRequestStatus) → same_status a b ≡ true → a ≡ b)
      → ((a b : ActionRequestStatus) → merge a b a ≡ b)
      → (again : M ActionRequest)
      → patch_round same_status merge mutate again (done (some r)) (calm r past)
        ≡ (done (updated r (mutate r)), calm (updated r (mutate r)) past)
  unfolding patch_round write_status call happen
  round-calm same_status merge mutate same merges again =
      elim (Bool-cases (same_status r.status (mutate r))) [
        | inl e ↦ rw e (
            ap (λ s. (done (updated r (mutate r)), calm (updated r s) past))
              (same r.status (mutate r) e))
        | inr e ↦ rw (e, merges r.status (mutate r)) refl
      ]

  -- The patch returns and stores the request with its new status.
  pub patch_action_request_status-calm :
      (same_status : ActionRequestStatus → ActionRequestStatus → Bool) (merge : Merge)
      (mutate : ActionRequest → ActionRequestStatus)
      → ((a b : ActionRequestStatus) → same_status a b ≡ true → a ≡ b)
      → ((a b : ActionRequestStatus) → merge a b a ≡ b)
      → (rounds : ℕ)
      → patch_action_request_status same_status merge (suc rounds) mutate (calm r past)
        ≡ (done (updated r (mutate r)), calm (updated r (mutate r)) past)
  unfolding patch_action_request_status
  patch_action_request_status-calm same_status merge mutate same merges rounds =
      rw get_action-calm (
        round-calm same_status merge mutate same merges
          (patch_action_request_status same_status merge rounds mutate))
