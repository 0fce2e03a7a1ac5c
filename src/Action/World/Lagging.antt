-- ===== src/Action/World/Lagging.antt =====
-- internal/controllers/actionrequest_controller.go, `patchActionRequestStatus`: one round of a patch, on
-- what is stored and on a read from a cache that lags behind.
use servicer.Prelude.{ℕ, suc, Bool, true, false, List, [], ◌∷◌, Option, some, ◌≡◌, refl}
use servicer.Action.{ActionRequestStatus, ActionRequest}
use servicer.Action.World.{
  Event, World, Merge, Execution, stale, done, call, happen, read, get_action,
  patch_action_request_status, patch_round, write_status,
}
use servicer.Action.World.Calm.{calm}
use servicer.Action.Status.Started.{updated}

pub get_action-stale :
    (w : World) (seen : Option ActionRequest) (events : List Event)
    → get_action (record w { events = stale seen ∷ events })
      ≡ (done seen, record w { events = events })
unfolding get_action read call happen
get_action-stale w seen events = refl

module _ (same_status : ActionRequestStatus → ActionRequestStatus → Bool) (merge : Merge)
    (mutate : ActionRequest → ActionRequestStatus) (rounds : ℕ) where
  -- Whatever is stored by then, a change that the read has already is not written.
  pub patch-stale :
      (p : ActionRequest) (w : World)
      → mutate p ≡ p.status
      → same_status p.status p.status ≡ true
      → patch_action_request_status same_status merge
          (suc rounds)
          mutate
          (record w { events = stale (some p) ∷ [] })
        ≡ (done p, record w { events = [] })
  unfolding patch_action_request_status patch_round get_action read call happen
  patch-stale p w settled same = rw (settled, same) refl

  pub patch-changed :
      (r : ActionRequest) (past : List Execution)
      → same_status r.status (mutate r) ≡ false
      → merge r.status (mutate r) r.status ≡ mutate r
      → patch_action_request_status same_status merge (suc rounds) mutate (calm r past)
        ≡ (done (updated r (mutate r)), calm (updated r (mutate r)) past)
  unfolding patch_action_request_status patch_round get_action read call happen write_status
  patch-changed r past changed merges = rw (changed, merges) refl
