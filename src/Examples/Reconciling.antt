-- ===== src/Examples/Reconciling.antt =====
-- The theorems on reconciliations at concrete inputs.
use servicer.Prelude.{
  suc, ◌≤◌, String, true, false, not, ◌&&◌, List, [], ◌∷◌, none, some, ◌==◌, ◌≡◌, refl, eqb, length,
  concat, trim_space, if◌then◌else◌, equal_fold,
}
use servicer.Api.{found, not_found}
use servicer.Action.{
  ApprovalMode, Condition, approved, required, ActionRequestStatus, ActionRequest, state_prepared,
  action_already_submitted, is_terminal, action_capability, approval_pending,
  approval_approved_without_approver,
}
use servicer.Action.Status.{Kit, prepare, action_operation_id}
use servicer.Action.Status.Prepare.{prepare_rest}
use servicer.Action.Resolve.{
  Adapter, Cluster, Resolved, ActionResolutionError, refused, resolve_action, group_version,
}
use servicer.Action.World.{World, Execution, Reply, stale}
use servicer.Action.World.Calm.{calm}
use servicer.Action.Reconcile.{Environment, finished, requeue_after_30s, reconcile}
use servicer.Action.Reconcile.Trace.{Ran}
use servicer.Action.Reconcile.Gate.{Gated, reconcile-Gated}
use servicer.Action.Reconcile.Stale.{Passes, stale_cache_executes_again}
use servicer.Action.Status.Started.{updated}
use servicer.Action.Reconcile.Calm.{Fair}
use servicer.Action.Reconcile.History.{reconciles, executions-reconciles, requeue_never_retries}
use servicer.Examples.Data.{acme, shop, cache, backup_capability}

abbrev pub kit : Kit
kit = record {
  set_condition = λ cs c. c ∷ cs;
  operation_id_of = λ uid generation. concat uid (if eqb generation 2 then "-2" else "-1");
  now = 1000;
}

abbrev pub adapter : Adapter
adapter = record {
  runtime_driver = "valkey";
  supported_actions = λ instance'. backup_capability ∷ [];
}

abbrev pub cluster : Cluster
cluster = record {
  get_instance = λ name. found cache;
  get_project = λ name. found shop;
  get_tenant = λ name. found acme;
  get_service_class = λ name. found tt;
  get_service_plan = λ name. found tt;
  get_cluster_target = λ name. found tt;
  adapters = some (λ name. some adapter);
}

-- The tenant is not there.
abbrev lacking : Cluster
lacking = record cluster { get_tenant = λ name. not_found }

abbrev pub environment : Cluster → Environment
environment c = record {
  cluster = c;
  kit = kit;
  same_status = λ a b. false;
  merge_status = λ before after stored. after;
  retry_rounds = 5;
  execute = λ x request id.
      some (record { phase = "Succeeded"; operation_ref = none; retryable = false });
  get_backup = λ ref. not_found;
}

pub same_lem : (a b : ActionRequestStatus) → false ≡ true → a ≡ b
same_lem a b h = cc

pub Fair-environment : (c : Cluster) → Fair (environment c)
Fair-environment c = record { same = same_lem; merges = λ a b. refl; rounds = 4; granted = refl }

abbrev pub request_with : ApprovalMode → List String → String → ActionRequest
request_with mode approvers phase = record {
  name = "purge-cache";
  uid = "7f3a";
  generation = 2;
  spec = record {
    target_ref = record {
      api_version = group_version;
      kind = "ServiceInstance";
      name = "cache";
      namespace = "";
    };
    action = "purge";
    parameters = none;
    approval_mode = mode;
    approved_by = approvers;
    requested_by = "olga";
  };
  status = record {
    observed_generation = 1;
    phase = phase;
    conditions = [];
    started_at = none;
    completed_at = none;
    operation_ref = none;
    operation_id = "";
    operation_state = "";
    result_code = "";
    retryable = false;
  };
}

abbrev approved_request : ActionRequest
approved_request = request_with approved ("olga" ∷ []) "PendingApproval"

reconcile-Gated_example :
    Ran
      (environment cluster)
      (calm approved_request [])
      (reconcile (environment cluster) (calm approved_request [])).1
      (Gated (environment cluster) (calm approved_request []))
reconcile-Gated_example =
    reconcile-Gated (environment cluster) same_lem (λ a b. refl) (calm approved_request []) tt

-- The cache does not have the request as it is stored: here, from before it was approved.
abbrev lagging : World
lagging = record (calm approved_request []) {
  events = stale (some (request_with required [] "")) ∷ [];
}

executions-reconciles_example :
    length
      (reconciles
        (environment cluster ∷ environment lacking ∷ environment cluster ∷ [])
        (calm approved_request [])).executions
    ≤ suc 0
executions-reconciles_example =
    executions-reconciles (environment cluster ∷ environment lacking ∷ environment cluster ∷ [])
      approved_request []
      (Fair-environment cluster, (Fair-environment lacking, (Fair-environment cluster, tt)))

prepare_rest_example :
    ((prepare kit approved_request).operation_state
      ≡ (if eqb 1 2 && not ("" == "") then "" else state_prepared))
    × ((prepare kit approved_request).operation_id ≡ (
        if eqb 1 2 && not (trim_space "" == "")
        then ""
        else kit.operation_id_of (if trim_space "7f3a" == "" then "purge-cache" else "7f3a") 2))
    × ((prepare kit approved_request).observed_generation ≡ 2)
prepare_rest_example = prepare_rest kit approved_request

abbrev tenant_missing : ActionResolutionError
tenant_missing = record {
  reason = "TenantUnavailable";
  code = "tenant-unavailable";
  requeue = true;
  retryable = true;
}

lacking_lem : resolve_action lacking approved_request.spec ≡ refused tenant_missing
unfolding resolve_action equal_fold
lacking_lem = refl

fresh_lem : action_already_submitted approved_request.status 2 ≡ false
unfolding action_already_submitted
fresh_lem = refl

requeue_never_retries_example :
    (w : World) × (stored : ActionRequest) × (reconcile
        (environment lacking)
        (calm approved_request [])
      ≡ (Reply.done requeue_after_30s, w))
    × (w.stored ≡ some stored)
    × (stored.status.phase ≡ "Failed")
    × (stored.status.observed_generation ≡ 2)
    × (stored.status.result_code ≡ "tenant-unavailable")
    × (stored.spec ≡ approved_request.spec)
    × (w.executions ≡ [])
    × (reconcile (environment cluster) w ≡ (Reply.done finished, w))
requeue_never_retries_example =
    requeue_never_retries (environment lacking) (environment cluster) approved_request []
      tenant_missing (Fair-environment lacking) fresh_lem lacking_lem refl

-- A condition takes the place of one of its kind.
replace_condition : List Condition → Condition → List Condition
replace_condition [] c = c ∷ []
replace_condition (d ∷ ds) c = if d.kind == c.kind then c ∷ ds else d ∷ replace_condition ds c

-- Statuses are compared in the fields of the operation.
abbrev comparing : Environment
comparing = record (environment cluster) {
  kit = record kit { set_condition = replace_condition };
  same_status = λ a b.
      eqb a.observed_generation b.observed_generation
      && a.operation_id == b.operation_id
      && a.operation_state == b.operation_state;
}

abbrev target : Resolved
target = record { instance' = cache; adapter = adapter; capability = backup_capability }

abbrev prepared_request : ActionRequest
prepared_request = updated approved_request (prepare comparing.kit approved_request)

approved_request-Passes : Passes comparing target approved_request
unfolding action_already_submitted resolve_action equal_fold action_capability approval_pending
    approval_approved_without_approver
approved_request-Passes = record {
  fresh = refl;
  resolves = refl;
  not_pending = refl;
  not_rejected = refl;
  has_approver = refl;
}

prepared_request-Passes : Passes comparing target prepared_request
unfolding action_already_submitted resolve_action equal_fold prepare action_operation_id trim_space
    is_terminal action_capability approval_pending approval_approved_without_approver
prepared_request-Passes = record {
  fresh = refl;
  resolves = refl;
  not_pending = refl;
  not_rejected = refl;
  has_approver = refl;
}

abbrev applied_world : World
applied_world = (reconcile comparing (calm approved_request [])).1

stale_cache_executes_again_example :
    (first again : Execution) × (applied_world.executions ≡ first ∷ [])
    × ((reconcile comparing (record applied_world {
      events = stale (some prepared_request) ∷ stale (some prepared_request) ∷ [];
    })).1.executions
        ≡ first ∷ again ∷ [])
    × (first.operation_id ≡ prepared_request.status.operation_id)
    × (again.operation_id ≡ prepared_request.status.operation_id)
    × (again.stored ≡ applied_world.stored)
unfolding prepare action_operation_id trim_space replace_condition
stale_cache_executes_again_example =
    stale_cache_executes_again comparing target approved_request [] 4 refl approved_request-Passes
      prepared_request-Passes refl refl refl refl refl
