-- ===== src/Failover/Valkey.antt =====
-- internal/controllers/actionrequest_controller.go: promotion, rollback and resynchronisation of a
-- Valkey cache that spans clusters.
pub mod Promotion
pub mod Rollback
pub mod Resync
use servicer.Prelude.{
  ok, err, ◌>>=◌, ◌>>◌, String, Bool, true, false, ◌&&◌, not, List, [], ◌∷◌, ◌++◌, map, any, Option,
  none, some, ◌==◌, trim_space, if◌then◌else◌,
}
use servicer.Json.{Json}
use servicer.Api.{CacheStandbyStatus, CacheTopology, ServiceInstance}
use servicer.Failover.{
  Error, missing_target, wrong_topology, primary_unknown, already_primary, not_ready, not_standby,
  resync_of_primary, Result, string_parameter, failover_candidate, standby_target, Attempt,
  patch_status,
}

abbrev pub failover_mode : String
failover_mode = "multi-cluster-failover"

-- The loop over the standbys: the first of the candidate's name decides.
pub standby_ready : String → List CacheStandbyStatus → Result (Unit {0})
standby_ready candidate [] = err not_standby
standby_ready candidate (standby ∷ standbys) =
    if not (standby.cluster_name == candidate)
    then standby_ready candidate standbys
    else if not standby.ready
    then err not_ready
    else ok tt

unfoldable pub apply_valkey_failover_preflight : CacheTopology → String → Result (Unit {0})
unfolding standby_ready
apply_valkey_failover_preflight t candidate =
    if not (t.mode == failover_mode)
    then err wrong_topology
    else if t.primary_cluster == ""
    then err primary_unknown
    else if candidate == t.primary_cluster
    then err already_primary
    else standby_ready candidate t.standby_clusters

-- The standby entry of a primary that was replaced.
pub replaced_primary : String → CacheStandbyStatus
replaced_primary previous = record {
  cluster_name = previous;
  ready = false;
  resync_required = true;
  lag_observed = false;
  replication_lag_seconds = 0;
}

-- The entries after the loop of `promoteValkeyPrimary`.
pub replace_candidate : String → String → List CacheStandbyStatus → List CacheStandbyStatus
replace_candidate candidate previous [] = []
replace_candidate candidate previous (standby ∷ standbys) =
    (if standby.cluster_name == candidate then replaced_primary previous else standby)
    ∷ replace_candidate candidate previous standbys

-- `foundPreviousPrimary` after that loop: the candidate's entries are not looked at again.
pub found_previous_primary : String → String → List CacheStandbyStatus → Bool
found_previous_primary candidate previous standbys =
    any (λ standby. not (standby.cluster_name == candidate) && standby.cluster_name == previous)
      standbys

unfoldable pub promote_valkey_primary : CacheTopology → String → CacheTopology
unfolding replace_candidate found_previous_primary replaced_primary
promote_valkey_primary t candidate =
    let previous = t.primary_cluster in
    let standbys = replace_candidate candidate previous t.standby_clusters in
    record t {
      primary_cluster = candidate;
      failover_readiness = "Promoted";
      standby_clusters =
          if not (found_previous_primary candidate previous t.standby_clusters)
            && not (previous == "")
          then standbys ++ replaced_primary previous ∷ []
          else standbys;
    }

-- The function that the failover and rollback actions patch the topology with.
unfoldable pub promote : String → CacheTopology → Result CacheTopology
promote candidate t =
    if trim_space t.primary_cluster == candidate
    then ok t
    else do apply_valkey_failover_preflight t candidate; ok (promote_valkey_primary t candidate)

-- The first entry of the name is marked; `none` if there is no such entry.
resync_standbys : String → List CacheStandbyStatus → Option (List CacheStandbyStatus)
resync_standbys name [] = none
resync_standbys name (standby ∷ standbys) =
    let marked = record standby {
      ready = false;
      resync_required = true;
      lag_observed = false;
      replication_lag_seconds = 0;
    } in
    let later : Option (List CacheStandbyStatus) = elim (resync_standbys name standbys) [
      | none ↦ none
      | some rest ↦ some (standby ∷ rest)
    ] in
    if not (standby.cluster_name == name) then later else some (marked ∷ standbys)

unfoldable pub mark_valkey_standby_resync_requested : CacheTopology → String → Result CacheTopology
unfolding resync_standbys
mark_valkey_standby_resync_requested t standby_cluster =
    if not (t.mode == failover_mode)
    then err wrong_topology
    else if standby_cluster == t.primary_cluster
    then err resync_of_primary
    else elim (resync_standbys standby_cluster t.standby_clusters) [
      | none ↦ err not_standby
      | some standbys ↦
          ok (record t { standby_clusters = standbys; failover_readiness = "Resyncing" })
    ]

unfoldable pub valkey_standby_already_resyncing : String → List CacheStandbyStatus → Bool
valkey_standby_already_resyncing name [] = false
valkey_standby_already_resyncing name (standby ∷ standbys) =
    if not (standby.cluster_name == name)
    then valkey_standby_already_resyncing name standbys
    else standby.resync_required && not standby.ready

unfoldable pub resync : String → CacheTopology → Result CacheTopology
resync standby_cluster t =
    if valkey_standby_already_resyncing standby_cluster t.standby_clusters
    then ok t
    else mark_valkey_standby_resync_requested t standby_cluster

first_resync_required : List CacheStandbyStatus → Result String
first_resync_required [] = err missing_target
first_resync_required (standby ∷ standbys) =
    if standby.resync_required then ok standby.cluster_name else first_resync_required standbys

-- With no target among the parameters, the first standby that waits for a resynchronisation.
unfoldable pub rollback_target : Option Json → CacheTopology → Result String
unfolding first_resync_required
rollback_target parameters t = do
  value ← string_parameter "targetPrimary" parameters
  let trimmed = trim_space value
  if not (trimmed == "") then ok trimmed else first_resync_required t.standby_clusters

pub on_topology : (CacheTopology → Result CacheTopology) → ServiceInstance → Result ServiceInstance
on_topology change instance' = do
  topology ← change instance'.topology
  ok (record instance' { topology = topology })

pub data ValkeyAction : Type 0 where
  failover rollback_failover resync_standby : ValkeyAction

-- The arms of `executeValkeyAction` that change the topology; each ends in phase `Succeeded`.
-- `current` is the instance of the service context, read before the patch.
unfoldable pub execute_valkey_action :
    (ServiceInstance → ServiceInstance → Bool)
    → ValkeyAction
    → Option Json
    → ServiceInstance
    → List (Attempt ServiceInstance)
    → Result ServiceInstance
unfolding on_topology
execute_valkey_action same failover parameters current attempts = do
  candidate ← failover_candidate parameters
  patch_status same (on_topology (promote candidate)) attempts
execute_valkey_action same rollback_failover parameters current attempts = do
  target ← rollback_target parameters current.topology
  patch_status same (on_topology (promote target)) attempts
execute_valkey_action same resync_standby parameters current attempts = do
  standby ← standby_target parameters
  patch_status same (on_topology (resync standby)) attempts
