-- ===== src/Failover/Mysql.antt =====
-- internal/controllers/actionrequest_controller.go, lines 719-836 and 1159-1193: the failover of an
-- active-passive MySQL and its rollback. `encoding/json` is a parameter: how the parameters of an
-- instance are read and written.
pub mod Exchange
pub mod Rollback
use servicer.Prelude.{
  ok, err, ◌>>=◌, ◌>>◌, String, Bool, not, List, [], ◌∷◌, ◌++◌, Option, none, some, ◌==◌,
  if◌then◌else◌, keep, contains, trim_space,
}
use servicer.Json.{Json}
use servicer.Api.{ServiceInstance}
use servicer.Failover.{
  Error, not_configured_standby, no_previous_primary, Result, failover_candidate, wrong_topology,
  write_failed,
}
use servicer.Failover.Valkey.{rollback_target}

-- `mysqlMutableParameters`.
pub record Parameters : Type 0 where
  pub replication_mode : String
  pub primary_cluster : String
  pub standby_clusters : List String
  pub previous_primary_cluster : String

-- `mysqlActionParameters` and `json.Marshal`; the API's answer to an update.
pub record Codec : Type 0 where
  pub decode : Option Json → Result Parameters
  pub encode : Parameters → Json

-- `already` is the success that changes nothing; `persisted` has the parameters that were stored.
pub data Change : Type 0 where
  already : Change
  persisted : Parameters → Change

pub remove_string : String → List String → List String
remove_string target items = keep (λ item. not (item == target)) items

-- The loop of `uniqueStrings`, with the values that it has seen.
pub unique_from : List String → List String → List String
unique_from seen [] = []
unique_from seen (item ∷ items) =
    let value = trim_space item in
    let skipped = unique_from seen items in
    let kept = unique_from (value ∷ seen) items in
    if value == "" then skipped else if contains value seen then skipped else value ∷ kept

pub unique_strings : List String → List String
unfolding unique_from
unique_strings items = unique_from [] items

pub current_primary : ServiceInstance → Parameters → String
current_primary x params =
    if params.primary_cluster == "" then x.placement_cluster else params.primary_cluster

-- The primary becomes the last standby, in place of `target`.
pub exchange : String → String → Parameters → Parameters
unfolding unique_strings remove_string
exchange target primary params = record params {
  previous_primary_cluster = primary;
  primary_cluster = target;
  standby_clusters = unique_strings (remove_string target params.standby_clusters ++ primary ∷ []);
}

pub is_active_passive : Parameters → Result (Unit {0})
is_active_passive params =
    if trim_space params.replication_mode == "active-passive" then ok tt else err wrong_topology

module _ (codec : Codec) (accepted : Bool) where
  -- `persistMySQLActionParameters`: the update of an instance, where the API accepts it.
  pub persist : Parameters → ServiceInstance → Result (Change × ServiceInstance)
  persist params x =
      if accepted
      then ok (persisted params, record x { parameters = some (codec.encode params) })
      else err write_failed

  failover_to : String → Parameters → ServiceInstance → Result (Change × ServiceInstance)
  unfolding persist current_primary exchange
  failover_to candidate params x =
      if trim_space params.primary_cluster == candidate
      then ok (already, x)
      else if not (contains candidate params.standby_clusters)
      then err not_configured_standby
      else persist (exchange candidate (current_primary x params) params) x

  unfoldable pub failover_mysql_primary :
      Option Json → ServiceInstance → Result (Change × ServiceInstance)
  unfolding failover_to is_active_passive
  failover_mysql_primary parameters x = do
    params ← codec.decode x.parameters
    is_active_passive params
    candidate ← failover_candidate parameters
    failover_to candidate params x

  -- A target that cannot be read is no target: the source drops that error.
  or_empty : Result String → String
  or_empty (ok target) = target
  or_empty (err e) = ""

  requested_target : Option Json → Parameters → ServiceInstance → String
  unfolding or_empty
  requested_target none params x = trim_space params.previous_primary_cluster
  requested_target (some parameters) params x =
      or_empty (rollback_target (some parameters) x.topology)

  rollback_to : String → Parameters → ServiceInstance → Result (Change × ServiceInstance)
  unfolding persist current_primary exchange
  rollback_to target params x =
      if target == ""
      then err no_previous_primary
      else if target == current_primary x params
      then ok (already, x)
      else persist (exchange target (current_primary x params) params) x

  unfoldable pub rollback_mysql_primary :
      Option Json → ServiceInstance → Result (Change × ServiceInstance)
  unfolding rollback_to requested_target is_active_passive
  rollback_mysql_primary parameters x = do
    params ← codec.decode x.parameters
    is_active_passive params
    rollback_to (requested_target parameters params x) params x
