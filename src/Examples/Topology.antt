-- ===== src/Examples/Topology.antt =====
-- The theorems on the failovers of Valkey and MySQL at concrete inputs.
use servicer.Prelude.{
  arith, ok, err, String, true, false, not, ◌&&◌, ◌+◌, ◌≤◌, List, [], ◌∷◌, ◌++◌, Option, some, ◌==◌,
  ◌≡◌, ◌≢◌, ◌↔◌, refl, ap, contains, eqb, eq_iff, if◌then◌else◌, trim_space, equal_fold,
}
use servicer.Json.{Json, str, arr, obj, Items, nil, cons, end, field}
use servicer.Api.{CacheTopology, ServiceInstance}
use servicer.Failover.{
  Result, not_ready, not_configured_standby, failover_candidate, required_parameter,
  string_parameter, decode_string,
}
use servicer.Failover.Valkey.{
  failover_mode, apply_valkey_failover_preflight, promote_valkey_primary, promote,
}
use servicer.Failover.Valkey.Promotion.{names, count, Ready, preflight_iff, count-promote}
use servicer.Failover.Valkey.Rollback.{promote_lists_previous_twice, promote_back_not_ready}
use servicer.Failover.Valkey.{
  resync, rollback_target, promote, standby_ready, valkey_standby_already_resyncing,
  mark_valkey_standby_resync_requested,
}
use servicer.Failover.Valkey.Resync.{resync_settles}
use servicer.Failover.Mysql.{
  Parameters, Codec, already, persisted, remove_string, failover_mysql_primary,
  rollback_mysql_primary,
}
use servicer.Failover.Mysql.Exchange.{IsValid}
use servicer.Failover.Mysql.Rollback.{
  promoted, with_parameters, failover_branches, rollback-failover,
}
use servicer.Examples.Data.{cache}

abbrev topology : CacheTopology
topology = record {
  mode = "multi-cluster-failover";
  primary_cluster = "east";
  standby_clusters =
      record {
        cluster_name = "west";
        ready = true;
        resync_required = false;
        lag_observed = true;
        replication_lag_seconds = 3;
      }
      ∷ [];
  failover_readiness = "Ready";
}

preflight_iff_example : (apply_valkey_failover_preflight topology "west" ≡ ok tt) ↔ (
    (topology.mode ≡ failover_mode)
    × (topology.primary_cluster ≢ "")
    × ("west" ≢ topology.primary_cluster)
    × Ready "west" topology.standby_clusters)
preflight_iff_example = preflight_iff topology "west"

west≢east : ◌≢◌ {A = String} "west" "east"
west≢east e = cc ((eq_iff "west" "east").1 e)

count-promote_example :
    count "east" (names (promote_valkey_primary topology "west").standby_clusters) ≡ (
      if "east" == "west"
      then 0
      else if "east" == "east"
      then count "east" ("west" ∷ [])
        + count "west" ("west" ∷ [])
        + (if eqb (count "east" ("west" ∷ [])) 0 && not ("east" == "") then 1 else 0)
      else count "east" ("west" ∷ []))
count-promote_example = count-promote topology "west" "east" west≢east

east≢west : trim_space topology.primary_cluster ≢ "west"
unfolding trim_space
east≢west e = cc ((eq_iff "east" "west").1 e)

promote_west : promote "west" topology ≡ ok (promote_valkey_primary topology "west")
unfolding promote trim_space apply_valkey_failover_preflight
promote_west = refl

promote_lists_previous_twice_example :
    ((promote_valkey_primary topology "west").primary_cluster ≡ "west")
    × (count "west" (names (promote_valkey_primary topology "west").standby_clusters) ≡ 0)
    × (count "east" (names (promote_valkey_primary topology "west").standby_clusters)
        ≡ count "west" (names topology.standby_clusters) + 1)
    × (2 ≤ count "east" (names (promote_valkey_primary topology "west").standby_clusters))
promote_lists_previous_twice_example =
    promote_lists_previous_twice topology "west" east≢west promote_west refl

west_named : ◌≢◌ {A = String} "west" ""
west_named e = ground (arith, eq_iff "west" "")

promote_back_not_ready_example :
    promote "east" (promote_valkey_primary topology "west") ≡ err not_ready
unfolding trim_space
promote_back_not_ready_example =
    promote_back_not_ready topology "west" west_named refl east≢west promote_west refl

abbrev resyncing : CacheTopology
resyncing = record topology {
  standby_clusters =
      record {
        cluster_name = "west";
        ready = false;
        resync_required = true;
        lag_observed = false;
        replication_lag_seconds = 0;
      }
      ∷ [];
  failover_readiness = "Resyncing";
}

resync_west : resync "west" topology ≡ ok resyncing
unfolding resync valkey_standby_already_resyncing mark_valkey_standby_resync_requested
resync_west = refl

resync_settles_example :
    (standby_ready "west" resyncing.standby_clusters ≡ err not_ready)
    × (resync "west" resyncing ≡ ok resyncing)
resync_settles_example = resync_settles topology "west" resync_west

to_items : List String → Items
to_items [] = nil
to_items (x ∷ xs) = cons (str x) (to_items xs)

of_items : Items → List String
of_items nil = []
of_items (cons (str x) xs) = x ∷ of_items xs
of_items (cons _ xs) = of_items xs

of_items-to_items : (xs : List String) → of_items (to_items xs) ≡ xs
unfolding of_items to_items
of_items-to_items [] = refl
of_items-to_items (x ∷ xs) = ap (λ ys. x ∷ ys) (of_items-to_items xs)

abbrev given : Parameters
given = record {
  replication_mode = "active-passive";
  primary_cluster = "east";
  standby_clusters = "west" ∷ "north" ∷ [];
  previous_primary_cluster = "";
}

-- The four fields, in their order.
decode_fields : Option Json → Result Parameters
unfolding of_items
decode_fields
      (some (obj (field _ (str m) (field _ (str p) (field _ (arr xs) (field _ (str q) end)))))) =
    ok (record {
      replication_mode = m;
      primary_cluster = p;
      standby_clusters = of_items xs;
      previous_primary_cluster = q;
    })
decode_fields _ = err not_ready

encode_fields : Parameters → Json
unfolding to_items
encode_fields p = obj (
    field "replicationMode" (str p.replication_mode) (
      field "primaryCluster" (str p.primary_cluster) (
        field "standbyClusters" (arr (to_items p.standby_clusters))
          (field "previousPrimaryCluster" (str p.previous_primary_cluster) end))))

abbrev codec : Codec
codec = record { decode = decode_fields; encode = encode_fields }

codec_law : (p : Parameters) → codec.decode (some (codec.encode p)) ≡ ok p
unfolding decode_fields encode_fields
codec_law p =
    ap (λ xs. ok (record p { standby_clusters = xs })) (of_items-to_items p.standby_clusters)

abbrev database : ServiceInstance
database = record cache { parameters = some (encode_fields given) }

given-IsValid : IsValid given
unfolding trim_space
given-IsValid = record {
  mode = refl;
  primary = (refl, refl);
  standbys = ((refl, refl), ((refl, refl), tt));
  distinct = (refl, (refl, tt));
  apart = refl;
}

abbrev west : Option Json
west = some (obj (field "candidateCluster" (str "west") end))

west_lem : failover_candidate west ≡ ok "west"
unfolding failover_candidate required_parameter string_parameter decode_string trim_space equal_fold
west_lem = refl

failover_branches_example : failover_mysql_primary codec true west database ≡ (
    if "west" == "east"
    then ok (already, database)
    else if contains "west" ("west" ∷ "north" ∷ [])
    then ok
        (persisted (promoted "west" given), with_parameters codec (promoted "west" given) database)
    else err not_configured_standby)
failover_branches_example =
    failover_branches codec database given (codec_law given) given-IsValid west "west" west_lem

abbrev back_east : Option Json
back_east = some (obj (field "targetPrimary" (str "east") end))

back_east_lem : rollback_target back_east database.topology ≡ ok "east"
unfolding rollback_target string_parameter decode_string trim_space equal_fold
back_east_lem = refl

rollback-failover_example :
    (next back : Parameters) × (y : ServiceInstance) × (failover_mysql_primary codec true west
        database
      ≡ ok (persisted next, y))
    × (rollback_mysql_primary codec true back_east y
        ≡ ok (persisted back, with_parameters codec back y))
    × IsValid next
    × IsValid back
    × (next.primary_cluster ≡ "west")
    × (back ≡ record given {
      previous_primary_cluster = "west";
      standby_clusters = remove_string "west" ("west" ∷ "north" ∷ []) ++ "west" ∷ [];
    })
rollback-failover_example =
    rollback-failover codec database given west "west" back_east codec_law (codec_law given)
      given-IsValid west_lem refl back_east_lem
