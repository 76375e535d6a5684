-- ===== src/Mongodb/Pools.antt =====
-- collector/mongodb/conn_pool_stats.go and conn_pool_stats_hosts.go: the connections to the other servers.
pub mod Fits
use exporter_plus.Prelude.{map}
use exporter_plus.Prelude.GoMap.{GoMap}
use exporter_plus.Prelude.{String, Bool, Option, List, [], ◌∷◌, ◌++◌}
use exporter_plus.Prelude.Int.{ℤ, pos}
use exporter_plus.Mongodb.Calls.{ok}
use exporter_plus.Mongodb.Calls.{
  Vec, gauge_vec, counter_vec, summary_vec, Value, val, int, Call, set, observe, collect, reset,
  Trace, sequence, when, deref, described, concat,
}

abbrev pub in_use : Vec
in_use =
    gauge_vec "connpoolstats" "in_use"
      "Corresponds to the total number of client connections to mongo." ("host" ∷ [])

abbrev pub available : Vec
available =
    gauge_vec "connpoolstats" "available"
      "Corresponds to the total number of client connections to mongo." ("host" ∷ [])

abbrev pub created : Vec
created =
    gauge_vec "connpoolstats" "created"
      "Corresponds to the total number of client connections to mongo." ("host" ∷ [])

abbrev pub sync_client_connections : Vec
sync_client_connections =
    gauge_vec "connpoolstats" "connection_sync"
      "Corresponds to the total number of client connections to mongo." []

abbrev pub num_a_scoped_connections : Vec
num_a_scoped_connections =
    gauge_vec "connpoolstats" "connections_scoped_sync"
      "Corresponds to the number of active and stored outgoing scoped synchronous connections from the current instance to other members of the sharded cluster or replica set."
      []

abbrev pub total_in_use : Vec
total_in_use =
    gauge_vec "connpoolstats" "connections_in_use"
      "Corresponds to the total number of client connections to mongo currently in use." []

abbrev pub total_available : Vec
total_available =
    gauge_vec "connpoolstats" "connections_available"
      "Corresponds to the total number of client connections to mongo that are currently available."
      []

abbrev pub total_created : Vec
total_created =
    gauge_vec "connpoolstats" "connections_created_total"
      "Corresponds to the total number of client connections to mongo created since instance start"
      []

-- HostConnPoolStats
pub record HostConnPoolStats (F : Type 0) : Type 0 where
  pub in_use : F
  pub available : F
  pub created : F

unfoldable pub export_host_conn_pool_stats : {F : Type 0} → HostConnPoolStats F → String → Trace F
export_host_conn_pool_stats s hostname = ok (
    set in_use (hostname ∷ []) (val s.in_use)
    ∷ collect in_use
    ∷ reset in_use
    ∷ set available (hostname ∷ []) (val s.available)
    ∷ collect available
    ∷ reset available
    ∷ set created (hostname ∷ []) (val s.created)
    ∷ collect created
    ∷ reset created
    ∷ [])

unfoldable pub describe_host_conn_pool_stats : {F : Type 0} → HostConnPoolStats F → List Vec
describe_host_conn_pool_stats s = in_use ∷ available ∷ created ∷ []

-- ConnPoolStats
pub record ConnPoolStats (F : Type 0) : Type 0 where
  pub sync_client_connections : F
  pub as_scoped_connections : F
  pub total_in_use : F
  pub total_available : F
  pub total_created : F
  pub hosts : GoMap (Option (HostConnPoolStats F))

abbrev pub host_calls : {F : Type 0} → String × Option (HostConnPoolStats F) → Trace F
host_calls (hostname, stats) = deref stats (λ s. export_host_conn_pool_stats s hostname)

unfoldable pub export_conn_pool_stats : {F : Type 0} → ConnPoolStats F → Trace F
export_conn_pool_stats s = sequence (
    ok (
      set sync_client_connections [] (val s.sync_client_connections)
      ∷ collect sync_client_connections
      ∷ set num_a_scoped_connections [] (val s.as_scoped_connections)
      ∷ collect num_a_scoped_connections
      ∷ set total_in_use [] (val s.total_in_use)
      ∷ collect total_in_use
      ∷ set total_available [] (val s.total_available)
      ∷ collect total_available
      ∷ set total_created [] (val s.total_created)
      ∷ collect total_created
      ∷ [])
    ∷ map host_calls s.hosts)
