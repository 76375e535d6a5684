-- ===== src/Mongodb/Server.antt =====
-- collector/mongodb/server_status.go: what the command serverStatus reports, section by section.
pub mod Complete
pub mod Fits
use exporter_plus.Prelude.{none, some}
use exporter_plus.Prelude.GoMap.{GoMap}
use exporter_plus.Mongodb.Instance.{
  AssertsStats, export_asserts_stats, describe_asserts_stats, ConnectionStats,
  export_connection_stats, describe_connection_stats, Cursors, export_cursors, describe_cursors,
  ExtraInfo, export_extra_info, describe_extra_info, IndexCounterStats, export_index_counter_stats,
  describe_index_counter_stats, MemStats, export_mem_stats, describe_mem_stats, NetworkStats,
  export_network_stats, describe_network_stats, OpcountersStats, export_opcounters_stats,
  describe_opcounters_stats, OpcountersReplStats, export_opcounters_repl_stats,
  describe_opcounters_repl_stats,
}
use exporter_plus.Mongodb.Engine.{
  FlushStats, export_flush_stats, describe_flush_stats, DurStats, export_dur_stats,
  describe_dur_stats, GlobalLockStats, export_global_lock_stats, describe_global_lock_stats,
  TcMallocStats, export_tcmalloc_stats, describe_tcmalloc_stats, StorageEngineStats,
  export_storage_engine_stats, describe_storage_engine_stats,
}
use exporter_plus.Mongodb.Locks.{LockStats, export_lock_stats_map, describe_lock_stats_map}
use exporter_plus.Mongodb.Metrics.{MetricsStats, export_metrics_stats, describe_metrics_stats}
use exporter_plus.Mongodb.WiredTiger.{
  WiredTigerStats, export_wired_tiger_stats, describe_wired_tiger_stats,
}
use exporter_plus.Prelude.{String, Bool, Option, List, [], ◌∷◌, ◌++◌}
use exporter_plus.Prelude.Int.{ℤ, pos}
use exporter_plus.Mongodb.Calls.{ok}
use exporter_plus.Mongodb.Calls.{
  Vec, gauge_vec, counter_vec, summary_vec, Value, val, int, Call, set, observe, collect, reset,
  Trace, sequence, when, deref, described, concat,
}
use exporter_plus.Mongodb.ReplSet.{Time}

abbrev pub instance_uptime_seconds : Vec
instance_uptime_seconds =
    gauge_vec "instance" "uptime_seconds"
      "The value of the uptime field corresponds to the number of seconds that the mongos or mongod process has been active."
      []

abbrev pub instance_uptime_estimate_seconds : Vec
instance_uptime_estimate_seconds =
    gauge_vec "instance" "uptime_estimate_seconds"
      "uptimeEstimate provides the uptime as calculated from MongoDB's internal course-grained time keeping system."
      []

abbrev pub instance_local_time : Vec
instance_local_time =
    gauge_vec "instance" "local_time"
      "The localTime value is the current time, according to the server, in UTC specified in an ISODate format."
      []

-- ServerStatus
pub record ServerStatus (F : Type 0) : Type 0 where
  pub uptime : F
  pub uptime_estimate : F
  pub local_time : Time
  pub asserts : Option (AssertsStats F)
  pub dur : Option (DurStats F)
  pub background_flushing : Option (FlushStats F)
  pub connections : Option (ConnectionStats F)
  pub extra_info : Option (ExtraInfo F)
  pub global_lock : Option (GlobalLockStats F)
  pub index_counter : Option (IndexCounterStats F)
  pub locks : Option (GoMap (LockStats F))
  pub network : Option (NetworkStats F)
  pub opcounters : Option (OpcountersStats F)
  pub opcounters_repl : Option (OpcountersReplStats F)
  pub tcmalloc_stats : Option (TcMallocStats F)
  pub mem : Option (MemStats F)
  pub metrics : Option (MetricsStats F)
  pub cursors : Option (Cursors F)
  pub storage_engine : Option StorageEngineStats
  pub wired_tiger : Option (WiredTigerStats F)

-- Where the storage engine is not reported and there are flushes, it is mmapv1.
unfoldable pub storage_engine_of :
    {F : Type 0} → Option StorageEngineStats → Option (FlushStats F) → Option StorageEngineStats
storage_engine_of none (some flushes) = some (record { name = "mmapv1" })
storage_engine_of none none = none
storage_engine_of (some engine) flushes = some engine

unfoldable pub export_server_status : {F : Type 0} → ServerStatus F → Trace F
export_server_status s = sequence (
    (ok (
      set instance_uptime_seconds [] (val s.uptime)
      ∷ set instance_uptime_estimate_seconds [] (val s.uptime)
      ∷ set instance_local_time [] (int s.local_time.unix)
      ∷ collect instance_uptime_seconds
      ∷ collect instance_uptime_estimate_seconds
      ∷ collect instance_local_time
      ∷ []))
    ∷ (when s.asserts export_asserts_stats)
    ∷ (when s.dur export_dur_stats)
    ∷ (when s.background_flushing export_flush_stats)
    ∷ (when s.connections export_connection_stats)
    ∷ (when s.extra_info export_extra_info)
    ∷ (when s.global_lock export_global_lock_stats)
    ∷ (when s.index_counter export_index_counter_stats)
    ∷ (when s.network export_network_stats)
    ∷ (when s.opcounters export_opcounters_stats)
    ∷ (when s.opcounters_repl export_opcounters_repl_stats)
    ∷ (when s.tcmalloc_stats export_tcmalloc_stats)
    ∷ (when s.mem export_mem_stats)
    ∷ (when s.locks export_lock_stats_map)
    ∷ (when s.metrics export_metrics_stats)
    ∷ (when s.cursors export_cursors)
    ∷ (when s.wired_tiger export_wired_tiger_stats)
    ∷ (when (storage_engine_of s.storage_engine s.background_flushing) export_storage_engine_stats)
    ∷ [])

unfoldable pub describe_server_status : {F : Type 0} → ServerStatus F → List Vec
describe_server_status s = concat (
    (instance_uptime_seconds ∷ instance_uptime_estimate_seconds ∷ instance_local_time ∷ [])
    ∷ described s.asserts describe_asserts_stats
    ∷ described s.dur describe_dur_stats
    ∷ described s.background_flushing describe_flush_stats
    ∷ described s.connections describe_connection_stats
    ∷ described s.extra_info describe_extra_info
    ∷ described s.global_lock describe_global_lock_stats
    ∷ described s.index_counter describe_index_counter_stats
    ∷ described s.network describe_network_stats
    ∷ described s.opcounters describe_opcounters_stats
    ∷ described s.opcounters_repl describe_opcounters_repl_stats
    ∷ described s.tcmalloc_stats describe_tcmalloc_stats
    ∷ described s.mem describe_mem_stats
    ∷ described s.locks describe_lock_stats_map
    ∷ described s.metrics describe_metrics_stats
    ∷ described s.cursors describe_cursors
    ∷ described s.wired_tiger describe_wired_tiger_stats
    ∷ described s.storage_engine describe_storage_engine_stats
    ∷ [])
