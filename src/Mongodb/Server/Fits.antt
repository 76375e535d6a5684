-- ===== src/Mongodb/Server/Fits.antt =====
-- The label values of Server: each export has as many as the labels.
use exporter_plus.Mongodb.Instance.Fits.{
  export_asserts_stats-IsFit, export_connection_stats-IsFit, export_cursors-IsFit,
  export_extra_info-IsFit, export_index_counter_stats-IsFit, export_mem_stats-IsFit,
  export_network_stats-IsFit, export_opcounters_stats-IsFit, export_opcounters_repl_stats-IsFit,
}
use exporter_plus.Mongodb.Engine.Fits.{
  export_flush_stats-IsFit, export_dur_stats-IsFit, export_global_lock_stats-IsFit,
  export_tcmalloc_stats-IsFit, export_storage_engine_stats-IsFit,
}
use exporter_plus.Mongodb.Locks.Fits.{export_lock_stats_map-IsFit}
use exporter_plus.Mongodb.Metrics.Fits.{export_metrics_stats-IsFit}
use exporter_plus.Mongodb.WiredTiger.Fits.{export_wired_tiger_stats-IsFit}
use exporter_plus.Prelude.{refl, ◌&◌}
use exporter_plus.Mongodb.Calls.Fits.{IsFit, sequence-IsFit, when-IsFit}
use exporter_plus.Mongodb.Server.{ServerStatus, export_server_status, storage_engine_of}

pub export_server_status-IsFit : {F : Type 0} (s : ServerStatus F) → IsFit (export_server_status s)
unfolding export_server_status
export_server_status-IsFit s = sequence-IsFit _ (
    refl
    & when-IsFit s.asserts _ export_asserts_stats-IsFit
    & when-IsFit s.dur _ export_dur_stats-IsFit
    & when-IsFit s.background_flushing _ export_flush_stats-IsFit
    & when-IsFit s.connections _ export_connection_stats-IsFit
    & when-IsFit s.extra_info _ export_extra_info-IsFit
    & when-IsFit s.global_lock _ export_global_lock_stats-IsFit
    & when-IsFit s.index_counter _ export_index_counter_stats-IsFit
    & when-IsFit s.network _ export_network_stats-IsFit
    & when-IsFit s.opcounters _ export_opcounters_stats-IsFit
    & when-IsFit s.opcounters_repl _ export_opcounters_repl_stats-IsFit
    & when-IsFit s.tcmalloc_stats _ export_tcmalloc_stats-IsFit
    & when-IsFit s.mem _ export_mem_stats-IsFit
    & when-IsFit s.locks _ export_lock_stats_map-IsFit
    & when-IsFit s.metrics _ export_metrics_stats-IsFit
    & when-IsFit s.cursors _ export_cursors-IsFit
    & when-IsFit s.wired_tiger _ export_wired_tiger_stats-IsFit
    & when-IsFit (storage_engine_of s.storage_engine s.background_flushing) _
        (export_storage_engine_stats-IsFit _)
    & tt)
