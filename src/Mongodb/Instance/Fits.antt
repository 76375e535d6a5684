-- ===== src/Mongodb/Instance/Fits.antt =====
-- The label values of Instance: each export has as many as the labels.
use exporter_plus.Prelude.{refl}
use exporter_plus.Mongodb.Calls.Fits.{IsFit}
use exporter_plus.Mongodb.Instance.{
  AssertsStats, ConnectionStats, Cursors, ExtraInfo, IndexCounterStats, MemStats, NetworkStats,
  OpcountersStats, OpcountersReplStats, export_asserts_stats, export_connection_stats,
  export_cursors, export_extra_info, export_index_counter_stats, export_mem_stats,
  export_network_stats, export_opcounters_stats, export_opcounters_repl_stats,
}

pub export_asserts_stats-IsFit : {F : Type 0} (s : AssertsStats F) → IsFit (export_asserts_stats s)
unfolding export_asserts_stats
export_asserts_stats-IsFit s = refl

pub export_connection_stats-IsFit :
    {F : Type 0} (s : ConnectionStats F) → IsFit (export_connection_stats s)
unfolding export_connection_stats
export_connection_stats-IsFit s = refl

pub export_cursors-IsFit : {F : Type 0} (s : Cursors F) → IsFit (export_cursors s)
unfolding export_cursors
export_cursors-IsFit s = refl

pub export_extra_info-IsFit : {F : Type 0} (s : ExtraInfo F) → IsFit (export_extra_info s)
unfolding export_extra_info
export_extra_info-IsFit s = refl

pub export_index_counter_stats-IsFit :
    {F : Type 0} (s : IndexCounterStats F) → IsFit (export_index_counter_stats s)
unfolding export_index_counter_stats
export_index_counter_stats-IsFit s = refl

pub export_mem_stats-IsFit : {F : Type 0} (s : MemStats F) → IsFit (export_mem_stats s)
unfolding export_mem_stats
export_mem_stats-IsFit s = refl

pub export_network_stats-IsFit : {F : Type 0} (s : NetworkStats F) → IsFit (export_network_stats s)
unfolding export_network_stats
export_network_stats-IsFit s = refl

pub export_opcounters_stats-IsFit :
    {F : Type 0} (s : OpcountersStats F) → IsFit (export_opcounters_stats s)
unfolding export_opcounters_stats
export_opcounters_stats-IsFit s = refl

pub export_opcounters_repl_stats-IsFit :
    {F : Type 0} (s : OpcountersReplStats F) → IsFit (export_opcounters_repl_stats s)
unfolding export_opcounters_repl_stats
export_opcounters_repl_stats-IsFit s = refl
