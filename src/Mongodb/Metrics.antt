-- ===== src/Mongodb/Metrics.antt =====
-- collector/mongodb/metrics.go: the section "metrics" of a server status.
pub mod Gauges
pub mod Fits
use exporter_plus.Prelude.{String, Bool, Option, List, [], ◌∷◌, ◌++◌}
use exporter_plus.Prelude.Int.{ℤ, pos}
use exporter_plus.Mongodb.Calls.{ok}
use exporter_plus.Mongodb.Calls.{
  Vec, gauge_vec, counter_vec, summary_vec, Value, val, int, Call, set, observe, collect, reset,
  Trace, sequence, when, deref, described, concat,
}
use exporter_plus.Mongodb.Metrics.Gauges.{
  metrics_cursor_timed_out_total, metrics_cursor_open, metrics_document_total,
  metrics_get_last_error_wtime_num_total, metrics_get_last_error_wtime_total_milliseconds,
  metrics_get_last_error_wtimeouts_total, metrics_operation_total, metrics_query_executor_total,
  metrics_record_moves_total, metrics_repl_apply_batches_num_total,
  metrics_repl_apply_batches_total_milliseconds, metrics_repl_apply_ops_total,
  metrics_repl_buffer_count, metrics_repl_buffer_max_size_bytes, metrics_repl_buffer_size_bytes,
  metrics_repl_network_getmores_num_total, metrics_repl_network_getmores_total_milliseconds,
  metrics_repl_network_bytes_total, metrics_repl_network_ops_total,
  metrics_repl_network_readers_created_total, metrics_repl_oplog_insert_num_total,
  metrics_repl_oplog_insert_total_milliseconds, metrics_repl_oplog_insert_bytes_total,
  metrics_repl_preload_docs_num_total, metrics_repl_preload_docs_total_milliseconds,
  metrics_repl_preload_indexes_num_total, metrics_repl_preload_indexes_total_milliseconds,
  metrics_storage_freelist_search_total, metrics_ttl_deleted_documents_total,
  metrics_ttl_passes_total,
}

-- DocumentStats
pub record DocumentStats (F : Type 0) : Type 0 where
  pub deleted : F
  pub inserted : F
  pub returned : F
  pub updated : F

unfoldable pub export_document_stats : {F : Type 0} → DocumentStats F → Trace F
export_document_stats s = ok (
    set metrics_document_total ("deleted" ∷ []) (val s.deleted)
    ∷ set metrics_document_total ("inserted" ∷ []) (val s.inserted)
    ∷ set metrics_document_total ("returned" ∷ []) (val s.returned)
    ∷ set metrics_document_total ("updated" ∷ []) (val s.updated)
    ∷ [])

-- BenchmarkStats
pub record BenchmarkStats (F : Type 0) : Type 0 where
  pub num : F
  pub total_millis : F

-- GetLastErrorStats
pub record GetLastErrorStats (F : Type 0) : Type 0 where
  pub wtimeouts : F
  pub wtime : Option (BenchmarkStats F)

unfoldable pub export_get_last_error_stats : {F : Type 0} → GetLastErrorStats F → Trace F
export_get_last_error_stats s = deref s.wtime (λ wtime. ok (
    set metrics_get_last_error_wtime_num_total [] (val wtime.num)
    ∷ set metrics_get_last_error_wtime_total_milliseconds [] (val wtime.total_millis)
    ∷ set metrics_get_last_error_wtimeouts_total [] (val s.wtimeouts)
    ∷ []))

-- OperationStats
pub record OperationStats (F : Type 0) : Type 0 where
  pub fastmod : F
  pub idhack : F
  pub scan_and_order : F

unfoldable pub export_operation_stats : {F : Type 0} → OperationStats F → Trace F
export_operation_stats s = ok (
    set metrics_operation_total ("fastmod" ∷ []) (val s.fastmod)
    ∷ set metrics_operation_total ("idhack" ∷ []) (val s.idhack)
    ∷ set metrics_operation_total ("scan_and_order" ∷ []) (val s.scan_and_order)
    ∷ [])

-- QueryExecutorStats
pub record QueryExecutorStats (F : Type 0) : Type 0 where
  pub scanned : F
  pub scanned_objects : F

unfoldable pub export_query_executor_stats : {F : Type 0} → QueryExecutorStats F → Trace F
export_query_executor_stats s = ok (
    set metrics_query_executor_total ("scanned" ∷ []) (val s.scanned)
    ∷ set metrics_query_executor_total ("scanned_objects" ∷ []) (val s.scanned_objects)
    ∷ [])

-- RecordStats
pub record RecordStats (F : Type 0) : Type 0 where
  pub moves : F

unfoldable pub export_record_stats : {F : Type 0} → RecordStats F → Trace F
export_record_stats s = ok (set metrics_record_moves_total [] (val s.moves) ∷ [])

-- ApplyStats
pub record ApplyStats (F : Type 0) : Type 0 where
  pub batches : Option (BenchmarkStats F)
  pub ops : F

unfoldable pub export_apply_stats : {F : Type 0} → ApplyStats F → Trace F
export_apply_stats s = sequence (
    ok (set metrics_repl_apply_ops_total [] (val s.ops) ∷ [])
    ∷ deref s.batches (λ batches. ok (
        set metrics_repl_apply_batches_num_total [] (val batches.num)
        ∷ set metrics_repl_apply_batches_total_milliseconds [] (val batches.total_millis)
        ∷ []))
    ∷ [])

-- BufferStats
pub record BufferStats (F : Type 0) : Type 0 where
  pub count : F
  pub max_size_bytes : F
  pub size_bytes : F

unfoldable pub export_buffer_stats : {F : Type 0} → BufferStats F → Trace F
export_buffer_stats s = ok (
    set metrics_repl_buffer_count [] (val s.count)
    ∷ set metrics_repl_buffer_max_size_bytes [] (val s.max_size_bytes)
    ∷ set metrics_repl_buffer_size_bytes [] (val s.size_bytes)
    ∷ [])

-- MetricsNetworkStats
pub record MetricsNetworkStats (F : Type 0) : Type 0 where
  pub bytes : F
  pub ops : F
  pub get_mores : Option (BenchmarkStats F)
  pub readers_created : F

unfoldable pub export_metrics_network_stats : {F : Type 0} → MetricsNetworkStats F → Trace F
export_metrics_network_stats s = sequence (
    ok (
      set metrics_repl_network_bytes_total [] (val s.bytes)
      ∷ set metrics_repl_network_ops_total [] (val s.ops)
      ∷ set metrics_repl_network_readers_created_total [] (val s.readers_created)
      ∷ [])
    ∷ deref s.get_mores (λ get_mores. ok (
        set metrics_repl_network_getmores_num_total [] (val get_mores.num)
        ∷ set metrics_repl_network_getmores_total_milliseconds [] (val get_mores.total_millis)
        ∷ []))
    ∷ [])

-- PreloadStats
pub record PreloadStats (F : Type 0) : Type 0 where
  pub docs : Option (BenchmarkStats F)
  pub indexes : Option (BenchmarkStats F)

unfoldable pub export_preload_stats : {F : Type 0} → PreloadStats F → Trace F
export_preload_stats s = sequence (
    deref s.docs (λ docs. ok (
      set metrics_repl_preload_docs_num_total [] (val docs.num)
      ∷ set metrics_repl_preload_docs_total_milliseconds [] (val docs.total_millis)
      ∷ []))
    ∷ deref s.indexes (λ indexes. ok (
        set metrics_repl_preload_indexes_num_total [] (val indexes.num)
        ∷ set metrics_repl_preload_indexes_total_milliseconds [] (val indexes.total_millis)
        ∷ []))
    ∷ [])

-- ReplStats
pub record ReplStats (F : Type 0) : Type 0 where
  pub apply : Option (ApplyStats F)
  pub buffer : Option (BufferStats F)
  pub network : Option (MetricsNetworkStats F)
  pub preload_stats : Option (PreloadStats F)

unfoldable pub export_repl_stats : {F : Type 0} → ReplStats F → Trace F
export_repl_stats s = sequence (
    (deref s.apply export_apply_stats)
    ∷ (deref s.buffer export_buffer_stats)
    ∷ (deref s.network export_metrics_network_stats)
    ∷ (deref s.preload_stats export_preload_stats)
    ∷ [])

-- StorageStats
pub record StorageStats (F : Type 0) : Type 0 where
  pub bucket_exhausted : F
  pub requests : F
  pub scanned : F

unfoldable pub export_storage_stats : {F : Type 0} → StorageStats F → Trace F
export_storage_stats s = ok (
    set metrics_storage_freelist_search_total ("bucket_exhausted" ∷ []) (val s.bucket_exhausted)
    ∷ set metrics_storage_freelist_search_total ("requests" ∷ []) (val s.requests)
    ∷ set metrics_storage_freelist_search_total ("scanned" ∷ []) (val s.scanned)
    ∷ [])

-- TtlStats
pub record TtlStats (F : Type 0) : Type 0 where
  pub passes : F
  pub deleted_documents : F

unfoldable pub export_ttl_stats : {F : Type 0} → TtlStats F → Trace F
export_ttl_stats s = ok (
    set metrics_ttl_passes_total [] (val s.passes)
    ∷ set metrics_ttl_deleted_documents_total [] (val s.deleted_documents)
    ∷ [])

-- CursorStatsOpen
pub record CursorStatsOpen (F : Type 0) : Type 0 where
  pub no_timeout : F
  pub pinned : F
  pub total : F

-- CursorStats
pub record CursorStats (F : Type 0) : Type 0 where
  pub timed_out : F
  pub open_cursors : Option (CursorStatsOpen F)

unfoldable pub export_cursor_stats : {F : Type 0} → CursorStats F → Trace F
export_cursor_stats s = sequence (
    ok (set metrics_cursor_timed_out_total [] (val s.timed_out) ∷ [])
    ∷ deref s.open_cursors (λ open_cursors. ok (
        set metrics_cursor_open ("timed_out" ∷ []) (val open_cursors.no_timeout)
        ∷ set metrics_cursor_open ("pinned" ∷ []) (val open_cursors.pinned)
        ∷ set metrics_cursor_open ("total" ∷ []) (val open_cursors.total)
        ∷ []))
    ∷ [])

-- MetricsStats
pub record MetricsStats (F : Type 0) : Type 0 where
  pub document : Option (DocumentStats F)
  pub get_last_error : Option (GetLastErrorStats F)
  pub operation : Option (OperationStats F)
  pub query_executor : Option (QueryExecutorStats F)
  pub record_stats : Option (RecordStats F)
  pub repl : Option (ReplStats F)
  pub storage : Option (StorageStats F)
  pub cursor : Option (CursorStats F)
  pub ttl : Option (TtlStats F)

unfoldable pub export_metrics_stats : {F : Type 0} → MetricsStats F → Trace F
export_metrics_stats s = sequence (
    (when s.document export_document_stats)
    ∷ (when s.get_last_error export_get_last_error_stats)
    ∷ (when s.operation export_operation_stats)
    ∷ (when s.query_executor export_query_executor_stats)
    ∷ (when s.record_stats export_record_stats)
    ∷ (when s.repl export_repl_stats)
    ∷ (when s.storage export_storage_stats)
    ∷ (when s.ttl export_ttl_stats)
    ∷ (when s.cursor export_cursor_stats)
    ∷ (ok (
        collect metrics_cursor_timed_out_total
        ∷ collect metrics_cursor_open
        ∷ collect metrics_document_total
        ∷ collect metrics_get_last_error_wtime_num_total
        ∷ collect metrics_get_last_error_wtime_total_milliseconds
        ∷ collect metrics_get_last_error_wtimeouts_total
        ∷ collect metrics_operation_total
        ∷ collect metrics_query_executor_total
        ∷ collect metrics_record_moves_total
        ∷ collect metrics_repl_apply_batches_num_total
        ∷ collect metrics_repl_apply_batches_total_milliseconds
        ∷ collect metrics_repl_apply_ops_total
        ∷ collect metrics_repl_buffer_count
        ∷ collect metrics_repl_buffer_max_size_bytes
        ∷ collect metrics_repl_buffer_size_bytes
        ∷ collect metrics_repl_network_getmores_num_total
        ∷ collect metrics_repl_network_getmores_total_milliseconds
        ∷ collect metrics_repl_network_bytes_total
        ∷ collect metrics_repl_network_ops_total
        ∷ collect metrics_repl_network_readers_created_total
        ∷ collect metrics_repl_oplog_insert_num_total
        ∷ collect metrics_repl_oplog_insert_total_milliseconds
        ∷ collect metrics_repl_oplog_insert_bytes_total
        ∷ collect metrics_repl_preload_docs_num_total
        ∷ collect metrics_repl_preload_docs_total_milliseconds
        ∷ collect metrics_repl_preload_indexes_num_total
        ∷ collect metrics_repl_preload_indexes_total_milliseconds
        ∷ collect metrics_storage_freelist_search_total
        ∷ collect metrics_ttl_deleted_documents_total
        ∷ collect metrics_ttl_passes_total
        ∷ []))
    ∷ [])

unfoldable pub describe_metrics_stats : {F : Type 0} → MetricsStats F → List Vec
describe_metrics_stats s =
    metrics_cursor_timed_out_total ∷ metrics_cursor_open ∷ metrics_document_total
    ∷ metrics_get_last_error_wtime_num_total ∷ metrics_get_last_error_wtime_total_milliseconds
    ∷ metrics_get_last_error_wtimeouts_total ∷ metrics_operation_total
    ∷ metrics_query_executor_total ∷ metrics_record_moves_total
    ∷ metrics_repl_apply_batches_num_total ∷ metrics_repl_apply_batches_total_milliseconds
    ∷ metrics_repl_apply_ops_total ∷ metrics_repl_buffer_count ∷ metrics_repl_buffer_max_size_bytes
    ∷ metrics_repl_buffer_size_bytes ∷ metrics_repl_network_getmores_num_total
    ∷ metrics_repl_network_getmores_total_milliseconds ∷ metrics_repl_network_bytes_total
    ∷ metrics_repl_network_ops_total ∷ metrics_repl_network_readers_created_total
    ∷ metrics_repl_oplog_insert_num_total ∷ metrics_repl_oplog_insert_total_milliseconds
    ∷ metrics_repl_oplog_insert_bytes_total ∷ metrics_repl_preload_docs_num_total
    ∷ metrics_repl_preload_docs_total_milliseconds ∷ metrics_repl_preload_indexes_num_total
    ∷ metrics_repl_preload_indexes_total_milliseconds ∷ metrics_storage_freelist_search_total
    ∷ metrics_ttl_deleted_documents_total ∷ metrics_ttl_passes_total ∷ []
