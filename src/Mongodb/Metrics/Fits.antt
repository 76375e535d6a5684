-- ===== src/Mongodb/Metrics/Fits.antt =====
-- The label values of Metrics: each export has as many as the labels.
use exporter_plus.Prelude.{refl, ◌&◌}
use exporter_plus.Mongodb.Calls.Fits.{IsFit, sequence-IsFit, when-IsFit, deref-IsFit}
use exporter_plus.Mongodb.Metrics.{
  DocumentStats, GetLastErrorStats, OperationStats, QueryExecutorStats, RecordStats, ApplyStats,
  BufferStats, MetricsNetworkStats, PreloadStats, ReplStats, StorageStats, TtlStats, CursorStats,
  MetricsStats, export_document_stats, export_get_last_error_stats, export_operation_stats,
  export_query_executor_stats, export_record_stats, export_apply_stats, export_buffer_stats,
  export_metrics_network_stats, export_preload_stats, export_repl_stats, export_storage_stats,
  export_ttl_stats, export_cursor_stats, export_metrics_stats,
}

pub export_document_stats-IsFit :
    {F : Type 0} (s : DocumentStats F) → IsFit (export_document_stats s)
unfolding export_document_stats
export_document_stats-IsFit s = refl

pub export_get_last_error_stats-IsFit :
    {F : Type 0} (s : GetLastErrorStats F) → IsFit (export_get_last_error_stats s)
unfolding export_get_last_error_stats
export_get_last_error_stats-IsFit s = deref-IsFit s.wtime _ (λ _. refl)

pub export_operation_stats-IsFit :
    {F : Type 0} (s : OperationStats F) → IsFit (export_operation_stats s)
unfolding export_operation_stats
export_operation_stats-IsFit s = refl

pub export_query_executor_stats-IsFit :
    {F : Type 0} (s : QueryExecutorStats F) → IsFit (export_query_executor_stats s)
unfolding export_query_executor_stats
export_query_executor_stats-IsFit s = refl

pub export_record_stats-IsFit : {F : Type 0} (s : RecordStats F) → IsFit (export_record_stats s)
unfolding export_record_stats
export_record_stats-IsFit s = refl

pub export_apply_stats-IsFit : {F : Type 0} (s : ApplyStats F) → IsFit (export_apply_stats s)
unfolding export_apply_stats
export_apply_stats-IsFit s = sequence-IsFit _ (refl & deref-IsFit s.batches _ (λ _. refl) & tt)

pub export_buffer_stats-IsFit : {F : Type 0} (s : BufferStats F) → IsFit (export_buffer_stats s)
unfolding export_buffer_stats
export_buffer_stats-IsFit s = refl

pub export_metrics_network_stats-IsFit :
    {F : Type 0} (s : MetricsNetworkStats F) → IsFit (export_metrics_network_stats s)
unfolding export_metrics_network_stats
export_metrics_network_stats-IsFit s =
    sequence-IsFit _ (refl & deref-IsFit s.get_mores _ (λ _. refl) & tt)

pub export_preload_stats-IsFit : {F : Type 0} (s : PreloadStats F) → IsFit (export_preload_stats s)
unfolding export_preload_stats
export_preload_stats-IsFit s =
    sequence-IsFit _ (deref-IsFit s.docs _ (λ _. refl) & deref-IsFit s.indexes _ (λ _. refl) & tt)

pub export_repl_stats-IsFit : {F : Type 0} (s : ReplStats F) → IsFit (export_repl_stats s)
unfolding export_repl_stats
export_repl_stats-IsFit s = sequence-IsFit _ (
    deref-IsFit s.apply _ export_apply_stats-IsFit
    & deref-IsFit s.buffer _ export_buffer_stats-IsFit
    & deref-IsFit s.network _ export_metrics_network_stats-IsFit
    & deref-IsFit s.preload_stats _ export_preload_stats-IsFit
    & tt)

pub export_storage_stats-IsFit : {F : Type 0} (s : StorageStats F) → IsFit (export_storage_stats s)
unfolding export_storage_stats
export_storage_stats-IsFit s = refl

pub export_ttl_stats-IsFit : {F : Type 0} (s : TtlStats F) → IsFit (export_ttl_stats s)
unfolding export_ttl_stats
export_ttl_stats-IsFit s = refl

pub export_cursor_stats-IsFit : {F : Type 0} (s : CursorStats F) → IsFit (export_cursor_stats s)
unfolding export_cursor_stats
export_cursor_stats-IsFit s =
    sequence-IsFit _ (refl & deref-IsFit s.open_cursors _ (λ _. refl) & tt)

pub export_metrics_stats-IsFit : {F : Type 0} (s : MetricsStats F) → IsFit (export_metrics_stats s)
unfolding export_metrics_stats
export_metrics_stats-IsFit s = sequence-IsFit _ (
    when-IsFit s.document _ export_document_stats-IsFit
    & when-IsFit s.get_last_error _ export_get_last_error_stats-IsFit
    & when-IsFit s.operation _ export_operation_stats-IsFit
    & when-IsFit s.query_executor _ export_query_executor_stats-IsFit
    & when-IsFit s.record_stats _ export_record_stats-IsFit
    & when-IsFit s.repl _ export_repl_stats-IsFit
    & when-IsFit s.storage _ export_storage_stats-IsFit
    & when-IsFit s.ttl _ export_ttl_stats-IsFit
    & when-IsFit s.cursor _ export_cursor_stats-IsFit
    & refl
    & tt)
