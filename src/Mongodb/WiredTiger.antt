-- ===== src/Mongodb/WiredTiger.antt =====
-- collector/mongodb/wiredtiger.go: the section "wiredTiger" of a server status.
pub mod Gauges
pub mod Fits
use exporter_plus.Prelude.{String, Bool, Option, List, [], ◌∷◌, ◌++◌}
use exporter_plus.Prelude.Int.{ℤ, pos}
use exporter_plus.Mongodb.Calls.{ok}
use exporter_plus.Mongodb.Calls.{
  Vec, gauge_vec, counter_vec, summary_vec, Value, val, int, Call, set, observe, collect, reset,
  Trace, sequence, when, deref, described, concat,
}
use exporter_plus.Mongodb.WiredTiger.Gauges.{
  wt_block_manager_blocks_total, wt_block_manager_bytes_total, wt_cache_pages, wt_cache_pages_total,
  wt_cache_bytes, wt_cache_max_bytes, wt_cache_bytes_total, wt_cache_evicted_total,
  wt_cache_percent_overhead, wt_transactions_total, wt_transactions_total_checkpoint_ms,
  wt_transactions_checkpoint_ms, wt_transactions_checkpoints_running, wt_log_records_scanned_total,
  wt_log_records_total, wt_log_bytes_total, wt_log_operations_total, wt_open_cursors,
  wt_open_sessions, wt_concurrent_transactions_out, wt_concurrent_transactions_available,
  wt_concurrent_transactions_total_tickets,
}

-- WTBlockManagerStats
pub record WtBlockManagerStats (F : Type 0) : Type 0 where
  pub mapped_bytes_read : F
  pub bytes_read : F
  pub bytes_written : F
  pub mapped_blocks_read : F
  pub blocks_pre_loaded : F
  pub blocks_read : F
  pub blocks_written : F

unfoldable pub export_wt_block_manager_stats : {F : Type 0} → WtBlockManagerStats F → Trace F
export_wt_block_manager_stats s = ok (
    set wt_block_manager_blocks_total ("read" ∷ []) (val s.blocks_read)
    ∷ set wt_block_manager_blocks_total ("read_mapped" ∷ []) (val s.mapped_blocks_read)
    ∷ set wt_block_manager_blocks_total ("pre_loaded" ∷ []) (val s.blocks_pre_loaded)
    ∷ set wt_block_manager_blocks_total ("written" ∷ []) (val s.blocks_written)
    ∷ set wt_block_manager_bytes_total ("read" ∷ []) (val s.bytes_read)
    ∷ set wt_block_manager_bytes_total ("read_mapped" ∷ []) (val s.mapped_bytes_read)
    ∷ set wt_block_manager_bytes_total ("written" ∷ []) (val s.bytes_written)
    ∷ [])

unfoldable pub describe_wt_block_manager_stats : {F : Type 0} → WtBlockManagerStats F → List Vec
describe_wt_block_manager_stats s =
    wt_block_manager_blocks_total ∷ wt_block_manager_bytes_total ∷ []

-- WTCacheStats
pub record WtCacheStats (F : Type 0) : Type 0 where
  pub bytes_total : F
  pub bytes_dirty : F
  pub bytes_internal_pages : F
  pub bytes_leaf_pages : F
  pub max_bytes : F
  pub bytes_read_into : F
  pub bytes_written_from : F
  pub evicted_unmodified : F
  pub evicted_modified : F
  pub percent_overhead : F
  pub pages_total : F
  pub pages_read_into : F
  pub pages_written_from : F
  pub pages_dirty : F

unfoldable pub export_wt_cache_stats : {F : Type 0} → WtCacheStats F → Trace F
export_wt_cache_stats s = ok (
    set wt_cache_pages_total ("read" ∷ []) (val s.pages_read_into)
    ∷ set wt_cache_pages_total ("written" ∷ []) (val s.pages_written_from)
    ∷ set wt_cache_bytes_total ("read" ∷ []) (val s.bytes_read_into)
    ∷ set wt_cache_bytes_total ("written" ∷ []) (val s.bytes_written_from)
    ∷ set wt_cache_evicted_total ("modified" ∷ []) (val s.evicted_modified)
    ∷ set wt_cache_evicted_total ("unmodified" ∷ []) (val s.evicted_unmodified)
    ∷ set wt_cache_pages ("total" ∷ []) (val s.pages_total)
    ∷ set wt_cache_pages ("dirty" ∷ []) (val s.pages_dirty)
    ∷ set wt_cache_bytes ("total" ∷ []) (val s.bytes_total)
    ∷ set wt_cache_bytes ("dirty" ∷ []) (val s.bytes_dirty)
    ∷ set wt_cache_bytes ("internal_pages" ∷ []) (val s.bytes_internal_pages)
    ∷ set wt_cache_bytes ("leaf_pages" ∷ []) (val s.bytes_leaf_pages)
    ∷ set wt_cache_max_bytes [] (val s.max_bytes)
    ∷ set wt_cache_percent_overhead [] (val s.percent_overhead)
    ∷ [])

unfoldable pub describe_wt_cache_stats : {F : Type 0} → WtCacheStats F → List Vec
describe_wt_cache_stats s =
    wt_cache_pages_total ∷ wt_cache_evicted_total ∷ wt_cache_pages ∷ wt_cache_bytes
    ∷ wt_cache_max_bytes ∷ wt_cache_percent_overhead ∷ []

-- WTLogStats
pub record WtLogStats (F : Type 0) : Type 0 where
  pub total_buffer_size : F
  pub total_size_compressed : F
  pub bytes_payload_data : F
  pub bytes_written : F
  pub records_uncompressed : F
  pub records_compressed : F
  pub records_processed_log_scan : F
  pub max_log_size : F
  pub log_flushes : F
  pub log_reads : F
  pub log_scans_double : F
  pub log_scans : F
  pub log_syncs : F
  pub log_sync_dirs : F
  pub log_writes : F

unfoldable pub export_wt_log_stats : {F : Type 0} → WtLogStats F → Trace F
export_wt_log_stats s = ok (
    set wt_log_records_total ("compressed" ∷ []) (val s.records_compressed)
    ∷ set wt_log_records_total ("uncompressed" ∷ []) (val s.records_uncompressed)
    ∷ set wt_log_bytes_total ("payload" ∷ []) (val s.bytes_payload_data)
    ∷ set wt_log_bytes_total ("written" ∷ []) (val s.bytes_written)
    ∷ set wt_log_operations_total ("read" ∷ []) (val s.log_reads)
    ∷ set wt_log_operations_total ("write" ∷ []) (val s.log_writes)
    ∷ set wt_log_operations_total ("scan" ∷ []) (val s.log_scans)
    ∷ set wt_log_operations_total ("scan_double" ∷ []) (val s.log_scans_double)
    ∷ set wt_log_operations_total ("sync" ∷ []) (val s.log_syncs)
    ∷ set wt_log_operations_total ("sync_dir" ∷ []) (val s.log_sync_dirs)
    ∷ set wt_log_operations_total ("flush" ∷ []) (val s.log_flushes)
    ∷ set wt_log_records_scanned_total [] (val s.records_processed_log_scan)
    ∷ [])

unfoldable pub describe_wt_log_stats : {F : Type 0} → WtLogStats F → List Vec
describe_wt_log_stats s =
    wt_log_records_total ∷ wt_log_bytes_total ∷ wt_log_operations_total
    ∷ wt_log_records_scanned_total ∷ []

-- WTSessionStats
pub record WtSessionStats (F : Type 0) : Type 0 where
  pub cursors : F
  pub sessions : F

unfoldable pub export_wt_session_stats : {F : Type 0} → WtSessionStats F → Trace F
export_wt_session_stats s =
    ok (set wt_open_cursors [] (val s.cursors) ∷ set wt_open_sessions [] (val s.sessions) ∷ [])

unfoldable pub describe_wt_session_stats : {F : Type 0} → WtSessionStats F → List Vec
describe_wt_session_stats s = wt_open_cursors ∷ wt_open_sessions ∷ []

-- WTTransactionStats
pub record WtTransactionStats (F : Type 0) : Type 0 where
  pub begins : F
  pub checkpoints : F
  pub checkpoints_running : F
  pub checkpoint_max_ms : F
  pub checkpoint_min_ms : F
  pub checkpoint_last_ms : F
  pub checkpoint_total_ms : F
  pub committed : F
  pub cache_overflow_failure : F
  pub rolled_back : F

unfoldable pub export_wt_transaction_stats : {F : Type 0} → WtTransactionStats F → Trace F
export_wt_transaction_stats s = ok (
    set wt_transactions_total ("begins" ∷ []) (val s.begins)
    ∷ set wt_transactions_total ("checkpoints" ∷ []) (val s.checkpoints)
    ∷ set wt_transactions_total ("committed" ∷ []) (val s.committed)
    ∷ set wt_transactions_total ("rolledback" ∷ []) (val s.rolled_back)
    ∷ set wt_transactions_checkpoint_ms ("min" ∷ []) (val s.checkpoint_min_ms)
    ∷ set wt_transactions_checkpoint_ms ("max" ∷ []) (val s.checkpoint_max_ms)
    ∷ set wt_transactions_total_checkpoint_ms [] (val s.checkpoint_total_ms)
    ∷ set wt_transactions_checkpoints_running [] (val s.checkpoints_running)
    ∷ [])

unfoldable pub describe_wt_transaction_stats : {F : Type 0} → WtTransactionStats F → List Vec
describe_wt_transaction_stats s =
    wt_transactions_total ∷ wt_transactions_total_checkpoint_ms ∷ wt_transactions_checkpoint_ms
    ∷ wt_transactions_checkpoints_running ∷ []

-- WTConcurrentTransactionsTypeStats
pub record WtConcurrentTransactionsTypeStats (F : Type 0) : Type 0 where
  pub out : F
  pub available : F
  pub total_tickets : F

-- WTConcurrentTransactionsStats
pub record WtConcurrentTransactionsStats (F : Type 0) : Type 0 where
  pub write : Option (WtConcurrentTransactionsTypeStats F)
  pub read : Option (WtConcurrentTransactionsTypeStats F)

unfoldable pub export_wt_concurrent_transactions_stats :
    {F : Type 0} → WtConcurrentTransactionsStats F → Trace F
export_wt_concurrent_transactions_stats s = deref s.read (λ read. sequence (
    ok (set wt_concurrent_transactions_out ("read" ∷ []) (val read.out) ∷ [])
    ∷ deref s.write (λ write. ok (
        set wt_concurrent_transactions_out ("write" ∷ []) (val write.out)
        ∷ set wt_concurrent_transactions_available ("read" ∷ []) (val read.available)
        ∷ set wt_concurrent_transactions_available ("write" ∷ []) (val write.available)
        ∷ set wt_concurrent_transactions_total_tickets ("read" ∷ []) (val read.total_tickets)
        ∷ set wt_concurrent_transactions_total_tickets ("write" ∷ []) (val write.total_tickets)
        ∷ []))
    ∷ []))

unfoldable pub describe_wt_concurrent_transactions_stats :
    {F : Type 0} → WtConcurrentTransactionsStats F → List Vec
describe_wt_concurrent_transactions_stats s =
    wt_concurrent_transactions_out ∷ wt_concurrent_transactions_available
    ∷ wt_concurrent_transactions_total_tickets ∷ []

-- WiredTigerStats
pub record WiredTigerStats (F : Type 0) : Type 0 where
  pub block_manager : Option (WtBlockManagerStats F)
  pub cache : Option (WtCacheStats F)
  pub log : Option (WtLogStats F)
  pub session : Option (WtSessionStats F)
  pub transaction : Option (WtTransactionStats F)
  pub concurrent_transactions : Option (WtConcurrentTransactionsStats F)

unfoldable pub describe_wired_tiger_stats : {F : Type 0} → WiredTigerStats F → List Vec
describe_wired_tiger_stats s = concat (
    described s.block_manager describe_wt_block_manager_stats
    ∷ described s.cache describe_wt_cache_stats
    ∷ described s.transaction describe_wt_transaction_stats
    ∷ described s.log describe_wt_log_stats
    ∷ described s.session describe_wt_session_stats
    ∷ described s.concurrent_transactions describe_wt_concurrent_transactions_stats
    ∷ [])

unfoldable pub export_wired_tiger_stats : {F : Type 0} → WiredTigerStats F → Trace F
export_wired_tiger_stats s = sequence (
    (when s.block_manager export_wt_block_manager_stats)
    ∷ (when s.cache export_wt_cache_stats)
    ∷ (when s.transaction export_wt_transaction_stats)
    ∷ (when s.log export_wt_log_stats)
    ∷ (when s.session export_wt_session_stats)
    ∷ (when s.concurrent_transactions export_wt_concurrent_transactions_stats)
    ∷ (ok (
        collect wt_block_manager_blocks_total
        ∷ collect wt_block_manager_bytes_total
        ∷ collect wt_cache_pages_total
        ∷ collect wt_cache_bytes_total
        ∷ collect wt_cache_evicted_total
        ∷ collect wt_cache_pages
        ∷ collect wt_cache_bytes
        ∷ collect wt_cache_max_bytes
        ∷ collect wt_cache_percent_overhead
        ∷ collect wt_transactions_total
        ∷ collect wt_transactions_total_checkpoint_ms
        ∷ collect wt_transactions_checkpoint_ms
        ∷ collect wt_transactions_checkpoints_running
        ∷ collect wt_log_records_total
        ∷ collect wt_log_bytes_total
        ∷ collect wt_log_operations_total
        ∷ collect wt_log_records_scanned_total
        ∷ collect wt_open_cursors
        ∷ collect wt_open_sessions
        ∷ collect wt_concurrent_transactions_out
        ∷ collect wt_concurrent_transactions_available
        ∷ collect wt_concurrent_transactions_total_tickets
        ∷ []))
    ∷ [])
