-- ===== src/Mongodb/Engine.antt =====
-- What the storage engine and the memory allocator report, in collector/mongodb:
-- background_flushing.go, durability.go, global_lock.go, tcmalloc.go and storage_engine.go.
pub mod Gauges
pub mod Fits
use exporter_plus.Prelude.{String, Bool, Option, List, [], ◌∷◌, ◌++◌}
use exporter_plus.Prelude.Int.{ℤ, pos}
use exporter_plus.Mongodb.Calls.{ok}
use exporter_plus.Mongodb.Calls.{
  Vec, gauge_vec, counter_vec, summary_vec, Value, val, int, Call, set, observe, collect, reset,
  Trace, sequence, when, deref, described, concat,
}
use exporter_plus.Mongodb.ReplSet.{Time}
use exporter_plus.Mongodb.Engine.Gauges.{
  background_flushingflushes_total, background_flushingtotal_milliseconds,
  background_flushingaverage_milliseconds, background_flushinglast_milliseconds,
  background_flushinglast_finished_time, durability_commits, durability_journaled_megabytes,
  durability_write_to_data_files_megabytes, durability_compression, durability_early_commits,
  durability_time_milliseconds, global_lock_ratio, global_lock_total, global_lock_lock_total,
  global_lock_current_queue, global_lock_client, tcmalloc_general, tcmalloc_pageheap_bytes,
  tcmalloc_pageheap_counts, tcmalloc_cache_bytes, tcmalloc_aggressive_decommit, tcmalloc_free_bytes,
  storage_engine,
}

-- FlushStats
pub record FlushStats (F : Type 0) : Type 0 where
  pub flushes : F
  pub total_ms : F
  pub average_ms : F
  pub last_ms : F
  pub last_finished : Time

unfoldable pub export_flush_stats : {F : Type 0} → FlushStats F → Trace F
export_flush_stats s = ok (
    set background_flushingflushes_total [] (val s.flushes)
    ∷ set background_flushingtotal_milliseconds [] (val s.total_ms)
    ∷ set background_flushingaverage_milliseconds [] (val s.average_ms)
    ∷ set background_flushinglast_milliseconds [] (val s.last_ms)
    ∷ set background_flushinglast_finished_time [] (int s.last_finished.unix)
    ∷ collect background_flushingflushes_total
    ∷ collect background_flushingtotal_milliseconds
    ∷ collect background_flushingaverage_milliseconds
    ∷ collect background_flushinglast_milliseconds
    ∷ collect background_flushinglast_finished_time
    ∷ [])

unfoldable pub describe_flush_stats : {F : Type 0} → FlushStats F → List Vec
describe_flush_stats s =
    background_flushingflushes_total ∷ background_flushingtotal_milliseconds
    ∷ background_flushingaverage_milliseconds ∷ background_flushinglast_milliseconds
    ∷ background_flushinglast_finished_time ∷ []

-- DurTiming
pub record DurTiming (F : Type 0) : Type 0 where
  pub dt : F
  pub prep_log_buffer : F
  pub write_to_journal : F
  pub write_to_data_files : F
  pub remap_private_view : F

unfoldable pub export_dur_timing : {F : Type 0} → DurTiming F → Trace F
export_dur_timing s = ok (
    observe durability_time_milliseconds ("dt" ∷ []) (val s.dt)
    ∷ observe durability_time_milliseconds ("prep_log_buffer" ∷ []) (val s.prep_log_buffer)
    ∷ observe durability_time_milliseconds ("write_to_journal" ∷ []) (val s.write_to_journal)
    ∷ observe durability_time_milliseconds ("write_to_data_files" ∷ []) (val s.write_to_data_files)
    ∷ observe durability_time_milliseconds ("remap_private_view" ∷ []) (val s.remap_private_view)
    ∷ collect durability_time_milliseconds
    ∷ [])

-- DurStats
pub record DurStats (F : Type 0) : Type 0 where
  pub commits : F
  pub journaled_mb : F
  pub write_to_data_files_mb : F
  pub compression : F
  pub commits_in_write_lock : F
  pub early_commits : F
  pub time_ms : DurTiming F

unfoldable pub collect_dur_stats : {F : Type 0} → Trace F
collect_dur_stats = ok (
    collect durability_commits
    ∷ collect durability_journaled_megabytes
    ∷ collect durability_write_to_data_files_megabytes
    ∷ collect durability_compression
    ∷ collect durability_early_commits
    ∷ [])

unfoldable pub export_dur_stats : {F : Type 0} → DurStats F → Trace F
export_dur_stats s = sequence (
    (ok (
      set durability_commits ("written" ∷ []) (val s.commits)
      ∷ set durability_commits ("in_write_lock" ∷ []) (val s.commits_in_write_lock)
      ∷ set durability_journaled_megabytes [] (val s.journaled_mb)
      ∷ set durability_write_to_data_files_megabytes [] (val s.write_to_data_files_mb)
      ∷ set durability_compression [] (val s.compression)
      ∷ observe durability_early_commits [] (val s.early_commits)
      ∷ []))
    ∷ (export_dur_timing s.time_ms)
    ∷ collect_dur_stats
    ∷ [])

unfoldable pub describe_dur_stats : {F : Type 0} → DurStats F → List Vec
describe_dur_stats s =
    durability_commits ∷ durability_journaled_megabytes ∷ durability_write_to_data_files_megabytes
    ∷ durability_compression ∷ durability_early_commits ∷ durability_time_milliseconds ∷ []

-- ClientStats
pub record ClientStats (F : Type 0) : Type 0 where
  pub total : F
  pub readers : F
  pub writers : F

unfoldable pub export_client_stats : {F : Type 0} → ClientStats F → Trace F
export_client_stats s = ok (
    set global_lock_client ("reader" ∷ []) (val s.readers)
    ∷ set global_lock_client ("writer" ∷ []) (val s.writers)
    ∷ [])

-- QueueStats
pub record QueueStats (F : Type 0) : Type 0 where
  pub total : F
  pub readers : F
  pub writers : F

unfoldable pub export_queue_stats : {F : Type 0} → QueueStats F → Trace F
export_queue_stats s = ok (
    set global_lock_current_queue ("reader" ∷ []) (val s.readers)
    ∷ set global_lock_current_queue ("writer" ∷ []) (val s.writers)
    ∷ [])

-- GlobalLockStats
pub record GlobalLockStats (F : Type 0) : Type 0 where
  pub total_time : F
  pub lock_time : F
  pub ratio : F
  pub current_queue : Option (QueueStats F)
  pub active_clients : Option (ClientStats F)

unfoldable pub export_global_lock_stats : {F : Type 0} → GlobalLockStats F → Trace F
export_global_lock_stats s = sequence (
    (ok (set global_lock_total [] (val s.lock_time) ∷ set global_lock_ratio [] (val s.ratio) ∷ []))
    ∷ (deref s.current_queue export_queue_stats)
    ∷ (deref s.active_clients export_client_stats)
    ∷ (ok (
        collect global_lock_total
        ∷ collect global_lock_ratio
        ∷ collect global_lock_current_queue
        ∷ collect global_lock_client
        ∷ []))
    ∷ [])

unfoldable pub describe_global_lock_stats : {F : Type 0} → GlobalLockStats F → List Vec
describe_global_lock_stats s =
    global_lock_total ∷ global_lock_ratio ∷ global_lock_current_queue ∷ global_lock_client ∷ []

-- GenericTCMAllocStats
pub record GenericTcMallocStats (F : Type 0) : Type 0 where
  pub current_allocated_bytes : F
  pub heap_size : F

-- DetailedTCMallocStats
pub record DetailedTcMallocStats (F : Type 0) : Type 0 where
  pub pageheap_free_bytes : F
  pub pageheap_unmapped_bytes : F
  pub pageheap_comitted_bytes : F
  pub pageheap_scavenge_count : F
  pub pageheap_commit_count : F
  pub pageheap_total_commit_bytes : F
  pub pageheap_decommit_count : F
  pub pageheap_total_decommit_bytes : F
  pub pageheap_reserve_count : F
  pub pageheap_total_reserve_bytes : F
  pub max_total_thread_cache_bytes : F
  pub current_total_thread_cache_bytes : F
  pub central_cache_free_bytes : F
  pub transfer_cache_free_bytes : F
  pub thread_cache_free_bytes : F
  pub total_free_bytes : F
  pub aggressive_memory_decommit : F

-- TCMallocStats
pub record TcMallocStats (F : Type 0) : Type 0 where
  pub generic : GenericTcMallocStats F
  pub details : DetailedTcMallocStats F

unfoldable pub export_tcmalloc_stats : {F : Type 0} → TcMallocStats F → Trace F
export_tcmalloc_stats s = ok (
    set tcmalloc_general ("allocated" ∷ []) (val s.generic.current_allocated_bytes)
    ∷ set tcmalloc_general ("total" ∷ []) (val s.generic.heap_size)
    ∷ collect tcmalloc_general
    ∷ set tcmalloc_pageheap_bytes ("free" ∷ []) (val s.details.pageheap_free_bytes)
    ∷ set tcmalloc_pageheap_bytes ("unmapped" ∷ []) (val s.details.pageheap_unmapped_bytes)
    ∷ set tcmalloc_pageheap_bytes ("comitted" ∷ []) (val s.details.pageheap_comitted_bytes)
    ∷ set tcmalloc_pageheap_bytes ("total_commit" ∷ []) (val s.details.pageheap_total_commit_bytes)
    ∷ set tcmalloc_pageheap_bytes ("total_decommit" ∷ [])
        (val s.details.pageheap_total_decommit_bytes)
    ∷ set tcmalloc_pageheap_bytes ("total_reserve" ∷ [])
        (val s.details.pageheap_total_reserve_bytes)
    ∷ collect tcmalloc_pageheap_bytes
    ∷ set tcmalloc_pageheap_counts ("scavenge" ∷ []) (val s.details.pageheap_scavenge_count)
    ∷ set tcmalloc_pageheap_counts ("commit" ∷ []) (val s.details.pageheap_commit_count)
    ∷ set tcmalloc_pageheap_counts ("decommit" ∷ []) (val s.details.pageheap_decommit_count)
    ∷ set tcmalloc_pageheap_counts ("reserve" ∷ []) (val s.details.pageheap_reserve_count)
    ∷ collect tcmalloc_pageheap_counts
    ∷ set tcmalloc_cache_bytes ("thread_cache" ∷ "max_total" ∷ [])
        (val s.details.max_total_thread_cache_bytes)
    ∷ set tcmalloc_cache_bytes ("thread_cache" ∷ "current_total" ∷ [])
        (val s.details.current_total_thread_cache_bytes)
    ∷ set tcmalloc_cache_bytes ("central_cache" ∷ "free" ∷ [])
        (val s.details.central_cache_free_bytes)
    ∷ set tcmalloc_cache_bytes ("transfer_cache" ∷ "free" ∷ [])
        (val s.details.transfer_cache_free_bytes)
    ∷ set tcmalloc_cache_bytes ("thread_cache" ∷ "free" ∷ [])
        (val s.details.thread_cache_free_bytes)
    ∷ collect tcmalloc_cache_bytes
    ∷ set tcmalloc_aggressive_decommit [] (val s.details.aggressive_memory_decommit)
    ∷ collect tcmalloc_aggressive_decommit
    ∷ set tcmalloc_free_bytes [] (val s.details.total_free_bytes)
    ∷ collect tcmalloc_free_bytes
    ∷ [])

unfoldable pub describe_tcmalloc_stats : {F : Type 0} → TcMallocStats F → List Vec
describe_tcmalloc_stats s =
    tcmalloc_general ∷ tcmalloc_pageheap_bytes ∷ tcmalloc_pageheap_counts ∷ tcmalloc_cache_bytes
    ∷ tcmalloc_aggressive_decommit ∷ tcmalloc_free_bytes ∷ []

-- StorageEngineStats
pub record StorageEngineStats : Type 0 where
  pub name : String

unfoldable pub export_storage_engine_stats : {F : Type 0} → StorageEngineStats → Trace F
export_storage_engine_stats s =
    ok (set storage_engine (s.name ∷ []) (int (pos 1)) ∷ collect storage_engine ∷ [])

unfoldable pub describe_storage_engine_stats : StorageEngineStats → List Vec
describe_storage_engine_stats s = storage_engine ∷ []
