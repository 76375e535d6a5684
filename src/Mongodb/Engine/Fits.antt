-- ===== src/Mongodb/Engine/Fits.antt =====
-- The label values of Engine: each export has as many as the labels.
use exporter_plus.Prelude.{refl, ◌&◌}
use exporter_plus.Mongodb.Calls.Fits.{IsFit, sequence-IsFit, deref-IsFit}
use exporter_plus.Mongodb.Engine.{
  FlushStats, DurTiming, DurStats, ClientStats, QueueStats, GlobalLockStats, TcMallocStats,
  StorageEngineStats, export_flush_stats, export_dur_timing, collect_dur_stats, export_dur_stats,
  export_client_stats, export_queue_stats, export_global_lock_stats, export_tcmalloc_stats,
  export_storage_engine_stats,
}

pub export_flush_stats-IsFit : {F : Type 0} (s : FlushStats F) → IsFit (export_flush_stats s)
unfolding export_flush_stats
export_flush_stats-IsFit s = refl

pub export_dur_timing-IsFit : {F : Type 0} (s : DurTiming F) → IsFit (export_dur_timing s)
unfolding export_dur_timing
export_dur_timing-IsFit s = refl

pub collect_dur_stats-IsFit : (F : Type 0) → IsFit (collect_dur_stats {F = F})
unfolding collect_dur_stats
collect_dur_stats-IsFit F = refl

pub export_dur_stats-IsFit : {F : Type 0} (s : DurStats F) → IsFit (export_dur_stats s)
unfolding export_dur_stats
export_dur_stats-IsFit s =
    sequence-IsFit _ (refl & export_dur_timing-IsFit s.time_ms & collect_dur_stats-IsFit _ & tt)

pub export_client_stats-IsFit : {F : Type 0} (s : ClientStats F) → IsFit (export_client_stats s)
unfolding export_client_stats
export_client_stats-IsFit s = refl

pub export_queue_stats-IsFit : {F : Type 0} (s : QueueStats F) → IsFit (export_queue_stats s)
unfolding export_queue_stats
export_queue_stats-IsFit s = refl

pub export_global_lock_stats-IsFit :
    {F : Type 0} (s : GlobalLockStats F) → IsFit (export_global_lock_stats s)
unfolding export_global_lock_stats
export_global_lock_stats-IsFit s = sequence-IsFit _ (
    refl
    & deref-IsFit s.current_queue _ export_queue_stats-IsFit
    & deref-IsFit s.active_clients _ export_client_stats-IsFit
    & refl
    & tt)

pub export_tcmalloc_stats-IsFit :
    {F : Type 0} (s : TcMallocStats F) → IsFit (export_tcmalloc_stats s)
unfolding export_tcmalloc_stats
export_tcmalloc_stats-IsFit s = refl

pub export_storage_engine_stats-IsFit :
    (F : Type 0) (s : StorageEngineStats) → IsFit (export_storage_engine_stats {F = F} s)
unfolding export_storage_engine_stats
export_storage_engine_stats-IsFit F s = refl
