-- ===== src/Mongodb/WiredTiger/Fits.antt =====
-- The label values of WiredTiger: each export has as many as the labels.
use exporter_plus.Prelude.{refl, ◌&◌}
use exporter_plus.Mongodb.Calls.Fits.{IsFit, sequence-IsFit, when-IsFit, deref-IsFit}
use exporter_plus.Mongodb.WiredTiger.{
  WtBlockManagerStats, WtCacheStats, WtLogStats, WtSessionStats, WtTransactionStats,
  WtConcurrentTransactionsStats, WiredTigerStats, export_wt_block_manager_stats,
  export_wt_cache_stats, export_wt_log_stats, export_wt_session_stats, export_wt_transaction_stats,
  export_wt_concurrent_transactions_stats, export_wired_tiger_stats,
}

pub export_wt_block_manager_stats-IsFit :
    {F : Type 0} (s : WtBlockManagerStats F) → IsFit (export_wt_block_manager_stats s)
unfolding export_wt_block_manager_stats
export_wt_block_manager_stats-IsFit s = refl

pub export_wt_cache_stats-IsFit :
    {F : Type 0} (s : WtCacheStats F) → IsFit (export_wt_cache_stats s)
unfolding export_wt_cache_stats
export_wt_cache_stats-IsFit s = refl

pub export_wt_log_stats-IsFit : {F : Type 0} (s : WtLogStats F) → IsFit (export_wt_log_stats s)
unfolding export_wt_log_stats
export_wt_log_stats-IsFit s = refl

pub export_wt_session_stats-IsFit :
    {F : Type 0} (s : WtSessionStats F) → IsFit (export_wt_session_stats s)
unfolding export_wt_session_stats
export_wt_session_stats-IsFit s = refl

pub export_wt_transaction_stats-IsFit :
    {F : Type 0} (s : WtTransactionStats F) → IsFit (export_wt_transaction_stats s)
unfolding export_wt_transaction_stats
export_wt_transaction_stats-IsFit s = refl

pub export_wt_concurrent_transactions_stats-IsFit :
    {F : Type 0} (s : WtConcurrentTransactionsStats F)
    → IsFit (export_wt_concurrent_transactions_stats s)
unfolding export_wt_concurrent_transactions_stats
export_wt_concurrent_transactions_stats-IsFit s =
    deref-IsFit s.read _ (λ _. sequence-IsFit _ (refl & deref-IsFit s.write _ (λ _. refl) & tt))

pub export_wired_tiger_stats-IsFit :
    {F : Type 0} (s : WiredTigerStats F) → IsFit (export_wired_tiger_stats s)
unfolding export_wired_tiger_stats
export_wired_tiger_stats-IsFit s = sequence-IsFit _ (
    when-IsFit s.block_manager _ export_wt_block_manager_stats-IsFit
    & when-IsFit s.cache _ export_wt_cache_stats-IsFit
    & when-IsFit s.transaction _ export_wt_transaction_stats-IsFit
    & when-IsFit s.log _ export_wt_log_stats-IsFit
    & when-IsFit s.session _ export_wt_session_stats-IsFit
    & when-IsFit s.concurrent_transactions _ export_wt_concurrent_transactions_stats-IsFit
    & refl
    & tt)
