-- ===== src/Mongodb/Collections/Fits.antt =====
-- The label values of Collections: each export has as many as the labels.
use exporter_plus.Prelude.{String, refl, ◌&◌}
use exporter_plus.Mongodb.Calls.Fits.{IsFit, sequence-IsFit, when-IsFit}
use exporter_plus.Mongodb.Collections.{
  CollWtBlockManagerStats, CollWtCacheStats, CollWtSessionStats, CollWtTransactionStats,
  CollWiredTigerStats, CollectionStatus, export_coll_wt_block_manager_stats,
  export_coll_wt_cache_stats, export_coll_wt_session_stats, export_coll_wt_transaction_stats,
  export_coll_wired_tiger_stats, export_collection_status,
}

pub export_coll_wt_block_manager_stats-IsFit :
    {F : Type 0} (s : CollWtBlockManagerStats F) (collection : String)
    → IsFit (export_coll_wt_block_manager_stats s collection)
unfolding export_coll_wt_block_manager_stats
export_coll_wt_block_manager_stats-IsFit s collection = refl

pub export_coll_wt_cache_stats-IsFit :
    {F : Type 0} (s : CollWtCacheStats F) (collection : String)
    → IsFit (export_coll_wt_cache_stats s collection)
unfolding export_coll_wt_cache_stats
export_coll_wt_cache_stats-IsFit s collection = refl

pub export_coll_wt_session_stats-IsFit :
    {F : Type 0} (s : CollWtSessionStats F) (collection : String)
    → IsFit (export_coll_wt_session_stats s collection)
unfolding export_coll_wt_session_stats
export_coll_wt_session_stats-IsFit s collection = refl

pub export_coll_wt_transaction_stats-IsFit :
    {F : Type 0} (s : CollWtTransactionStats F) (collection : String)
    → IsFit (export_coll_wt_transaction_stats s collection)
unfolding export_coll_wt_transaction_stats
export_coll_wt_transaction_stats-IsFit s collection = refl

pub export_coll_wired_tiger_stats-IsFit :
    {F : Type 0} (s : CollWiredTigerStats F) (collection : String)
    → IsFit (export_coll_wired_tiger_stats s collection)
unfolding export_coll_wired_tiger_stats
export_coll_wired_tiger_stats-IsFit s collection = sequence-IsFit _ (
    when-IsFit s.block_manager _
      (λ stats. export_coll_wt_block_manager_stats-IsFit stats collection)
    & when-IsFit s.cache _ (λ stats. export_coll_wt_cache_stats-IsFit stats collection)
    & when-IsFit s.transaction _ (λ stats. export_coll_wt_transaction_stats-IsFit stats collection)
    & when-IsFit s.session _ (λ stats. export_coll_wt_session_stats-IsFit stats collection)
    & refl
    & tt)

pub export_collection_status-IsFit :
    {F : Type 0} (s : CollectionStatus F) → IsFit (export_collection_status s)
unfolding export_collection_status
export_collection_status-IsFit s = sequence-IsFit _ (
    refl
    & when-IsFit s.wired_tiger _ (λ stats. export_coll_wired_tiger_stats-IsFit stats s.name)
    & refl
    & tt)
