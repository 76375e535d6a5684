-- ===== src/Mongodb/Collections.antt =====
-- collector/mongodb/collection_status.go and collection_wiredtiger.go: the statistics of a collection.
pub mod Gauges
pub mod Fits
use exporter_plus.Prelude.{String, Bool, Option, List, [], ◌∷◌, ◌++◌}
use exporter_plus.Prelude.Int.{ℤ, pos}
use exporter_plus.Mongodb.Calls.{ok}
use exporter_plus.Mongodb.Calls.{
  Vec, gauge_vec, counter_vec, summary_vec, Value, val, int, Call, set, observe, collect, reset,
  Trace, sequence, when, deref, described, concat,
}
use exporter_plus.Mongodb.Collections.Gauges.{
  coll_wt_block_manager_blocks_total, coll_wt_cache_pages, coll_wt_cache_pages_total,
  coll_wt_cache_bytes, coll_wt_cache_bytes_total, coll_wt_cache_evicted_total,
  coll_wt_transactions_update_conflicts, coll_wt_open_cursors, count, size, avg_obj_size,
  storage_size, coll_index_size,
}

-- CollWTBlockManagerStats
pub record CollWtBlockManagerStats (F : Type 0) : Type 0 where
  pub blocks_freed : F
  pub blocks_allocated : F

unfoldable pub export_coll_wt_block_manager_stats :
    {F : Type 0} → CollWtBlockManagerStats F → String → Trace F
export_coll_wt_block_manager_stats s collection = ok (
    set coll_wt_block_manager_blocks_total (collection ∷ "freed" ∷ []) (val s.blocks_freed)
    ∷ set coll_wt_block_manager_blocks_total (collection ∷ "allocated" ∷ [])
        (val s.blocks_allocated)
    ∷ [])

unfoldable pub describe_coll_wt_block_manager_stats :
    {F : Type 0} → CollWtBlockManagerStats F → List Vec
describe_coll_wt_block_manager_stats s = coll_wt_block_manager_blocks_total ∷ []

-- CollWTCacheStats
pub record CollWtCacheStats (F : Type 0) : Type 0 where
  pub bytes_total : F
  pub bytes_dirty : F
  pub bytes_read_into : F
  pub bytes_written_from : F
  pub evicted_unmodified : F
  pub evicted_modified : F
  pub pages_read_into : F
  pub pages_written_from : F

unfoldable pub export_coll_wt_cache_stats : {F : Type 0} → CollWtCacheStats F → String → Trace F
export_coll_wt_cache_stats s collection = ok (
    set coll_wt_cache_pages_total (collection ∷ "read" ∷ []) (val s.pages_read_into)
    ∷ set coll_wt_cache_pages_total (collection ∷ "written" ∷ []) (val s.pages_written_from)
    ∷ set coll_wt_cache_bytes_total (collection ∷ "read" ∷ []) (val s.bytes_read_into)
    ∷ set coll_wt_cache_bytes_total (collection ∷ "written" ∷ []) (val s.bytes_written_from)
    ∷ set coll_wt_cache_evicted_total (collection ∷ "modified" ∷ []) (val s.evicted_modified)
    ∷ set coll_wt_cache_evicted_total (collection ∷ "unmodified" ∷ []) (val s.evicted_unmodified)
    ∷ set coll_wt_cache_bytes (collection ∷ "total" ∷ []) (val s.bytes_total)
    ∷ set coll_wt_cache_bytes (collection ∷ "dirty" ∷ []) (val s.bytes_dirty)
    ∷ [])

unfoldable pub describe_coll_wt_cache_stats : {F : Type 0} → CollWtCacheStats F → List Vec
describe_coll_wt_cache_stats s =
    coll_wt_cache_pages_total ∷ coll_wt_cache_evicted_total ∷ coll_wt_cache_pages
    ∷ coll_wt_cache_bytes ∷ []

-- CollWTSessionStats
pub record CollWtSessionStats (F : Type 0) : Type 0 where
  pub cursors : F

unfoldable pub export_coll_wt_session_stats : {F : Type 0} → CollWtSessionStats F → String → Trace F
export_coll_wt_session_stats s collection =
    ok (set coll_wt_open_cursors (collection ∷ []) (val s.cursors) ∷ [])

unfoldable pub describe_coll_wt_session_stats : {F : Type 0} → CollWtSessionStats F → List Vec
describe_coll_wt_session_stats s = coll_wt_open_cursors ∷ []

-- CollWTTransactionStats
pub record CollWtTransactionStats (F : Type 0) : Type 0 where
  pub update_conflicts : F

unfoldable pub export_coll_wt_transaction_stats :
    {F : Type 0} → CollWtTransactionStats F → String → Trace F
export_coll_wt_transaction_stats s collection =
    ok (set coll_wt_transactions_update_conflicts (collection ∷ []) (val s.update_conflicts) ∷ [])

unfoldable pub describe_coll_wt_transaction_stats :
    {F : Type 0} → CollWtTransactionStats F → List Vec
describe_coll_wt_transaction_stats s = coll_wt_transactions_update_conflicts ∷ []

-- CollWiredTigerStats
pub record CollWiredTigerStats (F : Type 0) : Type 0 where
  pub block_manager : Option (CollWtBlockManagerStats F)
  pub cache : Option (CollWtCacheStats F)
  pub session : Option (CollWtSessionStats F)
  pub transaction : Option (CollWtTransactionStats F)

unfoldable pub describe_coll_wired_tiger_stats : {F : Type 0} → CollWiredTigerStats F → List Vec
describe_coll_wired_tiger_stats s = concat (
    described s.block_manager describe_coll_wt_block_manager_stats
    ∷ described s.cache describe_coll_wt_cache_stats
    ∷ described s.transaction describe_coll_wt_transaction_stats
    ∷ described s.session describe_coll_wt_session_stats
    ∷ [])

unfoldable pub export_coll_wired_tiger_stats :
    {F : Type 0} → CollWiredTigerStats F → String → Trace F
export_coll_wired_tiger_stats s collection = sequence (
    (when s.block_manager (λ stats. export_coll_wt_block_manager_stats stats collection))
    ∷ (when s.cache (λ stats. export_coll_wt_cache_stats stats collection))
    ∷ (when s.transaction (λ stats. export_coll_wt_transaction_stats stats collection))
    ∷ (when s.session (λ stats. export_coll_wt_session_stats stats collection))
    ∷ (ok (
        collect coll_wt_block_manager_blocks_total
        ∷ collect coll_wt_cache_pages_total
        ∷ collect coll_wt_cache_bytes_total
        ∷ collect coll_wt_cache_evicted_total
        ∷ collect coll_wt_cache_pages
        ∷ collect coll_wt_cache_bytes
        ∷ collect coll_wt_transactions_update_conflicts
        ∷ collect coll_wt_open_cursors
        ∷ reset coll_wt_block_manager_blocks_total
        ∷ reset coll_wt_cache_pages_total
        ∷ reset coll_wt_cache_bytes_total
        ∷ reset coll_wt_cache_evicted_total
        ∷ reset coll_wt_cache_pages
        ∷ reset coll_wt_cache_bytes
        ∷ reset coll_wt_transactions_update_conflicts
        ∷ reset coll_wt_open_cursors
        ∷ []))
    ∷ [])

-- CollectionStatus
pub record CollectionStatus (F : Type 0) : Type 0 where
  pub name : String
  pub count : ℤ
  pub size : ℤ
  pub avg_size : ℤ
  pub storage_size : ℤ
  pub index_size : ℤ
  pub wired_tiger : Option (CollWiredTigerStats F)

unfoldable pub export_collection_status : {F : Type 0} → CollectionStatus F → Trace F
export_collection_status s = sequence (
    (ok (
      set count (s.name ∷ []) (int s.count)
      ∷ set size (s.name ∷ []) (int s.size)
      ∷ set avg_obj_size (s.name ∷ []) (int s.avg_size)
      ∷ set storage_size (s.name ∷ []) (int s.storage_size)
      ∷ set coll_index_size (s.name ∷ []) (int s.index_size)
      ∷ []))
    ∷ (when s.wired_tiger (λ stats. export_coll_wired_tiger_stats stats s.name))
    ∷ (ok (
        collect count
        ∷ collect size
        ∷ collect avg_obj_size
        ∷ collect storage_size
        ∷ collect coll_index_size
        ∷ reset count
        ∷ reset size
        ∷ reset avg_obj_size
        ∷ reset storage_size
        ∷ reset coll_index_size
        ∷ []))
    ∷ [])

unfoldable pub describe_collection_status : {F : Type 0} → CollectionStatus F → List Vec
describe_collection_status s = concat (
    (count ∷ size ∷ avg_obj_size ∷ storage_size ∷ coll_index_size ∷ [])
    ∷ described s.wired_tiger describe_coll_wired_tiger_stats
    ∷ [])
