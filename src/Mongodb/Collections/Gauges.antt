-- ===== src/Mongodb/Collections/Gauges.antt =====
-- The gauges of collector/mongodb/collection_status.go and collection_wiredtiger.go.
use exporter_plus.Prelude.{[], ◌∷◌}
use exporter_plus.Mongodb.Calls.{Vec, gauge_vec}

abbrev pub coll_wt_block_manager_blocks_total : Vec
coll_wt_block_manager_blocks_total =
    gauge_vec "collection_wiredtiger_blockmanager" "blocks_total"
      "The total number of blocks allocated by the WiredTiger BlockManager" ("ns" ∷ "type" ∷ [])

abbrev pub coll_wt_cache_pages : Vec
coll_wt_cache_pages =
    gauge_vec "collection_wiredtiger_cache" "pages"
      "The current number of pages in the WiredTiger Cache" ("ns" ∷ "type" ∷ [])

abbrev pub coll_wt_cache_pages_total : Vec
coll_wt_cache_pages_total =
    gauge_vec "collection_wiredtiger_cache" "pages_total"
      "The total number of pages read into/from the WiredTiger Cache" ("ns" ∷ "type" ∷ [])

abbrev pub coll_wt_cache_bytes : Vec
coll_wt_cache_bytes =
    gauge_vec "collection_wiredtiger_cache" "bytes"
      "The current size of data in the WiredTiger Cache in bytes" ("ns" ∷ "type" ∷ [])

abbrev pub coll_wt_cache_bytes_total : Vec
coll_wt_cache_bytes_total =
    gauge_vec "collection_wiredtiger_cache" "bytes_total"
      "The total number of bytes read into/from the WiredTiger Cache" ("ns" ∷ "type" ∷ [])

abbrev pub coll_wt_cache_evicted_total : Vec
coll_wt_cache_evicted_total =
    gauge_vec "collection_wiredtiger_cache" "evicted_total"
      "The total number of pages evicted from the WiredTiger Cache" ("ns" ∷ "type" ∷ [])

abbrev pub coll_wt_transactions_update_conflicts : Vec
coll_wt_transactions_update_conflicts =
    gauge_vec "collection_wiredtiger_transactions" "update_conflicts"
      "The number of conflicts updating transactions" ("ns" ∷ [])

abbrev pub coll_wt_open_cursors : Vec
coll_wt_open_cursors =
    gauge_vec "collection_wiredtiger_session" "open_cursors_total"
      "The total number of cursors opened in WiredTiger" ("ns" ∷ [])

abbrev pub count : Vec
count =
    gauge_vec "collection" "total_objects" "The number of objects or documents in this collection"
      ("ns" ∷ [])

abbrev pub size : Vec
size =
    gauge_vec "collection" "size_bytes" "The total size in memory of all records in a collection"
      ("ns" ∷ [])

abbrev pub avg_obj_size : Vec
avg_obj_size =
    gauge_vec "collection" "avg_objsize_bytes" "The average size of an object in the collection"
      ("ns" ∷ [])

abbrev pub storage_size : Vec
storage_size =
    gauge_vec "collection" "storage_size_bytes"
      "The total amount of storage allocated to this collection for document storage" ("ns" ∷ [])

abbrev pub coll_index_size : Vec
coll_index_size =
    gauge_vec "collection" "index_size_bytes" "The total size of all indexes" ("ns" ∷ [])
