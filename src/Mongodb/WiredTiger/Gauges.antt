-- ===== src/Mongodb/WiredTiger/Gauges.antt =====
-- The gauges of collector/mongodb/wiredtiger.go.
use exporter_plus.Prelude.{[], ◌∷◌}
use exporter_plus.Mongodb.Calls.{Vec, gauge_vec}

abbrev pub wt_block_manager_blocks_total : Vec
wt_block_manager_blocks_total =
    gauge_vec "wiredtiger_blockmanager" "blocks_total"
      "The total number of blocks read by the WiredTiger BlockManager" ("type" ∷ [])

abbrev pub wt_block_manager_bytes_total : Vec
wt_block_manager_bytes_total =
    gauge_vec "wiredtiger_blockmanager" "bytes_total"
      "The total number of bytes read by the WiredTiger BlockManager" ("type" ∷ [])

abbrev pub wt_cache_pages : Vec
wt_cache_pages =
    gauge_vec "wiredtiger_cache" "pages" "The current number of pages in the WiredTiger Cache"
      ("type" ∷ [])

abbrev pub wt_cache_pages_total : Vec
wt_cache_pages_total =
    gauge_vec "wiredtiger_cache" "pages_total"
      "The total number of pages read into/from the WiredTiger Cache" ("type" ∷ [])

abbrev pub wt_cache_bytes : Vec
wt_cache_bytes =
    gauge_vec "wiredtiger_cache" "bytes" "The current size of data in the WiredTiger Cache in bytes"
      ("type" ∷ [])

abbrev pub wt_cache_max_bytes : Vec
wt_cache_max_bytes =
    gauge_vec "wiredtiger_cache" "max_bytes"
      "The maximum size of data in the WiredTiger Cache in bytes" []

abbrev pub wt_cache_bytes_total : Vec
wt_cache_bytes_total =
    gauge_vec "wiredtiger_cache" "bytes_total"
      "The total number of bytes read into/from the WiredTiger Cache" ("type" ∷ [])

abbrev pub wt_cache_evicted_total : Vec
wt_cache_evicted_total =
    gauge_vec "wiredtiger_cache" "evicted_total"
      "The total number of pages evicted from the WiredTiger Cache" ("type" ∷ [])

abbrev pub wt_cache_percent_overhead : Vec
wt_cache_percent_overhead =
    gauge_vec "wiredtiger_cache" "overhead_percent"
      "The percentage overhead of the WiredTiger Cache" []

abbrev pub wt_transactions_total : Vec
wt_transactions_total =
    gauge_vec "wiredtiger_transactions" "total"
      "The total number of transactions WiredTiger has handled" ("type" ∷ [])

abbrev pub wt_transactions_total_checkpoint_ms : Vec
wt_transactions_total_checkpoint_ms =
    gauge_vec "wiredtiger_transactions" "checkpoint_milliseconds_total"
      "The total time in milliseconds transactions have checkpointed in WiredTiger" []

abbrev pub wt_transactions_checkpoint_ms : Vec
wt_transactions_checkpoint_ms =
    gauge_vec "wiredtiger_transactions" "checkpoint_milliseconds"
      "The time in milliseconds transactions have checkpointed in WiredTiger" ("type" ∷ [])

abbrev pub wt_transactions_checkpoints_running : Vec
wt_transactions_checkpoints_running =
    gauge_vec "wiredtiger_transactions" "running_checkpoints"
      "The number of currently running checkpoints in WiredTiger" []

abbrev pub wt_log_records_scanned_total : Vec
wt_log_records_scanned_total =
    gauge_vec "wiredtiger_log" "records_scanned_total"
      "The total number of records scanned by log scan in the WiredTiger log" []

abbrev pub wt_log_records_total : Vec
wt_log_records_total =
    gauge_vec "wiredtiger_log" "records_total"
      "The total number of compressed/uncompressed records written to the WiredTiger log"
      ("type" ∷ [])

abbrev pub wt_log_bytes_total : Vec
wt_log_bytes_total =
    gauge_vec "wiredtiger_log" "bytes_total"
      "The total number of bytes written to the WiredTiger log" ("type" ∷ [])

abbrev pub wt_log_operations_total : Vec
wt_log_operations_total =
    gauge_vec "wiredtiger_log" "operations_total" "The total number of WiredTiger log operations"
      ("type" ∷ [])

abbrev pub wt_open_cursors : Vec
wt_open_cursors =
    gauge_vec "wiredtiger_session" "open_cursors_total"
      "The total number of cursors opened in WiredTiger" []

abbrev pub wt_open_sessions : Vec
wt_open_sessions =
    gauge_vec "wiredtiger_session" "open_sessions_total"
      "The total number of sessions opened in WiredTiger" []

abbrev pub wt_concurrent_transactions_out : Vec
wt_concurrent_transactions_out =
    gauge_vec "wiredtiger_concurrent_transactions" "out_tickets"
      "The number of tickets that are currently in use (out) in WiredTiger" ("type" ∷ [])

abbrev pub wt_concurrent_transactions_available : Vec
wt_concurrent_transactions_available =
    gauge_vec "wiredtiger_concurrent_transactions" "available_tickets"
      "The number of tickets that are available in WiredTiger" ("type" ∷ [])

abbrev pub wt_concurrent_transactions_total_tickets : Vec
wt_concurrent_transactions_total_tickets =
    gauge_vec "wiredtiger_concurrent_transactions" "total_tickets"
      "The total number of tickets that are available in WiredTiger" ("type" ∷ [])
