-- ===== src/Mongodb/Metrics/Gauges.antt =====
-- The gauges of collector/mongodb/metrics.go.
use exporter_plus.Prelude.{[], ◌∷◌}
use exporter_plus.Mongodb.Calls.{Vec, gauge_vec, counter_vec}

abbrev pub metrics_cursor_timed_out_total : Vec
metrics_cursor_timed_out_total =
    gauge_vec "metrics_cursor" "timed_out_total"
      "timedOut provides the total number of cursors that have timed out since the server process started. If this number is large or growing at a regular rate, this may indicate an application error"
      []

abbrev pub metrics_cursor_open : Vec
metrics_cursor_open =
    gauge_vec "" "metrics_cursor_open"
      "The open is an embedded document that contains data regarding open cursors" ("state" ∷ [])

abbrev pub metrics_document_total : Vec
metrics_document_total =
    gauge_vec "" "metrics_document_total"
      "The document holds a document of that reflect document access and modification patterns and data use. Compare these values to the data in the opcounters document, which track total number of operations"
      ("state" ∷ [])

abbrev pub metrics_get_last_error_wtime_num_total : Vec
metrics_get_last_error_wtime_num_total =
    gauge_vec "metrics_get_last_error_wtime" "num_total"
      "num reports the total number of getLastError operations with a specified write concern (i.e. w) that wait for one or more members of a replica set to acknowledge the write operation (i.e. a w value greater than 1.)"
      []

abbrev pub metrics_get_last_error_wtime_total_milliseconds : Vec
metrics_get_last_error_wtime_total_milliseconds =
    gauge_vec "metrics_get_last_error_wtime" "total_milliseconds"
      "total_millis reports the total amount of time in milliseconds that the mongod has spent performing getLastError operations with write concern (i.e. w) that wait for one or more members of a replica set to acknowledge the write operation (i.e. a w value greater than 1.)"
      []

abbrev pub metrics_get_last_error_wtimeouts_total : Vec
metrics_get_last_error_wtimeouts_total =
    gauge_vec "metrics_get_last_error" "wtimeouts_total"
      "wtimeouts reports the number of times that write concern operations have timed out as a result of the wtimeout threshold to getLastError."
      []

abbrev pub metrics_operation_total : Vec
metrics_operation_total =
    gauge_vec "" "metrics_operation_total"
      "operation is a sub-document that holds counters for several types of update and query operations that MongoDB handles using special operation types"
      ("type" ∷ [])

abbrev pub metrics_query_executor_total : Vec
metrics_query_executor_total =
    gauge_vec "" "metrics_query_executor_total"
      "queryExecutor is a document that reports data from the query execution system" ("state" ∷ [])

abbrev pub metrics_record_moves_total : Vec
metrics_record_moves_total =
    gauge_vec "metrics_record" "moves_total"
      "moves reports the total number of times documents move within the on-disk representation of the MongoDB data set. Documents move as a result of operations that increase the size of the document beyond their allocated record size"
      []

abbrev pub metrics_repl_apply_batches_num_total : Vec
metrics_repl_apply_batches_num_total =
    gauge_vec "metrics_repl_apply_batches" "num_total"
      "num reports the total number of batches applied across all databases" []

abbrev pub metrics_repl_apply_batches_total_milliseconds : Vec
metrics_repl_apply_batches_total_milliseconds =
    gauge_vec "metrics_repl_apply_batches" "total_milliseconds"
      "total_millis reports the total amount of time the mongod has spent applying operations from the oplog"
      []

abbrev pub metrics_repl_apply_ops_total : Vec
metrics_repl_apply_ops_total =
    gauge_vec "metrics_repl_apply" "ops_total"
      "ops reports the total number of oplog operations applied" []

abbrev pub metrics_repl_buffer_count : Vec
metrics_repl_buffer_count =
    gauge_vec "metrics_repl_buffer" "count"
      "count reports the current number of operations in the oplog buffer" []

abbrev pub metrics_repl_buffer_max_size_bytes : Vec
metrics_repl_buffer_max_size_bytes =
    gauge_vec "metrics_repl_buffer" "max_size_bytes"
      "maxSizeBytes reports the maximum size of the buffer. This value is a constant setting in the mongod, and is not configurable"
      []

abbrev pub metrics_repl_buffer_size_bytes : Vec
metrics_repl_buffer_size_bytes =
    gauge_vec "metrics_repl_buffer" "size_bytes"
      "sizeBytes reports the current size of the contents of the oplog buffer" []

abbrev pub metrics_repl_network_getmores_num_total : Vec
metrics_repl_network_getmores_num_total =
    gauge_vec "metrics_repl_network_getmores" "num_total"
      "num reports the total number of getmore operations, which are operations that request an additional set of operations from the replication sync source."
      []

abbrev pub metrics_repl_network_getmores_total_milliseconds : Vec
metrics_repl_network_getmores_total_milliseconds =
    gauge_vec "metrics_repl_network_getmores" "total_milliseconds"
      "total_millis reports the total amount of time required to collect data from getmore operations"
      []

abbrev pub metrics_repl_network_bytes_total : Vec
metrics_repl_network_bytes_total =
    gauge_vec "metrics_repl_network" "bytes_total"
      "bytes reports the total amount of data read from the replication sync source" []

abbrev pub metrics_repl_network_ops_total : Vec
metrics_repl_network_ops_total =
    gauge_vec "metrics_repl_network" "ops_total"
      "ops reports the total number of operations read from the replication source." []

abbrev pub metrics_repl_network_readers_created_total : Vec
metrics_repl_network_readers_created_total =
    gauge_vec "metrics_repl_network" "readers_created_total"
      "readersCreated reports the total number of oplog query processes created. MongoDB will create a new oplog query any time an error occurs in the connection, including a timeout, or a network operation. Furthermore, readersCreated will increment every time MongoDB selects a new source fore replication."
      []

abbrev pub metrics_repl_oplog_insert_num_total : Vec
metrics_repl_oplog_insert_num_total =
    counter_vec "metrics_repl_oplog_insert" "num_total"
      "num reports the total number of items inserted into the oplog." []

abbrev pub metrics_repl_oplog_insert_total_milliseconds : Vec
metrics_repl_oplog_insert_total_milliseconds =
    counter_vec "metrics_repl_oplog_insert" "total_milliseconds"
      "total_millis reports the total amount of time spent for the mongod to insert data into the oplog."
      []

abbrev pub metrics_repl_oplog_insert_bytes_total : Vec
metrics_repl_oplog_insert_bytes_total =
    counter_vec "metrics_repl_oplog" "insert_bytes_total"
      "insertBytes the total size of documents inserted into the oplog." []

abbrev pub metrics_repl_preload_docs_num_total : Vec
metrics_repl_preload_docs_num_total =
    gauge_vec "metrics_repl_preload_docs" "num_total"
      "num reports the total number of documents loaded during the pre-fetch stage of replication"
      []

abbrev pub metrics_repl_preload_docs_total_milliseconds : Vec
metrics_repl_preload_docs_total_milliseconds =
    gauge_vec "metrics_repl_preload_docs" "total_milliseconds"
      "total_millis reports the total amount of time spent loading documents as part of the pre-fetch stage of replication"
      []

abbrev pub metrics_repl_preload_indexes_num_total : Vec
metrics_repl_preload_indexes_num_total =
    gauge_vec "metrics_repl_preload_indexes" "num_total"
      "num reports the total number of index entries loaded by members before updating documents as part of the pre-fetch stage of replication"
      []

abbrev pub metrics_repl_preload_indexes_total_milliseconds : Vec
metrics_repl_preload_indexes_total_milliseconds =
    gauge_vec "metrics_repl_preload_indexes" "total_milliseconds"
      "total_millis reports the total amount of time spent loading index entries as part of the pre-fetch stage of replication"
      []

abbrev pub metrics_storage_freelist_search_total : Vec
metrics_storage_freelist_search_total =
    gauge_vec "" "metrics_storage_freelist_search_total"
      "metrics about searching records in the database." ("type" ∷ [])

abbrev pub metrics_ttl_deleted_documents_total : Vec
metrics_ttl_deleted_documents_total =
    gauge_vec "metrics_ttl" "deleted_documents_total"
      "deletedDocuments reports the total number of documents deleted from collections with a ttl index."
      []

abbrev pub metrics_ttl_passes_total : Vec
metrics_ttl_passes_total =
    gauge_vec "metrics_ttl" "passes_total"
      "passes reports the number of times the background process removes documents from collections with a ttl index"
      []
