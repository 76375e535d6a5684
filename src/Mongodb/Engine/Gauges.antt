-- ===== src/Mongodb/Engine/Gauges.antt =====
-- The gauges of the storage engine and the memory allocator.
use exporter_plus.Prelude.{[], ◌∷◌}
use exporter_plus.Mongodb.Calls.{Vec, gauge_vec, summary_vec}

abbrev pub background_flushingflushes_total : Vec
background_flushingflushes_total =
    gauge_vec "background_flushing" "flushes_total"
      "flushes is a counter that collects the number of times the database has flushed all writes to disk. This value will grow as database runs for longer periods of time"
      []

abbrev pub background_flushingtotal_milliseconds : Vec
background_flushingtotal_milliseconds =
    gauge_vec "background_flushing" "total_milliseconds"
      "The total_ms value provides the total number of milliseconds (ms) that the mongod processes have spent writing (i.e. flushing) data to disk. Because this is an absolute value, consider the value offlushes and average_ms to provide better context for this datum"
      []

abbrev pub background_flushingaverage_milliseconds : Vec
background_flushingaverage_milliseconds =
    gauge_vec "background_flushing" "average_milliseconds"
      "The average_ms value describes the relationship between the number of flushes and the total amount of time that the database has spent writing data to disk. The larger flushes is, the more likely this value is likely to represent a \"normal,\" time; however, abnormal data can skew this value"
      []

abbrev pub background_flushinglast_milliseconds : Vec
background_flushinglast_milliseconds =
    gauge_vec "background_flushing" "last_milliseconds"
      "The value of the last_ms field is the amount of time, in milliseconds, that the last flush operation took to complete. Use this value to verify that the current performance of the server and is in line with the historical data provided by average_ms and total_ms"
      []

abbrev pub background_flushinglast_finished_time : Vec
background_flushinglast_finished_time =
    gauge_vec "background_flushing" "last_finished_time"
      "The last_finished field provides a timestamp of the last completed flush operation in the ISODateformat. If this value is more than a few minutes old relative to your server's current time and accounting for differences in time zone, restarting the database may result in some data loss"
      []

abbrev pub durability_commits : Vec
durability_commits = gauge_vec "" "durability_commits" "Durability commits" ("state" ∷ [])

abbrev pub durability_journaled_megabytes : Vec
durability_journaled_megabytes =
    gauge_vec "durability" "journaled_megabytes"
      "The journaledMB provides the amount of data in megabytes (MB) written to journal during the last journal group commit interval"
      []

abbrev pub durability_write_to_data_files_megabytes : Vec
durability_write_to_data_files_megabytes =
    gauge_vec "durability" "write_to_data_files_megabytes"
      "The writeToDataFilesMB provides the amount of data in megabytes (MB) written from journal to the data files during the last journal group commit interval"
      []

abbrev pub durability_compression : Vec
durability_compression =
    gauge_vec "durability" "compression"
      "The compression represents the compression ratio of the data written to the journal: ( journaled_size_of_data / uncompressed_size_of_data )"
      []

abbrev pub durability_early_commits : Vec
durability_early_commits =
    summary_vec "durability" "early_commits"
      "The earlyCommits value reflects the number of times MongoDB requested a commit before the scheduled journal group commit interval. Use this value to ensure that your journal group commit interval is not too long for your deployment"
      []

abbrev pub durability_time_milliseconds : Vec
durability_time_milliseconds =
    summary_vec "" "durability_time_milliseconds"
      "Summary of times spent during the journaling process." ("stage" ∷ [])

abbrev pub global_lock_ratio : Vec
global_lock_ratio =
    gauge_vec "global_lock" "ratio"
      "The value of ratio displays the relationship between lockTime and totalTime. Low values indicate that operations have held the globalLock frequently for shorter periods of time. High values indicate that operations have held globalLock infrequently for longer periods of time"
      []

abbrev pub global_lock_total : Vec
global_lock_total =
    gauge_vec "global_lock" "total"
      "The value of totalTime represents the time, in microseconds, since the database last started and creation of the globalLock. This is roughly equivalent to total server uptime"
      []

abbrev pub global_lock_lock_total : Vec
global_lock_lock_total =
    gauge_vec "global_lock" "lock_total"
      "The value of lockTime represents the time, in microseconds, since the database last started, that the globalLock has been held"
      []

abbrev pub global_lock_current_queue : Vec
global_lock_current_queue =
    gauge_vec "" "global_lock_current_queue"
      "The currentQueue data structure value provides more granular information concerning the number of operations queued because of a lock"
      ("type" ∷ [])

abbrev pub global_lock_client : Vec
global_lock_client =
    gauge_vec "" "global_lock_client"
      "The activeClients data structure provides more granular information about the number of connected clients and the operation types (e.g. read or write) performed by these clients"
      ("type" ∷ [])

abbrev pub tcmalloc_general : Vec
tcmalloc_general =
    gauge_vec "" "tcmalloc_generic_heap" "High-level summary metricsInternal metrics from tcmalloc"
      ("type" ∷ [])

abbrev pub tcmalloc_pageheap_bytes : Vec
tcmalloc_pageheap_bytes =
    gauge_vec "" "tcmalloc_pageheap_bytes" "Sizes for tcpmalloc pageheaps" ("type" ∷ [])

abbrev pub tcmalloc_pageheap_counts : Vec
tcmalloc_pageheap_counts =
    gauge_vec "" "tcmalloc_pageheap_count" "Sizes for tcpmalloc pageheaps" ("type" ∷ [])

abbrev pub tcmalloc_cache_bytes : Vec
tcmalloc_cache_bytes =
    gauge_vec "" "tcmalloc_cache_bytes" "Sizes for tcpmalloc caches in bytes"
      ("cache" ∷ "type" ∷ [])

abbrev pub tcmalloc_aggressive_decommit : Vec
tcmalloc_aggressive_decommit =
    gauge_vec "" "tcmalloc_aggressive_memory_decommit" "Whether aggressive_memory_decommit is on" []

abbrev pub tcmalloc_free_bytes : Vec
tcmalloc_free_bytes = gauge_vec "" "tcmalloc_free_bytes" "Total free bytes of tcmalloc" []

abbrev pub storage_engine : Vec
storage_engine =
    gauge_vec "" "storage_engine" "The storage engine used by the MongoDB instance" ("engine" ∷ [])
