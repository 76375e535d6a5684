-- ===== src/Mongodb/Instance/Gauges.antt =====
-- The gauges of the short sections of a server status.
use exporter_plus.Prelude.{[], ◌∷◌}
use exporter_plus.Mongodb.Calls.{Vec, gauge_vec}

abbrev pub asserts_total : Vec
asserts_total =
    gauge_vec "" "asserts_total"
      "The asserts document reports the number of asserts on the database. While assert errors are typically uncommon, if there are non-zero values for the asserts, you should check the log file for the mongod process for more information. In many cases these errors are trivial, but are worth investigating."
      ("type" ∷ [])

abbrev pub connections : Vec
connections =
    gauge_vec "" "connections"
      "The connections sub document data regarding the current status of incoming connections and availability of the database server. Use these values to assess the current load and capacity requirements of the server"
      ("state" ∷ [])

abbrev pub connections_metrics_created_total : Vec
connections_metrics_created_total =
    gauge_vec "connections_metrics" "created_total"
      "totalCreated provides a count of all incoming connections created to the server. This number includes connections that have since closed"
      []

abbrev pub cursors_gauge : Vec
cursors_gauge =
    gauge_vec "" "cursors" "The cursors data structure contains data regarding cursor state and use"
      ("state" ∷ [])

abbrev pub extra_infopage_faults_total : Vec
extra_infopage_faults_total =
    gauge_vec "extra_info" "page_faults_total"
      "The page_faults Reports the total number of page faults that require disk operations. Page faults refer to operations that require the database server to access data which isn't available in active memory. The page_faults counter may increase dramatically during moments of poor performance and may correlate with limited memory environments and larger data sets. Limited and sporadic page faults do not necessarily indicate an issue"
      []

abbrev pub extra_infoheap_usage_bytes : Vec
extra_infoheap_usage_bytes =
    gauge_vec "extra_info" "heap_usage_bytes"
      "The heap_usage_bytes field is only available on Unix/Linux systems, and reports the total size in bytes of heap space used by the database process"
      []

abbrev pub index_counters_miss_ratio : Vec
index_counters_miss_ratio =
    gauge_vec "index_counters" "miss_ratio"
      "The missRatio value is the ratio of hits to misses. This value is typically 0 or approaching 0"
      []

abbrev pub index_counters_total : Vec
index_counters_total = gauge_vec "" "index_counters_total" "Total indexes by type" ("type" ∷ [])

abbrev pub memory : Vec
memory =
    gauge_vec "" "memory"
      "The mem data structure holds information regarding the target system architecture of mongod and current memory use"
      ("type" ∷ [])

abbrev pub network_bytes_total : Vec
network_bytes_total =
    gauge_vec "" "network_bytes_total"
      "The network data structure contains data regarding MongoDB's network use" ("state" ∷ [])

abbrev pub network_metrics_num_requests_total : Vec
network_metrics_num_requests_total =
    gauge_vec "network_metrics" "num_requests_total"
      "The numRequests field is a counter of the total number of distinct requests that the server has received. Use this value to provide context for the bytesIn and bytesOut values to ensure that MongoDB's network utilization is consistent with expectations and application use"
      []

abbrev pub op_counters_total : Vec
op_counters_total =
    gauge_vec "" "op_counters_total"
      "The opcounters data structure provides an overview of database operations by type and makes it possible to analyze the load on the database in more granular manner. These numbers will grow over time and in response to database use. Analyze these values over time to track database utilization"
      ("type" ∷ [])

abbrev pub op_counters_repl_total : Vec
op_counters_repl_total =
    gauge_vec "" "op_counters_repl_total"
      "The opcountersRepl data structure, similar to the opcounters data structure, provides an overview of database replication operations by type and makes it possible to analyze the load on the replica in more granular manner. These values only appear when the current host has replication enabled"
      ("type" ∷ [])
