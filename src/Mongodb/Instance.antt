-- ===== src/Mongodb/Instance.antt =====
-- The short sections of a server status, in collector/mongodb: asserts.go, connections.go, cursors.go,
-- extra_info.go, index_counters.go, memory.go, network.go and op_counters.go.
pub mod Gauges
pub mod Fits
use exporter_plus.Prelude.{String, Bool, Option, List, [], ◌∷◌, ◌++◌}
use exporter_plus.Prelude.Int.{ℤ, pos}
use exporter_plus.Mongodb.Calls.{ok}
use exporter_plus.Mongodb.Calls.{
  Vec, gauge_vec, counter_vec, summary_vec, Value, val, int, Call, set, observe, collect, reset,
  Trace, sequence, when, deref, described, concat,
}
use exporter_plus.Mongodb.Instance.Gauges.{
  asserts_total, connections, connections_metrics_created_total, cursors_gauge,
  extra_infopage_faults_total, extra_infoheap_usage_bytes, index_counters_miss_ratio,
  index_counters_total, memory, network_bytes_total, network_metrics_num_requests_total,
  op_counters_total, op_counters_repl_total,
}

-- AssertsStats
pub record AssertsStats (F : Type 0) : Type 0 where
  pub regular : F
  pub warning : F
  pub msg : F
  pub user : F
  pub rollovers : F

unfoldable pub export_asserts_stats : {F : Type 0} → AssertsStats F → Trace F
export_asserts_stats s = ok (
    set asserts_total ("regular" ∷ []) (val s.regular)
    ∷ set asserts_total ("warning" ∷ []) (val s.warning)
    ∷ set asserts_total ("msg" ∷ []) (val s.msg)
    ∷ set asserts_total ("user" ∷ []) (val s.user)
    ∷ set asserts_total ("rollovers" ∷ []) (val s.rollovers)
    ∷ collect asserts_total
    ∷ [])

unfoldable pub describe_asserts_stats : {F : Type 0} → AssertsStats F → List Vec
describe_asserts_stats s = asserts_total ∷ []

-- ConnectionStats
pub record ConnectionStats (F : Type 0) : Type 0 where
  pub current : F
  pub available : F
  pub total_created : F

unfoldable pub export_connection_stats : {F : Type 0} → ConnectionStats F → Trace F
export_connection_stats s = ok (
    set connections ("current" ∷ []) (val s.current)
    ∷ set connections ("available" ∷ []) (val s.available)
    ∷ collect connections
    ∷ set connections_metrics_created_total [] (val s.total_created)
    ∷ collect connections_metrics_created_total
    ∷ [])

unfoldable pub describe_connection_stats : {F : Type 0} → ConnectionStats F → List Vec
describe_connection_stats s = connections ∷ connections_metrics_created_total ∷ []

-- Cursors
pub record Cursors (F : Type 0) : Type 0 where
  pub total_open : F
  pub time_out : F
  pub total_no_timeout : F
  pub pinned : F

unfoldable pub export_cursors : {F : Type 0} → Cursors F → Trace F
export_cursors s = ok (
    set cursors_gauge ("total_open" ∷ []) (val s.total_open)
    ∷ set cursors_gauge ("timed_out" ∷ []) (val s.time_out)
    ∷ set cursors_gauge ("total_no_timeout" ∷ []) (val s.total_no_timeout)
    ∷ set cursors_gauge ("pinned" ∷ []) (val s.pinned)
    ∷ collect cursors_gauge
    ∷ [])

unfoldable pub describe_cursors : {F : Type 0} → Cursors F → List Vec
describe_cursors s = cursors_gauge ∷ []

-- ExtraInfo
pub record ExtraInfo (F : Type 0) : Type 0 where
  pub heap_usage_bytes : F
  pub page_faults : F

unfoldable pub export_extra_info : {F : Type 0} → ExtraInfo F → Trace F
export_extra_info s = ok (
    set extra_infoheap_usage_bytes [] (val s.heap_usage_bytes)
    ∷ set extra_infopage_faults_total [] (val s.page_faults)
    ∷ collect extra_infoheap_usage_bytes
    ∷ collect extra_infopage_faults_total
    ∷ [])

unfoldable pub describe_extra_info : {F : Type 0} → ExtraInfo F → List Vec
describe_extra_info s = extra_infoheap_usage_bytes ∷ extra_infopage_faults_total ∷ []

-- IndexCounterStats
pub record IndexCounterStats (F : Type 0) : Type 0 where
  pub accesses : F
  pub hits : F
  pub misses : F
  pub resets : F
  pub miss_ratio : F

unfoldable pub export_index_counter_stats : {F : Type 0} → IndexCounterStats F → Trace F
export_index_counter_stats s = ok (
    set index_counters_total ("accesses" ∷ []) (val s.accesses)
    ∷ set index_counters_total ("hits" ∷ []) (val s.hits)
    ∷ set index_counters_total ("misses" ∷ []) (val s.misses)
    ∷ set index_counters_total ("resets" ∷ []) (val s.resets)
    ∷ set index_counters_miss_ratio [] (val s.miss_ratio)
    ∷ collect index_counters_total
    ∷ collect index_counters_miss_ratio
    ∷ [])

unfoldable pub describe_index_counter_stats : {F : Type 0} → IndexCounterStats F → List Vec
describe_index_counter_stats s = index_counters_total ∷ index_counters_miss_ratio ∷ []

-- MemStats
pub record MemStats (F : Type 0) : Type 0 where
  pub bits : F
  pub resident : F
  pub virtual : F
  pub mapped : F
  pub mapped_with_journal : F

unfoldable pub export_mem_stats : {F : Type 0} → MemStats F → Trace F
export_mem_stats s = ok (
    set memory ("resident" ∷ []) (val s.resident)
    ∷ set memory ("virtual" ∷ []) (val s.virtual)
    ∷ set memory ("mapped" ∷ []) (val s.mapped)
    ∷ set memory ("mapped_with_journal" ∷ []) (val s.mapped_with_journal)
    ∷ collect memory
    ∷ [])

unfoldable pub describe_mem_stats : {F : Type 0} → MemStats F → List Vec
describe_mem_stats s = memory ∷ []

-- NetworkStats
pub record NetworkStats (F : Type 0) : Type 0 where
  pub bytes_in : F
  pub bytes_out : F
  pub num_requests : F

unfoldable pub export_network_stats : {F : Type 0} → NetworkStats F → Trace F
export_network_stats s = ok (
    set network_bytes_total ("in_bytes" ∷ []) (val s.bytes_in)
    ∷ set network_bytes_total ("out_bytes" ∷ []) (val s.bytes_out)
    ∷ set network_metrics_num_requests_total [] (val s.num_requests)
    ∷ collect network_metrics_num_requests_total
    ∷ collect network_bytes_total
    ∷ [])

unfoldable pub describe_network_stats : {F : Type 0} → NetworkStats F → List Vec
describe_network_stats s = network_metrics_num_requests_total ∷ network_bytes_total ∷ []

-- OpcountersStats
pub record OpcountersStats (F : Type 0) : Type 0 where
  pub insert : F
  pub query : F
  pub update : F
  pub delete : F
  pub get_more : F
  pub command : F

unfoldable pub export_opcounters_stats : {F : Type 0} → OpcountersStats F → Trace F
export_opcounters_stats s = ok (
    set op_counters_total ("insert" ∷ []) (val s.insert)
    ∷ set op_counters_total ("query" ∷ []) (val s.query)
    ∷ set op_counters_total ("update" ∷ []) (val s.update)
    ∷ set op_counters_total ("delete" ∷ []) (val s.delete)
    ∷ set op_counters_total ("getmore" ∷ []) (val s.get_more)
    ∷ set op_counters_total ("command" ∷ []) (val s.command)
    ∷ collect op_counters_total
    ∷ [])

unfoldable pub describe_opcounters_stats : {F : Type 0} → OpcountersStats F → List Vec
describe_opcounters_stats s = op_counters_total ∷ []

-- OpcountersReplStats
pub record OpcountersReplStats (F : Type 0) : Type 0 where
  pub insert : F
  pub query : F
  pub update : F
  pub delete : F
  pub get_more : F
  pub command : F

unfoldable pub export_opcounters_repl_stats : {F : Type 0} → OpcountersReplStats F → Trace F
export_opcounters_repl_stats s = ok (
    set op_counters_repl_total ("insert" ∷ []) (val s.insert)
    ∷ set op_counters_repl_total ("query" ∷ []) (val s.query)
    ∷ set op_counters_repl_total ("update" ∷ []) (val s.update)
    ∷ set op_counters_repl_total ("delete" ∷ []) (val s.delete)
    ∷ set op_counters_repl_total ("getmore" ∷ []) (val s.get_more)
    ∷ set op_counters_repl_total ("command" ∷ []) (val s.command)
    ∷ collect op_counters_repl_total
    ∷ [])

unfoldable pub describe_opcounters_repl_stats : {F : Type 0} → OpcountersReplStats F → List Vec
describe_opcounters_repl_stats s = op_counters_repl_total ∷ []
