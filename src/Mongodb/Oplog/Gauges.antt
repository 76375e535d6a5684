-- ===== src/Mongodb/Oplog/Gauges.antt =====
-- The gauges of collector/mongodb/oplog_status.go.
use exporter_plus.Prelude.{[], ◌∷◌}
use exporter_plus.Mongodb.Calls.{Vec, gauge_vec}

abbrev pub oplog_status_count : Vec
oplog_status_count =
    gauge_vec "replset_oplog" "items_total" "The total number of changes in the oplog" []

abbrev pub oplog_status_head_timestamp : Vec
oplog_status_head_timestamp =
    gauge_vec "replset_oplog" "head_timestamp" "The timestamp of the newest change in the oplog" []

abbrev pub oplog_status_tail_timestamp : Vec
oplog_status_tail_timestamp =
    gauge_vec "replset_oplog" "tail_timestamp" "The timestamp of the oldest change in the oplog" []

abbrev pub oplog_status_size_bytes : Vec
oplog_status_size_bytes =
    gauge_vec "replset_oplog" "size_bytes" "Size of oplog in bytes" ("type" ∷ [])
