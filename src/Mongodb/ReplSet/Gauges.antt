-- ===== src/Mongodb/ReplSet/Gauges.antt =====
-- The gauges of collector/mongodb/replset_status.go.
use exporter_plus.Prelude.{[], ◌∷◌}
use exporter_plus.Mongodb.Calls.{Vec, gauge_vec}

abbrev pub my_state : Vec
my_state =
    gauge_vec "replset" "my_state"
      "An integer between 0 and 10 that represents the replica state of the current member"
      ("set" ∷ [])

abbrev pub my_replica_lag : Vec
my_replica_lag =
    gauge_vec "replset" "my_replica_lag"
      "An integer shows the replication lag in seconds, -1 if no master found" ("set" ∷ [])

abbrev pub master_count : Vec
master_count =
    gauge_vec "replset" "master_count"
      "The number of master, any value except 1 means something wrong" []

abbrev pub term : Vec
term =
    gauge_vec "replset" "term"
      "The election count for the replica set, as known to this replica set member" ("set" ∷ [])

abbrev pub number_of_members : Vec
number_of_members =
    gauge_vec "replset" "number_of_members" "The number of replica set mebers" ("set" ∷ [])

abbrev pub heartbeat_interval_millis : Vec
heartbeat_interval_millis =
    gauge_vec "replset" "heartbeat_interval_millis"
      "The frequency in milliseconds of the heartbeats" ("set" ∷ [])

abbrev pub member_health : Vec
member_health =
    gauge_vec "replset" "member_health" "This field conveys if the member is up (1) or down (0)."
      ("set" ∷ "name" ∷ [])

abbrev pub member_state : Vec
member_state =
    gauge_vec "replset" "member_state"
      "The value of state is an integer between 0 and 10 that represents the replica state of the member."
      ("set" ∷ "name" ∷ [])

abbrev pub member_uptime : Vec
member_uptime =
    gauge_vec "replset" "member_uptime"
      "The uptime field holds a value that reflects the number of seconds that this member has been online."
      ("set" ∷ "name" ∷ [])

abbrev pub member_optime_date : Vec
member_optime_date =
    gauge_vec "replset" "member_optime_date"
      "The last entry from the oplog that this member applied." ("set" ∷ "name" ∷ [])

abbrev pub member_election_date : Vec
member_election_date =
    gauge_vec "replset" "member_election_date"
      "The timestamp the node was elected as replica leader" ("set" ∷ "name" ∷ [])

abbrev pub member_last_heartbeat : Vec
member_last_heartbeat =
    gauge_vec "replset" "member_last_heartbeat"
      "The lastHeartbeat value provides an ISODate formatted date and time of the transmission time of last heartbeat received from this member"
      ("set" ∷ "name" ∷ [])

abbrev pub member_last_heartbeat_recv : Vec
member_last_heartbeat_recv =
    gauge_vec "replset" "member_last_heartbeat_recv"
      "The lastHeartbeatRecv value provides an ISODate formatted date and time that the last heartbeat was received from this member"
      ("set" ∷ "name" ∷ [])

abbrev pub member_ping_ms : Vec
member_ping_ms =
    gauge_vec "replset" "member_ping_ms"
      "The pingMs represents the number of milliseconds (ms) that a round-trip packet takes to travel between the remote member and the local instance."
      ("set" ∷ "name" ∷ [])

abbrev pub member_config_version : Vec
member_config_version =
    gauge_vec "replset" "member_config_version"
      "The configVersion value is the replica set configuration version." ("set" ∷ "name" ∷ [])

abbrev pub member_optime : Vec
member_optime =
    gauge_vec "replset" "member_optime"
      "Information regarding the last operation from the operation log that this member has applied."
      ("set" ∷ "name" ∷ [])
