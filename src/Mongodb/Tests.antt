-- ===== src/Mongodb/Tests.antt =====
-- The theorems on the MongoDB exporter at concrete inputs.
mod Gauges
mod Collect
use mathlib.Core.List.{Memᴰ}
use exporter_plus.Prelude.{
  ℕ, zero, suc, ◌≡◌, ◌≢◌, ◌↔◌, ◌⊎◌, ◌≤◌, refl, Bool, true, false, Option, none, some, [], ◌∷◌,
  str_eq, ne_of_str_eq,
}
use exporter_plus.Prelude.Int.{ℤ, pos, negsuc, sub64}
use exporter_plus.Mongodb.Oplog.{
  Session, OplogStatus, OplogGauges, get_oplog_timestamp, or_zero, get_oplog_status, export_oplog,
}
use exporter_plus.Mongodb.Oplog.Laws.{
  first_two, get_oplog_timestamp_lem, get_oplog_status_lem, export_oplog_timestamps,
}
use exporter_plus.Mongodb.ReplSet.{
  Time, Member, ReplSetStatus, is_primary, is_self, export_repl_set,
}
use exporter_plus.Mongodb.ReplSet.Laws.{count, HaveTime, master_count_lem, replica_lag_lem}
use exporter_plus.Mongodb.ReplSet.Members.{HaveNames, Shows, export_repl_set-Shows}

-- The head fails twice, the tail once.
abbrev oplog_answer : Bool → ℕ → Option ℤ
oplog_answer false n = none
oplog_answer true zero = none
oplog_answer true (suc n) = some (pos 8589934592)

abbrev session : Session ℕ
session = record { oplog_end = oplog_answer; coll_stats = some (3, (4, 5)) }

get_oplog_timestamp_lem_example :
    ((get_oplog_timestamp session true).queries ≤ 2)
    × ((get_oplog_timestamp session true).timestamp ≡ first_two session true)
    × (((get_oplog_timestamp session true).timestamp ≡ none)
        ↔ ((oplog_answer true 0 ≡ none) × (oplog_answer true 1 ≡ none)))
get_oplog_timestamp_lem_example = get_oplog_timestamp_lem session true

get_oplog_status_lem_example :
    ((get_oplog_status session ≡ none)
      ↔ ((session.coll_stats ≡ none) ⊎ (first_two session true ≡ none)))
    × ((status : OplogStatus ℕ)
        → get_oplog_status session ≡ some status
        → (first_two session true ≡ some status.tail_timestamp)
          × (status.head_timestamp ≡ or_zero (first_two session false)))
get_oplog_status_lem_example = get_oplog_status_lem session

abbrev status : OplogStatus ℕ
status = record { tail_timestamp = pos 2; head_timestamp = pos 0; collection_stats = none }

abbrev gauges : OplogGauges ℕ
gauges = record { count = 1; size_current = 1; size_storage = 1; head = pos 7; tail = pos 9 }

abbrev at : ℕ → Time
at n = record { unix = pos n; is_zero = false }

abbrev primary : Member ℕ
primary = record {
  name = "a";
  self = none;
  health = some (pos 1);
  state = pos 1;
  uptime = 5;
  optime_date = at 100;
  election_date = some (at 50);
  last_heartbeat = none;
  last_heartbeat_recv = none;
  ping_ms = some 3;
  config_version = none;
}

abbrev secondary : Member ℕ
secondary = record primary {
  name = "b";
  self = some true;
  health = none;
  state = pos 2;
  optime_date = at 90;
}

abbrev replicas : ReplSetStatus ℕ
replicas = record {
  set = "rs0";
  my_state = pos 2;
  term = none;
  heartbeat_interval_millis = none;
  members = primary ∷ secondary ∷ [];
}

master_count_lem_example :
    ((export_repl_set replicas).master_count ≡ count is_primary (primary ∷ secondary ∷ []))
    × ((export_repl_set replicas).master_count ≤ (export_repl_set replicas).number_of_members)
master_count_lem_example = master_count_lem replicas

replica_lag_lem_example :
    ((count is_primary replicas.members ≡ 0) ⊎ (count is_self replicas.members ≡ 0)
      → (export_repl_set replicas).my_replica_lag ≡ negsuc 0)
    × ((p my : Time)
        → count is_primary replicas.members ≢ 0
        → count is_self replicas.members ≢ 0
        → HaveTime is_primary p replicas.members
        → HaveTime is_self my replicas.members
        → p.is_zero ≡ false
        → my.is_zero ≡ false
        → (export_repl_set replicas).my_replica_lag ≡ sub64 p.unix my.unix)
replica_lag_lem_example = replica_lag_lem replicas

names : HaveNames replicas.members
unfolding str_eq
names = ((ne_of_str_eq "b" "a" refl, tt), (tt, tt))

export_repl_set-Shows_example : Shows secondary (export_repl_set replicas).gauges
export_repl_set-Shows_example =
    export_repl_set-Shows replicas secondary names (Memᴰ.tail (Memᴰ.head refl))
