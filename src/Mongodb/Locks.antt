-- ===== src/Mongodb/Locks.antt =====
-- collector/mongodb/locks.go: the times of the locks, by database.
pub mod Fits
use exporter_plus.Prelude.{str_eq, if◌then◌else◌, each}
use exporter_plus.Prelude.GoMap.{GoMap}
use exporter_plus.Prelude.{String, Bool, Option, List, [], ◌∷◌, ◌++◌}
use exporter_plus.Prelude.Int.{ℤ, pos}
use exporter_plus.Mongodb.Calls.{ok}
use exporter_plus.Mongodb.Calls.{
  Vec, gauge_vec, counter_vec, summary_vec, Value, val, int, Call, set, observe, collect, reset,
  Trace, sequence, when, deref, described, concat,
}

abbrev pub locks_time_locked_global_microseconds_total : Vec
locks_time_locked_global_microseconds_total =
    gauge_vec "" "locks_time_locked_global_microseconds_total"
      "amount of time in microseconds that any database has held the global lock"
      ("type" ∷ "database" ∷ [])

abbrev pub locks_time_locked_local_microseconds_total : Vec
locks_time_locked_local_microseconds_total =
    gauge_vec "" "locks_time_locked_local_microseconds_total"
      "amount of time in microseconds that any database has held the local lock"
      ("type" ∷ "database" ∷ [])

abbrev pub locks_time_acquiring_global_microseconds_total : Vec
locks_time_acquiring_global_microseconds_total =
    gauge_vec "" "locks_time_acquiring_global_microseconds_total"
      "amount of time in microseconds that any database has spent waiting for the global lock"
      ("type" ∷ "database" ∷ [])

-- ReadWriteLockTimes
pub record ReadWriteLockTimes (F : Type 0) : Type 0 where
  pub read : F
  pub write : F
  pub read_lower : F
  pub write_lower : F

-- LockStats
pub record LockStats (F : Type 0) : Type 0 where
  pub time_locked_micros : ReadWriteLockTimes F
  pub time_acquiring_micros : ReadWriteLockTimes F

-- if key == "." { key = "dot" }
abbrev pub lock_label : String → String
lock_label key = if str_eq key "." then "dot" else key

-- a round of the loop
unfoldable pub lock_calls : {F : Type 0} → String × LockStats F → List (Call F)
lock_calls (key, locks) =
    let database = lock_label key in
    set locks_time_locked_global_microseconds_total ("read" ∷ database ∷ [])
      (val locks.time_locked_micros.read)
    ∷ set locks_time_locked_global_microseconds_total ("write" ∷ database ∷ [])
        (val locks.time_locked_micros.write)
    ∷ set locks_time_locked_local_microseconds_total ("read" ∷ database ∷ [])
        (val locks.time_locked_micros.read_lower)
    ∷ set locks_time_locked_local_microseconds_total ("write" ∷ database ∷ [])
        (val locks.time_locked_micros.write_lower)
    ∷ set locks_time_acquiring_global_microseconds_total ("read" ∷ database ∷ [])
        (val locks.time_acquiring_micros.read_lower)
    ∷ set locks_time_acquiring_global_microseconds_total ("write" ∷ database ∷ [])
        (val locks.time_acquiring_micros.write_lower)
    ∷ []

unfoldable pub export_lock_stats_map : {F : Type 0} → GoMap (LockStats F) → Trace F
export_lock_stats_map locks = ok (
    each lock_calls locks
    ++ (collect locks_time_locked_global_microseconds_total
        ∷ collect locks_time_locked_local_microseconds_total
        ∷ collect locks_time_acquiring_global_microseconds_total
        ∷ []))

unfoldable pub describe_lock_stats_map : {F : Type 0} → GoMap (LockStats F) → List Vec
describe_lock_stats_map locks =
    locks_time_locked_global_microseconds_total ∷ locks_time_locked_local_microseconds_total
    ∷ locks_time_acquiring_global_microseconds_total ∷ []
