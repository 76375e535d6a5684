-- ===== src/Postgres/Builtin.antt =====
-- builtinMetricMaps of collector/postgres/collector.go: the columns of each view, with the versions
-- that have them.
pub mod Laws
use exporter_plus.Prelude.{String, Option, none, some, Bool, List, [], ◌∷◌}
use exporter_plus.Prelude.GoMap.{GoMap}
use exporter_plus.Postgres.Types.{
  ColumnUsage, discard, label, counter, gauge, ColumnMapping, Semver,
}

module _ {V F : Type 0} where
  abbrev pub column : ColumnUsage → String → ColumnMapping V F
  column u help = record { usage = u; description = help; mapping = []; supported_versions = none }

  -- a column that only the versions of a range have
  abbrev pub column_for : ColumnUsage → String → (V → Bool) → ColumnMapping V F
  column_for u help range = record {
    usage = u;
    description = help;
    mapping = [];
    supported_versions = some range;
  }

module _ {V F : Type 0} (sv : Semver V) where
  unfoldable pub pg_stat_bgwriter : GoMap (ColumnMapping V F)
  pg_stat_bgwriter =
      (
        "checkpoints_timed",
        column counter "Number of scheduled checkpoints that have been performed",
      )
      ∷ (
        "checkpoints_req",
        column counter "Number of requested checkpoints that have been performed",
      )
      ∷ (
        "checkpoint_write_time",
        column counter
            "Total amount of time that has been spent in the portion of checkpoint processing where files are written to disk, in milliseconds",
      )
      ∷ (
        "checkpoint_sync_time",
        column counter
            "Total amount of time that has been spent in the portion of checkpoint processing where files are synchronized to disk, in milliseconds",
      )
      ∷ ("buffers_checkpoint", column counter "Number of buffers written during checkpoints")
      ∷ ("buffers_clean", column counter "Number of buffers written by the background writer")
      ∷ (
        "maxwritten_clean",
        column counter
            "Number of times the background writer stopped a cleaning scan because it had written too many buffers",
      )
      ∷ ("buffers_backend", column counter "Number of buffers written directly by a backend")
      ∷ (
        "buffers_backend_fsync",
        column counter
            "Number of times a backend had to execute its own fsync call (normally the background writer handles those even when the backend does its own write)",
      )
      ∷ ("buffers_alloc", column counter "Number of buffers allocated")
      ∷ ("stats_reset", column counter "Time at which these statistics were last reset")
      ∷ []

  unfoldable pub pg_stat_database : GoMap (ColumnMapping V F)
  pg_stat_database =
      ("datid", column label "OID of a database")
      ∷ ("datname", column label "Name of this database")
      ∷ (
        "numbackends",
        column gauge
            "Number of backends currently connected to this database. This is the only column in this view that returns a value reflecting current state; all other columns return the accumulated values since the last reset.",
      )
      ∷ (
        "xact_commit",
        column counter "Number of transactions in this database that have been committed",
      )
      ∷ (
        "xact_rollback",
        column counter "Number of transactions in this database that have been rolled back",
      )
      ∷ ("blks_read", column counter "Number of disk blocks read in this database")
      ∷ (
        "blks_hit",
        column counter
            "Number of times disk blocks were found already in the buffer cache, so that a read was not necessary (this only includes hits in the PostgreSQL buffer cache, not the operating system's file system cache)",
      )
      ∷ ("tup_returned", column counter "Number of rows returned by queries in this database")
      ∷ ("tup_fetched", column counter "Number of rows fetched by queries in this database")
      ∷ ("tup_inserted", column counter "Number of rows inserted by queries in this database")
      ∷ ("tup_updated", column counter "Number of rows updated by queries in this database")
      ∷ ("tup_deleted", column counter "Number of rows deleted by queries in this database")
      ∷ (
        "conflicts",
        column counter
            "Number of queries canceled due to conflicts with recovery in this database. (Conflicts occur only on standby servers; see pg_stat_database_conflicts for details.)",
      )
      ∷ (
        "temp_files",
        column counter
            "Number of temporary files created by queries in this database. All temporary files are counted, regardless of why the temporary file was created (e.g., sorting or hashing), and regardless of the log_temp_files setting.",
      )
      ∷ (
        "temp_bytes",
        column counter
            "Total amount of data written to temporary files by queries in this database. All temporary files are counted, regardless of why the temporary file was created, and regardless of the log_temp_files setting.",
      )
      ∷ ("deadlocks", column counter "Number of deadlocks detected in this database")
      ∷ (
        "blk_read_time",
        column counter
            "Time spent reading data file blocks by backends in this database, in milliseconds",
      )
      ∷ (
        "blk_write_time",
        column counter
            "Time spent writing data file blocks by backends in this database, in milliseconds",
      )
      ∷ ("stats_reset", column counter "Time at which these statistics were last reset")
      ∷ []

  unfoldable pub pg_stat_database_conflicts : GoMap (ColumnMapping V F)
  pg_stat_database_conflicts =
      ("datid", column label "OID of a database")
      ∷ ("datname", column label "Name of this database")
      ∷ (
        "confl_tablespace",
        column counter
            "Number of queries in this database that have been canceled due to dropped tablespaces",
      )
      ∷ (
        "confl_lock",
        column counter
            "Number of queries in this database that have been canceled due to lock timeouts",
      )
      ∷ (
        "confl_snapshot",
        column counter
            "Number of queries in this database that have been canceled due to old snapshots",
      )
      ∷ (
        "confl_bufferpin",
        column counter
            "Number of queries in this database that have been canceled due to pinned buffers",
      )
      ∷ (
        "confl_deadlock",
        column counter
            "Number of queries in this database that have been canceled due to deadlocks",
      )
      ∷ []

  unfoldable pub pg_locks : GoMap (ColumnMapping V F)
  pg_locks =
      ("datname", column label "Name of this database")
      ∷ ("mode", column label "Type of Lock")
      ∷ ("count", column gauge "Number of locks")
      ∷ []

  unfoldable pub pg_stat_replication : GoMap (ColumnMapping V F)
  pg_stat_replication =
      (
        "procpid",
        column_for discard "Process ID of a WAL sender process" (sv.must_parse_range "<9.2.0"),
      )
      ∷ (
        "pid",
        column_for discard "Process ID of a WAL sender process" (sv.must_parse_range ">=9.2.0"),
      )
      ∷ ("usesysid", column discard "OID of the user logged into this WAL sender process")
      ∷ ("usename", column discard "Name of the user logged into this WAL sender process")
      ∷ (
        "application_name",
        column discard "Name of the application that is connected to this WAL sender",
      )
      ∷ (
        "client_addr",
        column label
            "IP address of the client connected to this WAL sender. If this field is null, it indicates that the client is connected via a Unix socket on the server machine.",
      )
      ∷ (
        "client_hostname",
        column discard
            "Host name of the connected client, as reported by a reverse DNS lookup of client_addr. This field will only be non-null for IP connections, and only when log_hostname is enabled.",
      )
      ∷ (
        "client_port",
        column discard
            "TCP port number that the client is using for communication with this WAL sender, or -1 if a Unix socket is used",
      )
      ∷ (
        "backend_start",
        column discard
            "with time zone\tTime when this process was started, i.e., when the client connected to this WAL sender",
      )
      ∷ ("backend_xmin", column discard "The current backend's xmin horizon.")
      ∷ ("state", column label "Current WAL sender state")
      ∷ (
        "sent_location",
        column_for discard "Last transaction log position sent on this connection"
            (sv.must_parse_range "<10.0.0"),
      )
      ∷ (
        "write_location",
        column_for discard "Last transaction log position written to disk by this standby server"
            (sv.must_parse_range "<10.0.0"),
      )
      ∷ (
        "flush_location",
        column_for discard "Last transaction log position flushed to disk by this standby server"
            (sv.must_parse_range "<10.0.0"),
      )
      ∷ (
        "replay_location",
        column_for discard
            "Last transaction log position replayed into the database on this standby server"
            (sv.must_parse_range "<10.0.0"),
      )
      ∷ (
        "sent_lsn",
        column_for discard "Last transaction log position sent on this connection"
            (sv.must_parse_range ">=10.0.0"),
      )
      ∷ (
        "write_lsn",
        column_for discard "Last transaction log position written to disk by this standby server"
            (sv.must_parse_range ">=10.0.0"),
      )
      ∷ (
        "flush_lsn",
        column_for discard "Last transaction log position flushed to disk by this standby server"
            (sv.must_parse_range ">=10.0.0"),
      )
      ∷ (
        "replay_lsn",
        column_for discard
            "Last transaction log position replayed into the database on this standby server"
            (sv.must_parse_range ">=10.0.0"),
      )
      ∷ (
        "sync_priority",
        column discard
            "Priority of this standby server for being chosen as the synchronous standby",
      )
      ∷ ("sync_state", column discard "Synchronous state of this standby server")
      ∷ (
        "slot_name",
        column_for label "A unique, cluster-wide identifier for the replication slot"
            (sv.must_parse_range ">=9.2.0"),
      )
      ∷ (
        "plugin",
        column discard
            "The base name of the shared object containing the output plugin this logical slot is using, or null for physical slots",
      )
      ∷ ("slot_type", column discard "The slot type - physical or logical")
      ∷ (
        "datoid",
        column discard
            "The OID of the database this slot is associated with, or null. Only logical slots have an associated database",
      )
      ∷ (
        "database",
        column discard
            "The name of the database this slot is associated with, or null. Only logical slots have an associated database",
      )
      ∷ ("active", column discard "True if this slot is currently actively being used")
      ∷ ("active_pid", column discard "Process ID of a WAL sender process")
      ∷ (
        "xmin",
        column discard
            "The oldest transaction that this slot needs the database to retain. VACUUM cannot remove tuples deleted by any later transaction",
      )
      ∷ (
        "catalog_xmin",
        column discard
            "The oldest transaction affecting the system catalogs that this slot needs the database to retain. VACUUM cannot remove catalog tuples deleted by any later transaction",
      )
      ∷ (
        "restart_lsn",
        column discard
            "The address (LSN) of oldest WAL which still might be required by the consumer of this slot and thus won't be automatically removed during checkpoints",
      )
      ∷ ("pg_current_xlog_location", column discard "pg_current_xlog_location")
      ∷ (
        "pg_current_wal_lsn",
        column_for discard "pg_current_xlog_location" (sv.must_parse_range ">=10.0.0"),
      )
      ∷ (
        "pg_xlog_location_diff",
        column_for gauge "Lag in bytes between master and slave"
            (sv.must_parse_range ">=9.2.0 <10.0.0"),
      )
      ∷ (
        "pg_wal_lsn_diff",
        column_for gauge "Lag in bytes between master and slave" (sv.must_parse_range ">=10.0.0"),
      )
      ∷ (
        "confirmed_flush_lsn",
        column discard "LSN position a consumer of a slot has confirmed flushing the data received",
      )
      ∷ (
        "write_lag",
        column_for discard
            "Time elapsed between flushing recent WAL locally and receiving notification that this standby server has written it (but not yet flushed it or applied it). This can be used to gauge the delay that synchronous_commit level remote_write incurred while committing if this server was configured as a synchronous standby."
            (sv.must_parse_range ">=10.0.0"),
      )
      ∷ (
        "flush_lag",
        column_for discard
            "Time elapsed between flushing recent WAL locally and receiving notification that this standby server has written and flushed it (but not yet applied it). This can be used to gauge the delay that synchronous_commit level remote_flush incurred while committing if this server was configured as a synchronous standby."
            (sv.must_parse_range ">=10.0.0"),
      )
      ∷ (
        "replay_lag",
        column_for discard
            "Time elapsed between flushing recent WAL locally and receiving notification that this standby server has written, flushed and applied it. This can be used to gauge the delay that synchronous_commit level remote_apply incurred while committing if this server was configured as a synchronous standby."
            (sv.must_parse_range ">=10.0.0"),
      )
      ∷ []

  unfoldable pub pg_stat_activity : GoMap (ColumnMapping V F)
  pg_stat_activity =
      ("datname", column label "Name of this database")
      ∷ ("state", column_for label "connection state" (sv.must_parse_range ">=9.2.0"))
      ∷ ("count", column gauge "number of connections in this state")
      ∷ (
        "max_tx_duration",
        column gauge "max duration in seconds any active transaction has been running",
      )
      ∷ []

  unfoldable pub builtin_metric_maps : GoMap (GoMap (ColumnMapping V F))
  unfolding pg_stat_bgwriter pg_stat_database pg_stat_database_conflicts pg_locks
      pg_stat_replication pg_stat_activity
  builtin_metric_maps =
      ("pg_stat_bgwriter", pg_stat_bgwriter)
      ∷ ("pg_stat_database", pg_stat_database)
      ∷ ("pg_stat_database_conflicts", pg_stat_database_conflicts)
      ∷ ("pg_locks", pg_locks)
      ∷ ("pg_stat_replication", pg_stat_replication)
      ∷ ("pg_stat_activity", pg_stat_activity)
      ∷ []
