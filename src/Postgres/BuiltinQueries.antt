-- ===== src/Postgres/BuiltinQueries.antt =====
-- queryOverrides of collector/postgres/collector.go: the queries that stand in for a plain look-up
-- of a view, each with its range of versions.
pub mod Laws
use exporter_plus.Prelude.{String, List, [], ◌∷◌, Bool}
use exporter_plus.Prelude.GoMap.{GoMap}
use exporter_plus.Postgres.Types.{OverrideQuery, Semver}

abbrev pub pg_locks_query_0 : String
pg_locks_query_0 =
    "SELECT pg_database.datname,tmp.mode,COALESCE(count,0) as count\n\t\t\tFROM\n\t\t\t\t(\n\t\t\t\t  VALUES ('accesssharelock'),\n\t\t\t\t         ('rowsharelock'),\n\t\t\t\t         ('rowexclusivelock'),\n\t\t\t\t         ('shareupdateexclusivelock'),\n\t\t\t\t         ('sharelock'),\n\t\t\t\t         ('sharerowexclusivelock'),\n\t\t\t\t         ('exclusivelock'),\n\t\t\t\t         ('accessexclusivelock')\n\t\t\t\t) AS tmp(mode) CROSS JOIN pg_database\n\t\t\tLEFT JOIN\n\t\t\t  (SELECT database, lower(mode) AS mode,count(*) AS count\n\t\t\t  FROM pg_locks WHERE database IS NOT NULL\n\t\t\t  GROUP BY database, lower(mode)\n\t\t\t) AS tmp2\n\t\t\tON tmp.mode=tmp2.mode and pg_database.oid = tmp2.database ORDER BY 1"

abbrev pub pg_stat_replication_query_0 : String
pg_stat_replication_query_0 =
    "\n\t\t\tSELECT *,\n\t\t\t\t(case pg_is_in_recovery() when 't' then null else pg_current_wal_lsn() end) AS pg_current_wal_lsn,\n\t\t\t\t(case pg_is_in_recovery() when 't' then null else pg_wal_lsn_diff(pg_current_wal_lsn(), replay_lsn)::float end) AS pg_wal_lsn_diff\n\t\t\tFROM pg_stat_replication\n\t\t\t"

abbrev pub pg_stat_replication_query_1 : String
pg_stat_replication_query_1 =
    "\n\t\t\tSELECT *,\n\t\t\t\t(case pg_is_in_recovery() when 't' then null else pg_current_xlog_location() end) AS pg_current_xlog_location,\n\t\t\t\t(case pg_is_in_recovery() when 't' then null else pg_xlog_location_diff(pg_current_xlog_location(), replay_location)::float end) AS pg_xlog_location_diff\n\t\t\tFROM pg_stat_replication\n\t\t\t"

abbrev pub pg_stat_replication_query_2 : String
pg_stat_replication_query_2 =
    "\n\t\t\tSELECT *,\n\t\t\t\t(case pg_is_in_recovery() when 't' then null else pg_current_xlog_location() end) AS pg_current_xlog_location\n\t\t\tFROM pg_stat_replication\n\t\t\t"

abbrev pub pg_stat_activity_query_0 : String
pg_stat_activity_query_0 =
    "\n\t\t\tSELECT\n\t\t\t\tpg_database.datname,\n\t\t\t\ttmp.state,\n\t\t\t\tCOALESCE(count,0) as count,\n\t\t\t\tCOALESCE(max_tx_duration,0) as max_tx_duration\n\t\t\tFROM\n\t\t\t\t(\n\t\t\t\t  VALUES ('active'),\n\t\t\t\t  \t\t ('idle'),\n\t\t\t\t  \t\t ('idle in transaction'),\n\t\t\t\t  \t\t ('idle in transaction (aborted)'),\n\t\t\t\t  \t\t ('fastpath function call'),\n\t\t\t\t  \t\t ('disabled')\n\t\t\t\t) AS tmp(state) CROSS JOIN pg_database\n\t\t\tLEFT JOIN\n\t\t\t(\n\t\t\t\tSELECT\n\t\t\t\t\tdatname,\n\t\t\t\t\tstate,\n\t\t\t\t\tcount(*) AS count,\n\t\t\t\t\tMAX(EXTRACT(EPOCH FROM now() - xact_start))::float AS max_tx_duration\n\t\t\t\tFROM pg_stat_activity GROUP BY datname,state) AS tmp2\n\t\t\t\tON tmp.state = tmp2.state AND pg_database.datname = tmp2.datname\n\t\t\t"

abbrev pub pg_stat_activity_query_1 : String
pg_stat_activity_query_1 =
    "\n\t\t\tSELECT\n\t\t\t\tdatname,\n\t\t\t\t'unknown' AS state,\n\t\t\t\tCOALESCE(count(*),0) AS count,\n\t\t\t\tCOALESCE(MAX(EXTRACT(EPOCH FROM now() - xact_start))::float,0) AS max_tx_duration\n\t\t\tFROM pg_stat_activity GROUP BY datname\n\t\t\t"

module _ {V : Type 0} (sv : Semver V) where
  abbrev override : String → String → OverrideQuery V
  override range query = record { version_range = sv.must_parse_range range; query = query }

  unfoldable pub pg_locks_overrides : List (OverrideQuery V)
  pg_locks_overrides = override ">0.0.0" pg_locks_query_0 ∷ []

  unfoldable pub pg_stat_replication_overrides : List (OverrideQuery V)
  pg_stat_replication_overrides =
      override ">=10.0.0" pg_stat_replication_query_0
      ∷ override ">=9.2.0 <10.0.0" pg_stat_replication_query_1
      ∷ override "<9.2.0" pg_stat_replication_query_2
      ∷ []

  unfoldable pub pg_stat_activity_overrides : List (OverrideQuery V)
  pg_stat_activity_overrides =
      override ">=9.2.0" pg_stat_activity_query_0 ∷ override "<9.2.0" pg_stat_activity_query_1 ∷ []

  unfoldable pub query_overrides : GoMap (List (OverrideQuery V))
  unfolding pg_locks_overrides pg_stat_replication_overrides pg_stat_activity_overrides
  query_overrides =
      ("pg_locks", pg_locks_overrides)
      ∷ ("pg_stat_replication", pg_stat_replication_overrides)
      ∷ ("pg_stat_activity", pg_stat_activity_overrides)
      ∷ []
