-- ===== src/Mongodb/Collector/Complete.antt =====
-- When a whole collection panics.
use exporter_plus.Prelude.{true, ◌&&◌, ◌≡◌, refl, ◌∙◌, arith}
use exporter_plus.Mongodb.Calls.Returns.{
  if_any, returns, returns-sequence, returns-when, returns-when_always, returns-map_always,
}
use exporter_plus.Mongodb.Server.Complete.{is_complete, returns-export_server_status}
use exporter_plus.Mongodb.Server.{export_server_status}
use exporter_plus.Mongodb.ReplConf.{export_repl_set_conf}
use exporter_plus.Mongodb.ReplSet.Calls.{repl_set_calls}
use exporter_plus.Mongodb.Oplog.{get_oplog_status}
use exporter_plus.Mongodb.Tail.{tail_calls}
use exporter_plus.Mongodb.Calls.{ok}
use exporter_plus.Mongodb.Oplog.Calls.{oplog_calls}
use exporter_plus.Mongodb.Top.{export_top_stats_map}
use exporter_plus.Mongodb.Pools.{export_conn_pool_stats}
use exporter_plus.Mongodb.Databases.{export_profile_status}
use exporter_plus.Mongodb.Collector.{
  MongodbCollectorOpts, Listing, Session, collect_database_status, collect_collections_of,
  collect_collection_status, collect_profile_of, collect_profile_status, collect_repl_set_status,
  collect_session,
}
use exporter_plus.Mongodb.Collector.Sections.{
  has_shards, has_hosts, every_database, if_enabled, database_returns, oplog_returns, pools_return,
  collection_returns, for_databases_return, for_databases_always, returns-enabled,
  returns-enabled_always,
}

module _ {F : Type 0} (s : Session F) where
  databases_return :
      returns (collect_database_status s)
      ≡ if_any
          (s.database_names Listing.of_databases)
          (every_database (λ db. if_any (s.db_stats db) has_shards))
  unfolding collect_database_status
  databases_return =
      for_databases_return (s.database_names Listing.of_databases) _ _
        (λ db. returns-when (s.db_stats db) _ has_shards (database_returns F))

  collections_return : returns (collect_collection_status s) ≡ true
  unfolding collect_collection_status collect_collections_of
  collections_return = for_databases_always (s.database_names Listing.of_collections) _ (λ db.
      returns-when_always (s.collection_names db) _ (
        returns-map_always _
          (λ name. returns-when_always (s.coll_stats db name) _ collection_returns)))

  profiles_return : returns (collect_profile_status s) ≡ true
  unfolding collect_profile_status collect_profile_of export_profile_status
  profiles_return =
      for_databases_always (s.database_names Listing.of_profiles) _
        (λ db. returns-when_always (s.slow_queries db) _ (λ _. refl))

  repl_set_returns : returns (collect_repl_set_status s) ≡ true
  unfolding collect_repl_set_status export_repl_set_conf
  repl_set_returns =
      returns-sequence _
      ∙ ground (
        arith,
        returns-when_always s.repl_set_status (λ s. ok (repl_set_calls s)) (λ _. refl),
        returns-when_always s.repl_set_config (export_repl_set_conf {F = F}) (λ _. refl),
      )

  -- A collection from a session returns exactly if the server status is complete; each database that
  -- is not passed over has statistics for all the shards that it names, where the databases are
  -- collected; and the pools have those of all the hosts that they name, where they are collected.
  -- Else it panics: no other section can.
  pub returns-collect_session :
      (opts : MongodbCollectorOpts)
      → returns (collect_session s opts) ≡ (
          if_any s.server_status is_complete
          && (if_enabled opts.collect_database_metrics (
                if_any
                  (s.database_names Listing.of_databases)
                  (every_database (λ db. if_any (s.db_stats db) has_shards)))
              && if_enabled opts.collect_conn_pool_stats (if_any s.conn_pool_stats has_hosts)))
  unfolding collect_session export_top_stats_map
  returns-collect_session opts =
      returns-sequence _
      ∙ ground (
        arith,
        returns-when s.server_status export_server_status is_complete returns-export_server_status,
        returns-enabled_always opts.collect_repl_set _ repl_set_returns,
        returns-enabled_always opts.collect_oplog _
            (returns-when_always (get_oplog_status s.oplog) oplog_calls oplog_returns),
        returns-enabled_always opts.tail_oplog (ok tail_calls) refl,
        returns-enabled_always opts.collect_top_metrics _
            (returns-when_always s.top export_top_stats_map (λ _. refl)),
        returns-enabled opts.collect_database_metrics _ _ databases_return,
        returns-enabled_always opts.collect_collection_metrics _ collections_return,
        returns-enabled_always opts.collect_profile_metrics _ profiles_return,
        returns-enabled opts.collect_conn_pool_stats _ _
            (returns-when s.conn_pool_stats export_conn_pool_stats has_hosts pools_return),
      )
