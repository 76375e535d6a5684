-- ===== src/Mongodb/Collector/Fits.antt =====
-- The label values of a whole collection.
use exporter_plus.Prelude.{
  String, Bool, true, false, Option, none, some, List, refl, ◌&◌, Bool-cases, inl, inr,
}
use exporter_plus.Shared.Connection.{MongoSessionOpts}
use exporter_plus.Mongodb.Calls.{Trace}
use exporter_plus.Mongodb.Calls.Fits.{IsFit, sequence-IsFit, when-IsFit, All-IsFit-map}
use exporter_plus.Mongodb.Server.Fits.{export_server_status-IsFit}
use exporter_plus.Mongodb.ReplSet.Calls.{repl_set_calls-IsFit}
use exporter_plus.Mongodb.ReplConf.Fits.{export_repl_set_conf-IsFit}
use exporter_plus.Mongodb.Oplog.{get_oplog_status}
use exporter_plus.Mongodb.Oplog.Calls.{oplog_calls-IsFit}
use exporter_plus.Mongodb.Top.Fits.{export_top_stats_map-IsFit}
use exporter_plus.Mongodb.Databases.Fits.{export_database_status-IsFit, export_profile_status-IsFit}
use exporter_plus.Mongodb.Collections.Fits.{export_collection_status-IsFit}
use exporter_plus.Mongodb.Pools.Fits.{export_conn_pool_stats-IsFit}
use exporter_plus.Mongodb.Collector.{
  MongodbCollectorOpts, Listing, Session, is_skipped, enabled, database_calls, for_databases,
  collect_database_status, collect_collections_of, collect_collection_status, collect_profile_of,
  collect_profile_status, collect_repl_set_status, collect_session, collect_from, collect_mongodb,
  to_session_ops,
}

module _ {F : Type 0} where
  enabled-IsFit : (b : Bool) (t : Trace F) → IsFit t → IsFit (enabled b t)
  enabled-IsFit true t h = h
  enabled-IsFit false t h = refl

  database_calls-IsFit :
      (f : String → Trace F)
      → ((db : String) → IsFit (f db))
      → (db : String) → IsFit (database_calls f db)
  database_calls-IsFit f h db = elim (Bool-cases (is_skipped db)) [
    | inl e ↦ rw e refl
    | inr e ↦ rw e (h db)
  ]

  for_databases-IsFit :
      (names : Option (List String)) (f : String → Trace F)
      → ((db : String) → IsFit (f db))
      → IsFit (for_databases names f)
  for_databases-IsFit names f h =
      when-IsFit names _
        (λ all. sequence-IsFit _ (All-IsFit-map (database_calls f) (database_calls-IsFit f h) all))

module _ {F : Type 0} (session : Session F) where
  collect_database_status-IsFit : IsFit (collect_database_status session)
  unfolding collect_database_status
  collect_database_status-IsFit =
      for_databases-IsFit (session.database_names Listing.of_databases) _
        (λ db. when-IsFit (session.db_stats db) _ (export_database_status-IsFit F))

  collect_collections_of-IsFit : (db : String) → IsFit (collect_collections_of session db)
  unfolding collect_collections_of
  collect_collections_of-IsFit db = when-IsFit (session.collection_names db) _ (λ names.
      sequence-IsFit _ (
        All-IsFit-map _
          (λ name. when-IsFit (session.coll_stats db name) _ export_collection_status-IsFit) names))

  collect_profile_of-IsFit : (db : String) → IsFit (collect_profile_of session db)
  unfolding collect_profile_of
  collect_profile_of-IsFit db =
      when-IsFit (session.slow_queries db) _ (λ count. export_profile_status-IsFit F _)

  collect_repl_set_status-IsFit : IsFit (collect_repl_set_status session)
  unfolding collect_repl_set_status
  collect_repl_set_status-IsFit = sequence-IsFit _ (
      when-IsFit session.repl_set_status _ repl_set_calls-IsFit
      & when-IsFit session.repl_set_config _ (export_repl_set_conf-IsFit F)
      & tt)

  collect_session-IsFit : (opts : MongodbCollectorOpts) → IsFit (collect_session session opts)
  unfolding collect_session collect_collection_status collect_profile_status
  collect_session-IsFit opts = sequence-IsFit _ (
      refl
      & when-IsFit session.server_status _ export_server_status-IsFit
      & enabled-IsFit opts.collect_repl_set _ collect_repl_set_status-IsFit
      & enabled-IsFit opts.collect_oplog _
          (when-IsFit (get_oplog_status session.oplog) _ oplog_calls-IsFit)
      & enabled-IsFit opts.tail_oplog _ refl
      & enabled-IsFit opts.collect_top_metrics _
          (when-IsFit session.top _ export_top_stats_map-IsFit)
      & enabled-IsFit opts.collect_database_metrics _ collect_database_status-IsFit
      & enabled-IsFit opts.collect_collection_metrics _ (
          for_databases-IsFit (session.database_names Listing.of_collections) _
            collect_collections_of-IsFit)
      & enabled-IsFit opts.collect_profile_metrics _ (
          for_databases-IsFit (session.database_names Listing.of_profiles) _
            collect_profile_of-IsFit)
      & enabled-IsFit opts.collect_conn_pool_stats _
          (when-IsFit session.conn_pool_stats _ export_conn_pool_stats-IsFit)
      & tt)

collect_from-IsFit :
    {F : Type 0} (mongo_session : MongoSessionOpts → Option (Session F))
    (opts : MongodbCollectorOpts) (s : Option (Session F))
    → IsFit (collect_from mongo_session opts s)
collect_from-IsFit mongo_session opts none = refl
collect_from-IsFit mongo_session opts (some s) = collect_session-IsFit s opts

-- Whatever the server answers and whichever options are set, every gauge and summary that a
-- collection sets has exactly as many label values as its vector has labels, also where the collection
-- then panics.
pub collect_mongodb-IsFit :
    {F : Type 0} (mongo_session : MongoSessionOpts → Option (Session F))
    (opts : MongodbCollectorOpts)
    → IsFit (collect_mongodb mongo_session opts)
unfolding collect_mongodb
collect_mongodb-IsFit mongo_session opts =
    collect_from-IsFit mongo_session opts (mongo_session (to_session_ops opts))
