-- ===== src/Mongodb/Collector.antt =====
-- collector/mongodb/mongodb_collector.go: which statistics a collection exports, by the options. What
-- the server answers is a parameter; a command that fails gives nothing, and its error is logged.
pub mod Complete
pub mod Fits
pub mod Databases
pub mod Sections
use exporter_plus.Prelude.{
  String, Bool, true, false, ◌||◌, Option, none, some, List, [], ◌∷◌, ◌++◌, map, str_eq,
  if◌then◌else◌,
}
use exporter_plus.Prelude.Int.{ℤ, pos}
use exporter_plus.Prelude.GoMap.{GoMap}
use exporter_plus.Mongodb.Calls.{ok}
use exporter_plus.Shared.Connection.{MongoSessionOpts}
use exporter_plus.Mongodb.Calls.{
  Vec, gauge_vec, int, Call, set, collect, reset, Trace, sequence, when, concat,
}
use exporter_plus.Mongodb.Server.{ServerStatus, export_server_status, describe_server_status}
use exporter_plus.Mongodb.ReplSet.{ReplSetStatus}
use exporter_plus.Mongodb.ReplSet.Calls.{repl_set_calls, describe_repl_set_status}
use exporter_plus.Mongodb.ReplConf.{ReplSetConf, export_repl_set_conf, describe_repl_set_conf}
use exporter_plus.Mongodb.Oplog.{get_oplog_status}
use exporter_plus.Mongodb.Oplog as Oplog
use exporter_plus.Mongodb.Oplog.Calls.{oplog_calls}
use exporter_plus.Mongodb.Tail.{tail_calls}
use exporter_plus.Mongodb.Top.{TopStats, export_top_stats_map, describe_top_stats_map}
use exporter_plus.Mongodb.Databases.{
  DatabaseStatus, ProfileStatus, export_database_status, describe_database_status,
  export_profile_status,
}
use exporter_plus.Mongodb.Collections.{CollectionStatus, export_collection_status}
use exporter_plus.Mongodb.Pools.{ConnPoolStats, export_conn_pool_stats}

-- MongodbCollectorOpts
pub record MongodbCollectorOpts : Type 0 where
  pub uri : String
  pub tls_certificate_file : String
  pub tls_private_key_file : String
  pub tls_ca_file : String
  pub tls_hostname_validation : Bool
  pub collect_repl_set : Bool
  pub collect_oplog : Bool
  pub tail_oplog : Bool
  pub collect_top_metrics : Bool
  pub collect_database_metrics : Bool
  pub collect_collection_metrics : Bool
  pub collect_profile_metrics : Bool
  pub collect_conn_pool_stats : Bool
  pub user_name : String
  pub auth_mechanism : String
  pub socket_timeout : ℤ

-- toSessionOps
unfoldable pub to_session_ops : MongodbCollectorOpts → MongoSessionOpts
to_session_ops opts = record {
  uri = opts.uri;
  tls_certificate_file = opts.tls_certificate_file;
  tls_private_key_file = opts.tls_private_key_file;
  tls_ca_file = opts.tls_ca_file;
  tls_hostname_validation = opts.tls_hostname_validation;
  user_name = opts.user_name;
  auth_mechanism = opts.auth_mechanism;
  socket_timeout = opts.socket_timeout;
}

-- The three sections that list the databases.
pub data Listing : Type 0 where
  of_databases of_collections of_profiles : Listing

-- What the server answers during a collection; `none` is an error.
pub record Session (F : Type 0) : Type 0 where
  pub server_status : Option (ServerStatus F)
  pub repl_set_status : Option (ReplSetStatus F)
  pub repl_set_config : Option ReplSetConf
  pub oplog : Oplog.Session F
  pub top : Option (GoMap (TopStats F))
  pub database_names : Listing → Option (List String)
  pub db_stats : String → Option DatabaseStatus
  pub collection_names : String → Option (List String)
  pub coll_stats : String → String → Option (CollectionStatus F)
  pub slow_queries : String → Option ℤ
  pub conn_pool_stats : Option (ConnPoolStats F)

abbrev pub up_gauge : Vec
up_gauge = gauge_vec "" "up" "To show if we can connect to mongodb instance" []

abbrev pub up_calls : {F : Type 0} → ℤ → Trace F
up_calls up = ok (set up_gauge [] (int up) ∷ collect up_gauge ∷ reset up_gauge ∷ [])

-- the databases that the loops pass over
abbrev pub is_skipped : String → Bool
is_skipped db = str_eq db "admin" || str_eq db "test"

module _ {F : Type 0} where
  -- if exporter.Opts.… { … }
  abbrev pub enabled : Bool → Trace F → Trace F
  enabled true t = t
  enabled false t = ok []

  abbrev pub database_calls : (String → Trace F) → String → Trace F
  database_calls f db = if is_skipped db then ok [] else f db

  abbrev pub for_databases : Option (List String) → (String → Trace F) → Trace F
  for_databases names f = when names (λ all. sequence (map (database_calls f) all))

module _ {F : Type 0} (session : Session F) where
  -- collectDatabaseStatus
  unfoldable pub collect_database_status : Trace F
  collect_database_status =
      for_databases (session.database_names Listing.of_databases)
        (λ db. when (session.db_stats db) export_database_status)

  -- CollectCollectionStatus
  unfoldable pub collect_collections_of : String → Trace F
  collect_collections_of db = when (session.collection_names db) (λ names.
      sequence (map (λ name. when (session.coll_stats db name) export_collection_status) names))

  -- collectCollectionStatus
  unfoldable pub collect_collection_status : Trace F
  collect_collection_status =
      for_databases (session.database_names Listing.of_collections) collect_collections_of

  -- CollectProfileStatus
  unfoldable pub collect_profile_of : String → Trace F
  collect_profile_of db =
      when (session.slow_queries db)
        (λ count. export_profile_status (record { name = db; count = count }))

  -- collectProfileStatus
  unfoldable pub collect_profile_status : Trace F
  collect_profile_status =
      for_databases (session.database_names Listing.of_profiles) collect_profile_of

  -- collectReplSetStatus and collectReplSetConf
  unfoldable pub collect_repl_set_status : Trace F
  collect_repl_set_status = sequence (
      when session.repl_set_status (λ s. ok (repl_set_calls s))
      ∷ when session.repl_set_config export_repl_set_conf
      ∷ [])

  -- what is collected from a session
  unfoldable pub collect_session : MongodbCollectorOpts → Trace F
  collect_session opts = sequence (
      up_calls (pos 1)
      ∷ when session.server_status export_server_status
      ∷ enabled opts.collect_repl_set collect_repl_set_status
      ∷ enabled opts.collect_oplog (when (get_oplog_status session.oplog) oplog_calls)
      ∷ enabled opts.tail_oplog (ok tail_calls)
      ∷ enabled opts.collect_top_metrics (when session.top export_top_stats_map)
      ∷ enabled opts.collect_database_metrics collect_database_status
      ∷ enabled opts.collect_collection_metrics collect_collection_status
      ∷ enabled opts.collect_profile_metrics collect_profile_status
      ∷ enabled opts.collect_conn_pool_stats (when session.conn_pool_stats export_conn_pool_stats)
      ∷ [])

module _ {F : Type 0} (mongo_session : MongoSessionOpts → Option (Session F)) where
  -- Collect, from the session or from nil
  abbrev pub collect_from : MongodbCollectorOpts → Option (Session F) → Trace F
  collect_from opts none = up_calls (pos 0)
  collect_from opts (some session) = collect_session session opts

  -- Collect
  unfoldable pub collect_mongodb : MongodbCollectorOpts → Trace F
  collect_mongodb opts = collect_from opts (mongo_session (to_session_ops opts))

-- Describe, which describes empty statistics; a described field's value plays no part
unfoldable pub describe_mongodb :
    {F : Type 0} → ServerStatus F → DatabaseStatus → MongodbCollectorOpts → List Vec
describe_mongodb {F} empty_status empty_database opts = concat (
    describe_server_status empty_status
    ∷ describe_repl_set_status
    ∷ describe_repl_set_conf
    ∷ describe_database_status empty_database
    ∷ (if opts.collect_top_metrics then describe_top_stats_map {F = F} [] else [])
    ∷ [])
