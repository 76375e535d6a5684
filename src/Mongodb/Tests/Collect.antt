-- ===== src/Mongodb/Tests/Collect.antt =====
-- The theorems on a whole MongoDB collection at a concrete server.
use exporter_plus.Prelude.{ℕ, String, Bool, true, str_eq, Option, none, some, [], ◌∷◌, ◌≡◌}
use exporter_plus.Prelude.Int.{ℤ, pos}
use exporter_plus.Shared.Connection.{MongoSessionOpts}
use exporter_plus.Mongodb.Calls.Fits.{IsFit}
use exporter_plus.Mongodb.Databases.{DatabaseStatus}
use exporter_plus.Mongodb.Collector.{
  MongodbCollectorOpts, Session, collect_session, collect_mongodb,
}
use exporter_plus.Mongodb.Collector.Fits.{collect_mongodb-IsFit}
use exporter_plus.Mongodb.Calls.Returns.{returns}
use exporter_plus.Mongodb.Collector.Complete.{returns-collect_session}
use exporter_plus.Mongodb.Collector.Databases.{without_skipped, collect_session-without}

abbrev all_options : MongodbCollectorOpts
all_options = record {
  uri = "mongodb://localhost:27017";
  tls_certificate_file = "";
  tls_private_key_file = "";
  tls_ca_file = "";
  tls_hostname_validation = true;
  collect_repl_set = true;
  collect_oplog = true;
  tail_oplog = true;
  collect_top_metrics = true;
  collect_database_metrics = true;
  collect_collection_metrics = true;
  collect_profile_metrics = true;
  collect_conn_pool_stats = true;
  user_name = "";
  auth_mechanism = "";
  socket_timeout = pos 0;
}

abbrev no_oplog_end : Bool → ℕ → Option ℤ
no_oplog_end tail n = none

abbrev sizes_of : String → Option DatabaseStatus
sizes_of db = some (record {
  name = db;
  index_size = pos 1;
  data_size = pos 2;
  collections = pos 3;
  objects = pos 4;
  indexes = pos 5;
  shards = [];
})

abbrev mongod : Session ℕ
mongod = record {
  server_status = none;
  repl_set_status = none;
  repl_set_config = some (record { id = "rs0"; version = pos 1; members = [] });
  oplog = record { oplog_end = no_oplog_end; coll_stats = none };
  top = some [];
  database_names = λ listing. some ("admin" ∷ "shop" ∷ []);
  db_stats = sizes_of;
  collection_names = λ db. some ("carts" ∷ []);
  coll_stats = λ db name. none;
  slow_queries = λ db. some (pos 2);
  conn_pool_stats = none;
}

abbrev connects : MongoSessionOpts → Option (Session ℕ)
connects opts = some mongod

collect_mongodb-IsFit_example : IsFit (collect_mongodb connects all_options)
collect_mongodb-IsFit_example = collect_mongodb-IsFit connects all_options

collect_session-without_example :
    collect_session mongod all_options ≡ collect_session (without_skipped mongod) all_options
collect_session-without_example = collect_session-without mongod all_options

returns-collect_session_example : returns (collect_session mongod all_options) ≡ true
unfolding str_eq
returns-collect_session_example = returns-collect_session mongod all_options
