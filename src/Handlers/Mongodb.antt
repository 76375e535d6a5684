-- ===== src/Handlers/Mongodb.antt =====
-- handlers/mongodbhandler.go: the flags of the MongoDB handler, and the options that it makes of them.
use exporter_plus.Prelude.{String, Bool, not}
use exporter_plus.Prelude.Int.{ℤ}
use exporter_plus.Mongodb.Collector.{MongodbCollectorOpts}

-- The values of the flags.
pub record MongodbFlags : Type 0 where
  pub uri : String
  pub tls_cert : String
  pub tls_private_key : String
  pub tls_ca : String
  pub user_name : String
  pub auth_mechanism : String
  pub tls_disable_hostname_validation : Bool
  pub oplog : Bool
  pub oplog_tail : Bool
  pub replset : Bool
  pub top : Bool
  pub database : Bool
  pub collection : Bool
  pub profile : Bool
  pub connpoolstats : Bool
  pub socket_timeout : ℤ

-- NewMongodbHandler, up to the collector
unfoldable pub mongodb_opts_of : MongodbFlags → MongodbCollectorOpts
mongodb_opts_of flags = record {
  uri = flags.uri;
  tls_certificate_file = flags.tls_cert;
  tls_private_key_file = flags.tls_private_key;
  tls_ca_file = flags.tls_ca;
  tls_hostname_validation = not flags.tls_disable_hostname_validation;
  collect_repl_set = flags.replset;
  collect_oplog = flags.oplog;
  tail_oplog = flags.oplog_tail;
  collect_top_metrics = flags.top;
  collect_database_metrics = flags.database;
  collect_collection_metrics = flags.collection;
  collect_profile_metrics = flags.profile;
  collect_conn_pool_stats = flags.connpoolstats;
  user_name = flags.user_name;
  auth_mechanism = flags.auth_mechanism;
  socket_timeout = flags.socket_timeout;
}
