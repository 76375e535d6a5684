-- ===== src/Kafka/Config.antt =====
-- CanReadCertAndKey and NewExporter of collector/kafka/collector.go.
pub mod Laws
use exporter_plus.Prelude.{
  String, Bool, true, false, not, ◌&&◌, Option, none, some, List, [], ◌∷◌, if◌then◌else◌,
}
use exporter_plus.Prelude.Int.{ℤ}
use exporter_plus.Prelude.Text.{append, is_empty}
use exporter_plus.Prelude.Outcome.{Outcome, ok, err, panic, ◌>>=◌}
use exporter_plus.Kafka.Types.{Client, Exporter}

-- KafkaOpts
pub record KafkaOpts : Type 0 where
  pub uri : List String
  pub use_sasl : Bool
  pub use_sasl_handshake : Bool
  pub sasl_username : String
  pub sasl_password : String
  pub use_tls : Bool
  pub tls_ca_file : String
  pub tls_cert_file : String
  pub tls_key_file : String
  pub tls_insecure_skip_tls_verify : Bool
  pub kafka_version : String
  pub use_zookeeper_lag : Bool
  pub uri_zookeeper : List String
  pub labels : String
  pub metadata_refresh_interval : String

-- The parts of sarama.Config that are set: V is its version, P a certificate pair.
pub record Tls (P : Type 0) : Type 0 where
  pub root_cas : List String
  pub insecure_skip_verify : Bool
  pub certificates : List P

pub record Config (V P : Type 0) : Type 0 where
  pub client_id : String
  pub version : V
  pub sasl_enable : Bool
  pub sasl_handshake : Bool
  pub sasl_user : String
  pub sasl_password : String
  pub tls : Option (Tls P)
  pub refresh_frequency : ℤ

-- The packages that NewExporter calls; `none` is an error. A client is made, or there is an error
-- and the client is nil.
pub record Packages (V P : Type 0) : Type 0 where
  pub new_config : Config V P
  pub parse_kafka_version : String → Option V
  pub read_file : String → Option String
  pub can_open : String → Bool
  pub load_key_pair : String → String → Option P
  pub parse_duration : String → Option ℤ
  pub new_client : List String → Config V P → Option Client
  pub compile : String → Option (String → Bool)
  pub now : ℤ

module _ {V P : Type 0} (packages : Packages V P) where
  abbrev pub pair_error : String → Outcome Bool
  pair_error path =
      err (append "error reading " (append path ", certificate and key must be supplied as a pair"))

  -- CanReadCertAndKey
  unfoldable pub can_read_cert_and_key : String → String → Outcome Bool
  can_read_cert_and_key cert_path key_path =
      let cert_readable = packages.can_open cert_path in
      let key_readable = packages.can_open key_path in
      if not cert_readable && not key_readable
      then ok false
      else if not cert_readable
      then pair_error cert_path
      else if not key_readable
      then pair_error key_path
      else ok true

  abbrev if_set : String → String → String
  if_set value old = if is_empty value then old else value

  -- the settings of SASL
  unfoldable pub with_sasl : KafkaOpts → Config V P → Config V P
  with_sasl opts config =
      if opts.use_sasl
      then record config {
        sasl_enable = true;
        sasl_handshake = opts.use_sasl_handshake;
        sasl_user = if_set opts.sasl_username config.sasl_user;
        sasl_password = if_set opts.sasl_password config.sasl_password;
      }
      else config

  -- Log.Fatalln ends the process, as a panic does here.
  abbrev or_fatal : {A : Type 0} → Option A → Outcome A
  or_fatal none = panic "fatal"
  or_fatal (some a) = ok a

  abbrev fatal_error : {A : Type 0} → Outcome A → Outcome A
  fatal_error (err e) = panic e
  fatal_error o = o

  unfoldable pub root_cas : String → Outcome (List String)
  root_cas path =
      if is_empty path then ok [] else (do ca ← or_fatal (packages.read_file path); ok (ca ∷ []))

  unfoldable pub certificates : String → String → Bool → Outcome (List P)
  certificates cert_path key_path readable =
      if readable
      then (do pair ← or_fatal (packages.load_key_pair cert_path key_path); ok (pair ∷ []))
      else ok []

  -- the settings of TLS
  unfoldable pub with_tls : KafkaOpts → Config V P → Outcome (Config V P)
  unfolding root_cas certificates can_read_cert_and_key
  with_tls opts config =
      if opts.use_tls
      then (do
        roots ← root_cas opts.tls_ca_file
        readable ← fatal_error (can_read_cert_and_key opts.tls_cert_file opts.tls_key_file)
        pairs ← certificates opts.tls_cert_file opts.tls_key_file readable
        ok (record config {
          tls = some (record {
            root_cas = roots;
            insecure_skip_verify = opts.tls_insecure_skip_tls_verify;
            certificates = pairs;
          });
        }))
      else ok config

  abbrev or_panic : {A : Type 0} → String → Option A → Outcome A
  or_panic e none = panic e
  or_panic e (some a) = ok a

  abbrev or_err : {A : Type 0} → String → Option A → Outcome A
  or_err e none = err e
  or_err e (some a) = ok a

  -- NewExporter. Where there is no client, the call of its method Topics panics, before the error
  -- is looked at. The error of NewKazoo is not looked at.
  unfoldable pub new_exporter :
      KafkaOpts → String → String → Outcome (Client × (Config V P × Exporter))
  unfolding with_sasl with_tls
  new_exporter opts topic_filter group_filter = do
    version ← or_err "invalid version" (packages.parse_kafka_version opts.kafka_version)
    config ← with_tls opts (
        with_sasl opts
          (record packages.new_config { client_id = "kafka_exporter"; version = version }))
    interval ← or_panic "invalid duration" (packages.parse_duration opts.metadata_refresh_interval)
    let configured = record config { refresh_frequency = interval }
    client ← or_panic "nil pointer dereference" (packages.new_client opts.uri configured)
    topics ← or_panic "regexp: Compile" (packages.compile topic_filter)
    groups ← or_panic "regexp: Compile" (packages.compile group_filter)
    ok (
      client,
      (
        configured,
        record {
          topic_filter = topics;
          group_filter = groups;
          use_zookeeper_lag = opts.use_zookeeper_lag;
          next_metadata_refresh = packages.now;
          metadata_refresh_interval = interval;
        },
      ),
    )
