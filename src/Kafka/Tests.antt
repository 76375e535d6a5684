-- ===== src/Kafka/Tests.antt =====
-- The theorems on the Kafka exporter at concrete inputs: a cluster of one topic with two partitions,
-- one of which has lost a replica.
use exporter_plus.Prelude.{ℕ, String, true, false, ◌≡◌, refl, none, some, [], ◌∷◌, arith, All}
use exporter_plus.Prelude.Int.{ℤ, pos, negsuc}
use exporter_plus.Prelude.GoMap.{GoMap}
use exporter_plus.Prelude.GoMap.Laws.{AllEntries}
use exporter_plus.Kafka.Types.{Block, Partitions, Broker, Client, Exporter}
use exporter_plus.Kafka.Gauges.{values, sum64}
use exporter_plus.Kafka.Topics.{partition_gauges}
use exporter_plus.Kafka.Topics.Laws.{Says, LeaderIsPreferred, IsUnderReplicated, partition_flags}
use exporter_plus.Kafka.Groups.{Offsets, is_absent, topic_consumed, consumed_topic}
use exporter_plus.Kafka.Groups.Laws.{lags, consumed_topic_sums}
use exporter_plus.Kafka.Config.{KafkaOpts, Config, Packages, new_exporter}
use exporter_plus.Kafka.Config.Laws.{IsPaired, new_exporter-IsPaired}
use exporter_plus.Kafka.Descs.Laws.{IsPlain}
use exporter_plus.Kafka.Collect.{collect}
use exporter_plus.Kafka.Collect.Fits.{Fits, collect-Fits}

abbrev blocks : Partitions Block
blocks =
    (pos 0, record { offset = pos 40; failed = false })
    ∷ (pos 1, record { offset = negsuc 0; failed = false })
    ∷ []

abbrev broker : Broker
broker = record {
  opens = true;
  list_groups = some ("billing" ∷ []);
  describe_groups = λ ids. some (record { group_id = "billing"; members = 2 } ∷ []);
  fetch_offset = λ group asked. some (("orders", blocks) ∷ []);
}

abbrev client : Client
client = record {
  brokers = broker ∷ [];
  topics = some ("orders" ∷ []);
  partitions = λ topic. some (pos 0 ∷ pos 1 ∷ []);
  leader = λ topic partition. some (pos 7);
  newest = λ topic partition. record { value = pos 50; failed = false };
  oldest = λ topic partition. record { value = pos 0; failed = true };
  replicas = λ topic partition. record { value = some (pos 7 ∷ pos 8 ∷ []); failed = false };
  in_sync_replicas = λ topic partition. record { value = some (pos 7 ∷ []); failed = true };
  zookeeper_groups = [];
}

abbrev exporter : Exporter
exporter = record {
  topic_filter = λ topic. true;
  group_filter = λ group. true;
  use_zookeeper_lag = true;
  next_metadata_refresh = pos 100;
  metadata_refresh_interval = pos 30;
}

partition_flags_example :
    Says
      (values 7 (partition_gauges exporter client "orders" (pos 1)))
      (LeaderIsPreferred (some (pos 7)) (some (pos 7 ∷ pos 8 ∷ [])))
    × Says
        (values 8 (partition_gauges exporter client "orders" (pos 1)))
        (IsUnderReplicated (some (pos 7 ∷ pos 8 ∷ [])) (some (pos 7 ∷ [])))
partition_flags_example = partition_flags exporter client "orders" (pos 1)

abbrev offsets : Offsets
offsets = ("orders", (pos 0, pos 50) ∷ (pos 1, pos 50) ∷ []) ∷ []

consumed_topic_sums_example :
    (topic_consumed blocks ≡ true
      → (values 10 (consumed_topic "billing" "orders" offsets blocks)
          ≡ sum64 (pos 0) (values 9 (consumed_topic "billing" "orders" offsets blocks)) ∷ [])
        × (values 12 (consumed_topic "billing" "orders" offsets blocks)
            ≡ sum64 (pos 0) (lags "billing" "orders" offsets blocks) ∷ []))
    × (All (λ (b : ℤ × Block). is_absent b.1.offset ≡ true) blocks
        → consumed_topic "billing" "orders" offsets blocks ≡ [])
consumed_topic_sums_example = consumed_topic_sums "billing" "orders" offsets blocks

abbrev no_config : Config ℕ String
no_config = record {
  client_id = "";
  version = 0;
  sasl_enable = false;
  sasl_handshake = false;
  sasl_user = "";
  sasl_password = "";
  tls = none;
  refresh_frequency = pos 0;
}

abbrev packages : Packages ℕ String
packages = record {
  new_config = no_config;
  parse_kafka_version = λ s. some 1;
  read_file = λ path. none;
  can_open = λ path. true;
  load_key_pair = λ cert key. some cert;
  parse_duration = λ s. some (pos 30);
  new_client = λ uri config. some client;
  compile = λ s. some (λ t. true);
  now = pos 5;
}

abbrev opts : KafkaOpts
opts = record {
  uri = "kafka:9092" ∷ [];
  use_sasl = true;
  use_sasl_handshake = true;
  sasl_username = "me";
  sasl_password = "";
  use_tls = true;
  tls_ca_file = "";
  tls_cert_file = "a.crt";
  tls_key_file = "a.key";
  tls_insecure_skip_tls_verify = false;
  kafka_version = "1.0.0";
  use_zookeeper_lag = false;
  uri_zookeeper = [];
  labels = "";
  metadata_refresh_interval = "30s";
}

abbrev made : Config ℕ String
made = record {
  client_id = "kafka_exporter";
  version = 1;
  sasl_enable = true;
  sasl_handshake = true;
  sasl_user = "me";
  sasl_password = "";
  tls = some (record { root_cas = []; insecure_skip_verify = false; certificates = "a.crt" ∷ [] });
  refresh_frequency = pos 30;
}

abbrev started : Exporter
started = record {
  topic_filter = λ t. true;
  group_filter = λ t. true;
  use_zookeeper_lag = false;
  next_metadata_refresh = pos 5;
  metadata_refresh_interval = pos 30;
}

new_exporter-IsPaired_example :
    IsPaired packages opts made.tls × (pos 30 ≡ pos 30) × (pos 5 ≡ pos 5)
unfolding new_exporter
new_exporter-IsPaired_example =
    new_exporter-IsPaired packages opts ".*" ".*" client made started refl refl

abbrev labels : GoMap String
labels = ("zone", "eu") ∷ ("tier", "") ∷ []

labels-IsPlain : AllEntries IsPlain labels
labels-IsPlain = ground arith

collect-Fits_example : All (Fits (λ a b c. c) []) (collect (pos 120) (λ c. c) exporter client).0
collect-Fits_example = collect-Fits (λ a b c. c) [] (pos 120) (λ c. c) exporter client
