-- ===== src/Kafka/Collect.antt =====
-- Describe and Collect of collector/kafka/collector.go. The goroutines of the topics, and after
-- them those of the brokers, are taken one after another.
pub mod Laws
pub mod Fits
use exporter_plus.Prelude.{
  ℕ, String, Bool, true, false, Option, none, some, List, [], ◌∷◌, ◌++◌, length, if◌then◌else◌,
}
use exporter_plus.Prelude.Int.{ℤ, pos, ltb_ℤ, add64}
use exporter_plus.Prelude.GoMap.{GoMap, insert}
use exporter_plus.Kafka.Types.{
  Family, cluster_brokers, topic_partitions, topic_current_offset, topic_oldest_offset,
  topic_partition_leader, topic_partition_replicas, topic_partition_in_sync_replicas,
  topic_partition_uses_preferred_replica, topic_under_replicated_partition,
  consumergroup_current_offset, consumergroup_current_offset_sum, consumergroup_lag,
  consumergroup_lag_sum, consumergroup_lag_zookeeper, Gauge, Partitions, Broker, Client, Exporter,
}
use exporter_plus.Kafka.Topics.{TopicRun, get_topic_metrics}
use exporter_plus.Kafka.Groups.{Offsets, get_consumer_group_metrics}

-- Describe
unfoldable pub describe : List Family
describe =
    cluster_brokers ∷ topic_current_offset ∷ topic_oldest_offset ∷ topic_partitions
    ∷ topic_partition_leader ∷ topic_partition_replicas ∷ topic_partition_in_sync_replicas
    ∷ topic_partition_uses_preferred_replica ∷ topic_under_replicated_partition
    ∷ consumergroup_current_offset ∷ consumergroup_current_offset_sum ∷ consumergroup_lag
    ∷ consumergroup_lag_zookeeper ∷ consumergroup_lag_sum ∷ []

-- the gauges of the topics, and the map of offsets
pub record TopicsRun : Type 0 where
  pub gauges : List Gauge
  pub offsets : Offsets

abbrev pub enter : String → Option (Partitions ℤ) → Offsets → Offsets
enter topic none offsets = offsets
enter topic (some partitions) offsets = insert topic partitions offsets

-- the loop over the topics, from a map of offsets on
unfoldable pub all_topics : Exporter → Client → List String → Offsets → TopicsRun
all_topics e client [] offsets = record { gauges = []; offsets = offsets }
all_topics e client (topic ∷ topics) offsets =
    let run = get_topic_metrics e client topic in
    let rest = all_topics e client topics (enter topic run.offsets offsets) in
    record rest { gauges = run.gauges ++ rest.gauges }

-- the loop over the brokers
unfoldable pub all_brokers : Exporter → Offsets → List Broker → List Gauge
all_brokers e offsets [] = []
all_brokers e offsets (broker ∷ brokers) =
    get_consumer_group_metrics e offsets broker ++ all_brokers e offsets brokers

-- The exporter and the client after the metadata has been refreshed, if it was due. `refresh` is
-- the client's RefreshMetadata, which leaves the client as it is if there is an error.
unfoldable pub refreshed : ℤ → (Client → Client) → Exporter → Client → Exporter × Client
refreshed now refresh e client =
    if ltb_ℤ e.next_metadata_refresh now
    then (
      record e { next_metadata_refresh = add64 now e.metadata_refresh_interval },
      refresh client,
    )
    else (e, client)

abbrev with_topics : Exporter → Client → Option (List String) → List Gauge
with_topics e client none = []
with_topics e client (some topics) =
    let run = all_topics e client topics [] in
    run.gauges ++ all_brokers e run.offsets client.brokers

-- Collect
unfoldable pub collect : ℤ → (Client → Client) → Exporter → Client → List Gauge × Exporter
unfolding all_topics all_brokers refreshed
collect now refresh e client =
    let (e', client') = refreshed now refresh e client in
    (
      record { family = cluster_brokers; value = pos (length client.brokers); label_values = [] }
          ∷ with_topics e' client' client'.topics,
      e',
    )
