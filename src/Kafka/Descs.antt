-- ===== src/Kafka/Descs.antt =====
-- The descriptors that NewKafkaHandler of handlers/kafkahandler.go makes, and the flag of labels.
pub mod Laws
use exporter_plus.Prelude.{String, Option, none, some, List, [], ◌∷◌, if◌then◌else◌}
use exporter_plus.Prelude.Text.{split, is_empty}
use exporter_plus.Prelude.GoMap.{GoMap, insert}
use exporter_plus.Prelude.Metrics.{Desc}
use exporter_plus.Kafka.Types.{
  Family, cluster_brokers, topic_partitions, topic_current_offset, topic_oldest_offset,
  topic_partition_leader, topic_partition_replicas, topic_partition_in_sync_replicas,
  topic_partition_uses_preferred_replica, topic_under_replicated_partition,
  consumergroup_current_offset, consumergroup_current_offset_sum, consumergroup_lag,
  consumergroup_lag_sum, consumergroup_lag_zookeeper, consumergroup_members,
}

-- One label, split at its equals signs: what follows a second one is dropped.
unfoldable pub add_label : List String → GoMap String → GoMap String
add_label (key ∷ value ∷ more) labels = insert key value labels
add_label _ labels = labels

-- the loop over the labels
unfoldable pub add_labels : List String → GoMap String → GoMap String
unfolding add_label
add_labels [] labels = labels
add_labels (label ∷ rest) labels = add_labels rest (add_label (split b'=' label) labels)

-- the labels of the flag kafka.labels
unfoldable pub kafka_labels : String → GoMap String
unfolding add_labels
kafka_labels s = if is_empty s then [] else add_labels (split b',' s) []

module _ (build_fq_name : String → String → String → String) (labels : GoMap String) where
  abbrev new_desc : String → String → String → List String → Desc
  new_desc subsystem name help variable_labels = record {
    fq_name = build_fq_name "kafka" subsystem name;
    help = help;
    variable_labels = variable_labels;
    const_labels = labels;
  }

  unfoldable pub desc_of : Family → Desc
  desc_of cluster_brokers = new_desc "" "brokers" "Number of Brokers in the Kafka Cluster." []
  desc_of topic_partitions =
      new_desc "topic" "partitions" "Number of partitions for this Topic" ("topic" ∷ [])
  desc_of topic_current_offset =
      new_desc "topic" "partition_current_offset" "Current Offset of a Broker at Topic/Partition"
        ("topic" ∷ "partition" ∷ [])
  desc_of topic_oldest_offset =
      new_desc "topic" "partition_oldest_offset" "Oldest Offset of a Broker at Topic/Partition"
        ("topic" ∷ "partition" ∷ [])
  desc_of topic_partition_leader =
      new_desc "topic" "partition_leader" "Leader Broker ID of this Topic/Partition"
        ("topic" ∷ "partition" ∷ [])
  desc_of topic_partition_replicas =
      new_desc "topic" "partition_replicas" "Number of Replicas for this Topic/Partition"
        ("topic" ∷ "partition" ∷ [])
  desc_of topic_partition_in_sync_replicas =
      new_desc "topic" "partition_in_sync_replica"
        "Number of In-Sync Replicas for this Topic/Partition" ("topic" ∷ "partition" ∷ [])
  desc_of topic_partition_uses_preferred_replica =
      new_desc "topic" "partition_leader_is_preferred"
        "1 if Topic/Partition is using the Preferred Broker" ("topic" ∷ "partition" ∷ [])
  desc_of topic_under_replicated_partition =
      new_desc "topic" "partition_under_replicated_partition"
        "1 if Topic/Partition is under Replicated" ("topic" ∷ "partition" ∷ [])
  desc_of consumergroup_current_offset =
      new_desc "consumergroup" "current_offset"
        "Current Offset of a ConsumerGroup at Topic/Partition"
        ("consumergroup" ∷ "topic" ∷ "partition" ∷ [])
  desc_of consumergroup_current_offset_sum =
      new_desc "consumergroup" "current_offset_sum"
        "Current Offset of a ConsumerGroup at Topic for all partitions"
        ("consumergroup" ∷ "topic" ∷ [])
  desc_of consumergroup_lag =
      new_desc "consumergroup" "lag" "Current Approximate Lag of a ConsumerGroup at Topic/Partition"
        ("consumergroup" ∷ "topic" ∷ "partition" ∷ [])
  desc_of consumergroup_lag_zookeeper = record {
    fq_name = build_fq_name "kafka" "consumergroupzookeeper" "lag_zookeeper";
    help = "Current Approximate Lag(zookeeper) of a ConsumerGroup at Topic/Partition";
    variable_labels = "consumergroup" ∷ "topic" ∷ "partition" ∷ [];
    const_labels = [];
  }
  desc_of consumergroup_lag_sum =
      new_desc "consumergroup" "lag_sum"
        "Current Approximate Lag of a ConsumerGroup at Topic for all partitions"
        ("consumergroup" ∷ "topic" ∷ [])
  desc_of consumergroup_members =
      new_desc "consumergroup" "members" "Amount of members in a consumer group"
        ("consumergroup" ∷ [])
