-- ===== src/Kafka/Types.antt =====
-- The data of collector/kafka/collector.go, with sarama and kazoo as parameters.
use exporter_plus.Prelude.{ℕ, String, Bool, Option, List}
use exporter_plus.Prelude.Int.{ℤ}
use exporter_plus.Prelude.GoMap.{GoMap}

-- The descriptors of the package, one for each of its variables.
pub data Family : Type 0 where
  cluster_brokers topic_partitions topic_current_offset topic_oldest_offset topic_partition_leader
        topic_partition_replicas topic_partition_in_sync_replicas
        topic_partition_uses_preferred_replica topic_under_replicated_partition
        consumergroup_current_offset consumergroup_current_offset_sum consumergroup_lag
        consumergroup_lag_sum consumergroup_lag_zookeeper consumergroup_members :
      Family

-- A gauge that is sent: its descriptor, the integer that float64() converts, the label values.
pub record Gauge : Type 0 where
  pub family : Family
  pub value : ℤ
  pub label_values : List String

-- A value and whether there was an error with it: sarama gives both at once.
pub record Reply (A : Type 0) : Type 0 where
  pub value : A
  pub failed : Bool

-- kazoo's Consumergroup.
pub record ZookeeperGroup : Type 0 where
  pub name : String
  pub fetch_offset : String → ℤ → ℤ

-- An entry of sarama's DescribeGroups answer.
pub record Group : Type 0 where
  pub group_id : String
  pub members : ℕ

-- sarama's OffsetFetchResponseBlock: the offset, and whether its Err is another than ErrNoError.
pub record Block : Type 0 where
  pub offset : ℤ
  pub failed : Bool

-- Map of partition numbers, as a list of distinct ones in the order that `range` takes.
abbrev pub Partitions : Type 0 → Type 0
Partitions A = List (ℤ × A)

-- sarama's Broker: whether Open connects (or already has), and the answers to the requests.
pub record Broker : Type 0 where
  pub opens : Bool
  pub list_groups : Option (List String)
  pub describe_groups : List String → Option (List Group)
  pub fetch_offset : String → List (String × ℤ) → Option (GoMap (Partitions Block))

-- sarama's Client and kazoo's, at one moment. A leader is a broker's ID, and `none` is an error; a
-- nil slice is `none`.
pub record Client : Type 0 where
  pub brokers : List Broker
  pub topics : Option (List String)
  pub partitions : String → Option (List ℤ)
  pub leader : String → ℤ → Option ℤ
  pub newest : String → ℤ → Reply ℤ
  pub oldest : String → ℤ → Reply ℤ
  pub replicas : String → ℤ → Reply (Option (List ℤ))
  pub in_sync_replicas : String → ℤ → Reply (Option (List ℤ))
  pub zookeeper_groups : List ZookeeperGroup

-- Exporter: the clock is a number, a filter is what its MatchString says.
pub record Exporter : Type 0 where
  pub topic_filter : String → Bool
  pub group_filter : String → Bool
  pub use_zookeeper_lag : Bool
  pub next_metadata_refresh : ℤ
  pub metadata_refresh_interval : ℤ
