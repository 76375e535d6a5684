-- ===== src/Kafka/Topics.antt =====
-- getTopicMetrics of Collect in collector/kafka/collector.go.
pub mod Laws
use exporter_plus.Prelude.{
  ℕ, String, Bool, true, false, Option, none, some, List, [], ◌∷◌, ◌++◌, ltb, length, if◌then◌else◌,
}
use exporter_plus.Prelude.Int.{ℤ, pos, eqb_ℤ, ltb_ℤ, sub64, format_ℤ}
use exporter_plus.Kafka.Types.{
  Family, topic_partitions, topic_current_offset, topic_oldest_offset, topic_partition_leader,
  topic_partition_replicas, topic_partition_in_sync_replicas,
  topic_partition_uses_preferred_replica, topic_under_replicated_partition,
  consumergroup_lag_zookeeper, Gauge, Reply, ZookeeperGroup, Partitions, Client, Exporter,
}

abbrev pub nil_length : Option (List ℤ) → ℕ
nil_length none = 0
nil_length (some rs) = length rs

-- broker != nil && replicas != nil && len(replicas) > 0 && broker.ID() == replicas[0]
unfoldable pub uses_preferred_replica : Option ℤ → Option (List ℤ) → Bool
uses_preferred_replica (some id) (some (r ∷ rs)) = eqb_ℤ id r
uses_preferred_replica _ _ = false

-- replicas != nil && inSyncReplicas != nil && len(inSyncReplicas) < len(replicas)
unfoldable pub under_replicated : Option (List ℤ) → Option (List ℤ) → Bool
under_replicated (some replicas) (some in_sync) = ltb (length in_sync) (length replicas)
under_replicated _ _ = false

module _ (topic : String) where
  abbrev pub partition_gauge : Family → ℤ → ℤ → Gauge
  partition_gauge family partition value = record {
    family = family;
    value = value;
    label_values = topic ∷ format_ℤ partition ∷ [];
  }

  abbrev pub leader_gauge : ℤ → Option ℤ → List Gauge
  leader_gauge partition none = []
  leader_gauge partition (some id) = partition_gauge topic_partition_leader partition id ∷ []

  abbrev pub if_read : {A : Type 0} → Family → ℤ → Reply A → (A → ℤ) → List Gauge
  if_read family partition reply value =
      if reply.failed then [] else partition_gauge family partition (value reply.value) ∷ []

  abbrev pub flag : Family → ℤ → Bool → Gauge
  flag family partition test = partition_gauge family partition (if test then pos 1 else pos 0)

  -- the loop over the consumer groups of ZooKeeper
  unfoldable pub zookeeper_lags : ℤ → ℤ → List ZookeeperGroup → List Gauge
  zookeeper_lags partition current [] = []
  zookeeper_lags partition current (group ∷ groups) =
      let rest = zookeeper_lags partition current groups in
      let offset = group.fetch_offset topic partition in
      if ltb_ℤ (pos 0) offset
      then record {
        family = consumergroup_lag_zookeeper;
        value = sub64 current offset;
        label_values = group.name ∷ topic ∷ format_ℤ partition ∷ [];
      }
        ∷ rest
      else rest

-- One round of the loop over the partitions.
unfoldable pub partition_gauges : Exporter → Client → String → ℤ → List Gauge
unfolding uses_preferred_replica under_replicated zookeeper_lags
partition_gauges e client topic partition =
    let leader = client.leader topic partition in
    let newest = client.newest topic partition in
    let replicas = client.replicas topic partition in
    let in_sync = client.in_sync_replicas topic partition in
    leader_gauge topic partition leader
    ++ (if_read topic topic_current_offset partition newest (λ n. n)
        ++ (if_read topic topic_oldest_offset partition (client.oldest topic partition) (λ n. n)
            ++ (if_read topic topic_partition_replicas partition replicas
                  (λ rs. pos (nil_length rs))
                ++ (if_read topic topic_partition_in_sync_replicas partition in_sync
                      (λ rs. pos (nil_length rs))
                    ++ (flag topic topic_partition_uses_preferred_replica partition
                          (uses_preferred_replica leader replicas.value)
                        ∷ flag topic topic_under_replicated_partition partition
                            (under_replicated replicas.value in_sync.value)
                        ∷ (if e.use_zookeeper_lag
                            then zookeeper_lags topic partition newest.value client.zookeeper_groups
                            else []))))))

-- offset[topic]: the current offset of each partition that was read
unfoldable pub partition_offsets : Client → String → List ℤ → Partitions ℤ
partition_offsets client topic [] = []
partition_offsets client topic (partition ∷ partitions) =
    let rest = partition_offsets client topic partitions in
    let newest = client.newest topic partition in
    if newest.failed then rest else (partition, newest.value) ∷ rest

-- What a topic adds: its gauges, and its entry in the map of offsets, if it has one.
pub record TopicRun : Type 0 where
  pub gauges : List Gauge
  pub offsets : Option (Partitions ℤ)

-- the loop over the partitions
unfoldable pub all_partitions : Exporter → Client → String → List ℤ → List Gauge
unfolding partition_gauges
all_partitions e client topic [] = []
all_partitions e client topic (partition ∷ partitions) =
    partition_gauges e client topic partition ++ all_partitions e client topic partitions

abbrev pub of_partitions : Exporter → Client → String → Option (List ℤ) → TopicRun
of_partitions e client topic none = record { gauges = []; offsets = none }
of_partitions e client topic (some partitions) = record {
  gauges =
      record {
        family = topic_partitions;
        value = pos (length partitions);
        label_values = topic ∷ [];
      }
      ∷ all_partitions e client topic partitions;
  offsets = some (partition_offsets client topic partitions);
}

-- getTopicMetrics
unfoldable pub get_topic_metrics : Exporter → Client → String → TopicRun
unfolding all_partitions partition_offsets
get_topic_metrics e client topic =
    if e.topic_filter topic
    then of_partitions e client topic (client.partitions topic)
    else record { gauges = []; offsets = none }
