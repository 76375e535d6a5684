-- ===== src/Kafka/Collect/Fits.antt =====
-- Every gauge that is sent has a value for each of its descriptor's labels.
use exporter_plus.Prelude.{
  String, Bool, true, false, ◌≡◌, refl, Option, none, some, List, [], ◌∷◌, length, Bool-cases, inl,
  inr, if◌then◌else◌, All, All-append,
}
use exporter_plus.Prelude.Int.{ℤ, pos, ltb_ℤ}
use exporter_plus.Prelude.GoMap.{GoMap}
use exporter_plus.Kafka.Types.{
  Family, topic_current_offset, topic_oldest_offset, topic_partition_replicas,
  topic_partition_in_sync_replicas, Gauge, Reply, ZookeeperGroup, Group, Block, Partitions, Broker,
  Client, Exporter,
}
use exporter_plus.Kafka.Descs.{desc_of}
use exporter_plus.Kafka.Topics.{
  leader_gauge, if_read, zookeeper_lags, partition_gauges, all_partitions, of_partitions,
  get_topic_metrics, nil_length,
}
use exporter_plus.Kafka.Groups.{
  Offsets, is_absent, add_lag, offset_at, all_blocks, consumed_topic, consumed_topics, fetched,
  group_gauges, requested, described, listed, filtered, get_consumer_group_metrics, topic_consumed,
}
use exporter_plus.Kafka.Collect.{all_topics, all_brokers, refreshed, with_topics, collect}

module _ (build_fq_name : String → String → String → String) (labels : GoMap String) where
  abbrev pub Fits : Gauge → Type 0
  Fits g = length g.label_values ≡ length (desc_of build_fq_name labels g.family).variable_labels

  -- A gauge that is sent only on a condition.
  All-if :
      (b : Bool) (gs hs : List Gauge) → All Fits gs → All Fits hs → All Fits (if b then gs else hs)
  All-if true gs hs p q = p
  All-if false gs hs p q = q

  zookeeper_lags-Fits :
      (topic : String) (partition current : ℤ) (groups : List ZookeeperGroup)
      → All Fits (zookeeper_lags topic partition current groups)
  unfolding zookeeper_lags desc_of
  zookeeper_lags-Fits topic partition current [] = tt
  zookeeper_lags-Fits topic partition current (group ∷ groups) =
      let rest = zookeeper_lags-Fits topic partition current groups in
      All-if (ltb_ℤ (pos 0) (group.fetch_offset topic partition)) _ _ (refl, rest) rest

  leader_gauge-Fits :
      (topic : String) (partition : ℤ) (leader : Option ℤ)
      → All Fits (leader_gauge topic partition leader)
  unfolding desc_of
  leader_gauge-Fits topic partition none = tt
  leader_gauge-Fits topic partition (some id) = (refl, tt)

  if_read-Fits :
      {A : Type 0} (topic : String) (f : Family) (partition : ℤ) (reply : Reply A) (value : A → ℤ)
      → 2 ≡ length (desc_of build_fq_name labels f).variable_labels
      → All Fits (if_read topic f partition reply value)
  if_read-Fits topic f partition reply value h = All-if reply.failed _ _ tt (h, tt)

  partition_gauges-Fits :
      (e : Exporter) (client : Client) (topic : String) (partition : ℤ)
      → All Fits (partition_gauges e client topic partition)
  unfolding partition_gauges desc_of
  partition_gauges-Fits e client topic partition =
      All-append Fits _ _ (leader_gauge-Fits topic partition (client.leader topic partition)) (
        All-append Fits _ _
          (if_read-Fits topic topic_current_offset partition (client.newest topic partition)
            (λ n. n) refl)
          (All-append Fits _ _
            (if_read-Fits topic topic_oldest_offset partition (client.oldest topic partition)
              (λ n. n) refl)
            (All-append Fits _ _
              (if_read-Fits topic topic_partition_replicas partition
                (client.replicas topic partition) (λ rs. pos (nil_length rs)) refl)
              (All-append Fits _ _
                (if_read-Fits topic topic_partition_in_sync_replicas partition
                  (client.in_sync_replicas topic partition) (λ rs. pos (nil_length rs)) refl)
                (
                  refl,
                  (
                    refl,
                    All-if e.use_zookeeper_lag _ _
                        (zookeeper_lags-Fits topic partition (client.newest topic partition).value
                          client.zookeeper_groups)
                        tt,
                  ),
                )))))

  all_partitions-Fits :
      (e : Exporter) (client : Client) (topic : String) (partitions : List ℤ)
      → All Fits (all_partitions e client topic partitions)
  unfolding all_partitions
  all_partitions-Fits e client topic [] = tt
  all_partitions-Fits e client topic (p ∷ ps) =
      All-append Fits (partition_gauges e client topic p) _ (partition_gauges-Fits e client topic p)
        (all_partitions-Fits e client topic ps)

  of_partitions-Fits :
      (e : Exporter) (client : Client) (topic : String) (o : Option (List ℤ))
      → All Fits (of_partitions e client topic o).gauges
  unfolding desc_of
  of_partitions-Fits e client topic none = tt
  of_partitions-Fits e client topic (some ps) = (refl, all_partitions-Fits e client topic ps)

  get_topic_metrics-Fits :
      (e : Exporter) (client : Client) (topic : String)
      → All Fits (get_topic_metrics e client topic).gauges
  unfolding get_topic_metrics
  get_topic_metrics-Fits e client topic = elim (Bool-cases (e.topic_filter topic)) [
    | inl q ↦ rw q (of_partitions-Fits e client topic (client.partitions topic))
    | inr q ↦ rw q tt
  ]

  all_topics-Fits :
      (e : Exporter) (client : Client) (topics : List String) (offsets : Offsets)
      → All Fits (all_topics e client topics offsets).gauges
  unfolding all_topics
  all_topics-Fits e client [] offsets = tt
  all_topics-Fits e client (topic ∷ topics) offsets =
      All-append Fits (get_topic_metrics e client topic).gauges _
        (get_topic_metrics-Fits e client topic) (all_topics-Fits e client topics _)

  add_lag-Fits :
      (group topic : String) (partition consumed : ℤ) (o : Option ℤ) (lag_sum : ℤ)
      → All Fits (add_lag group topic partition consumed o lag_sum).0
  unfolding desc_of
  add_lag-Fits group topic partition consumed none lag_sum = tt
  add_lag-Fits group topic partition consumed (some offset) lag_sum =
      elim (Bool-cases (is_absent consumed)) [ inl q ↦ rw q (refl, tt) | inr q ↦ rw q (refl, tt) ]

  all_blocks-Fits :
      (group topic : String) (offsets : Offsets) (blocks : Partitions Block) (a b : ℤ)
      → All Fits (all_blocks group topic offsets blocks a b).gauges
  unfolding all_blocks desc_of
  all_blocks-Fits group topic offsets [] a b = tt
  all_blocks-Fits group topic offsets ((partition, block) ∷ blocks) a b =
      elim (Bool-cases block.failed) [
        | inl q ↦ rw q (all_blocks-Fits group topic offsets blocks a b)
        | inr q ↦ rw q (
          refl,
          All-append Fits _ _
              (add_lag-Fits group topic partition block.offset (offset_at offsets topic partition)
                b)
              (all_blocks-Fits group topic offsets blocks _ _),
        )
      ]

  consumed_topic-Fits :
      (group topic : String) (offsets : Offsets) (blocks : Partitions Block)
      → All Fits (consumed_topic group topic offsets blocks)
  unfolding consumed_topic desc_of
  consumed_topic-Fits group topic offsets blocks =
      All-if (topic_consumed blocks) _ _
        (All-append Fits _ _ (all_blocks-Fits group topic offsets blocks (pos 0) (pos 0))
          (refl, (refl, tt)))
        tt

  consumed_topics-Fits :
      (group : String) (offsets : Offsets) (answer : GoMap (Partitions Block))
      → All Fits (consumed_topics group offsets answer)
  unfolding consumed_topics
  consumed_topics-Fits group offsets [] = tt
  consumed_topics-Fits group offsets ((topic, blocks) ∷ rest) =
      All-append Fits _ _ (consumed_topic-Fits group topic offsets blocks)
        (consumed_topics-Fits group offsets rest)

  fetched-Fits :
      (group : String) (offsets : Offsets) (o : Option (GoMap (Partitions Block)))
      → All Fits (fetched group offsets o)
  fetched-Fits group offsets none = tt
  fetched-Fits group offsets (some answer) = consumed_topics-Fits group offsets answer

  group_gauges-Fits :
      (broker : Broker) (offsets : Offsets) (groups : List Group)
      → All Fits (group_gauges broker offsets groups)
  unfolding group_gauges desc_of
  group_gauges-Fits broker offsets [] = tt
  group_gauges-Fits broker offsets (group ∷ groups) = (
    refl,
    All-append Fits _ _
        (fetched-Fits group.group_id offsets
          (broker.fetch_offset group.group_id (requested offsets)))
        (group_gauges-Fits broker offsets groups),
  )

  described-Fits :
      (broker : Broker) (offsets : Offsets) (o : Option (List Group))
      → All Fits (described broker offsets o)
  described-Fits broker offsets none = tt
  described-Fits broker offsets (some groups) = group_gauges-Fits broker offsets groups

  listed-Fits :
      (e : Exporter) (broker : Broker) (offsets : Offsets) (o : Option (List String))
      → All Fits (listed e broker offsets o)
  listed-Fits e broker offsets none = tt
  listed-Fits e broker offsets (some ids) =
      described-Fits broker offsets (broker.describe_groups (filtered e.group_filter ids))

  all_brokers-Fits :
      (e : Exporter) (offsets : Offsets) (brokers : List Broker)
      → All Fits (all_brokers e offsets brokers)
  unfolding all_brokers get_consumer_group_metrics
  all_brokers-Fits e offsets [] = tt
  all_brokers-Fits e offsets (broker ∷ brokers) =
      All-append Fits _ _
        (All-if broker.opens _ _ (listed-Fits e broker offsets broker.list_groups) tt)
        (all_brokers-Fits e offsets brokers)

  with_topics-Fits :
      (e : Exporter) (client : Client) (o : Option (List String))
      → All Fits (with_topics e client o)
  with_topics-Fits e client none = tt
  with_topics-Fits e client (some topics) =
      All-append Fits _ _ (all_topics-Fits e client topics [])
        (all_brokers-Fits e (all_topics e client topics []).offsets client.brokers)

  -- Whatever the client and the brokers answer, every gauge that a collection sends has exactly as
  -- many label values as its descriptor has labels.
  pub collect-Fits :
      (now : ℤ) (refresh : Client → Client) (e : Exporter) (client : Client)
      → All Fits (collect now refresh e client).0
  unfolding collect desc_of
  collect-Fits now refresh e client =
      let (e', client') = refreshed now refresh e client in
      (refl, with_topics-Fits e' client' client'.topics)
