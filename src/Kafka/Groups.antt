-- ===== src/Kafka/Groups.antt =====
-- getConsumerGroupMetrics of Collect in collector/kafka/collector.go.
pub mod Laws
use exporter_plus.Prelude.{
  ℕ, String, Bool, true, false, not, ◌||◌, Option, none, some, List, [], ◌∷◌, ◌++◌, length, map,
  if◌then◌else◌,
}
use exporter_plus.Prelude.Int.{ℤ, pos, negsuc, eqb_ℤ, add64, sub64, format_ℤ}
use exporter_plus.Prelude.GoMap.{GoMap, lookup}
use exporter_plus.Kafka.Types.{
  Family, consumergroup_current_offset, consumergroup_current_offset_sum, consumergroup_lag,
  consumergroup_lag_sum, consumergroup_members, Gauge, Group, Block, Partitions, Broker, Exporter,
}

-- The map of the current offsets: of each topic, of each partition.
abbrev pub Offsets : Type 0
Offsets = GoMap (Partitions ℤ)

abbrev pub offset_of : Partitions ℤ → ℤ → Option ℤ
offset_of [] partition = none
offset_of ((p, offset) ∷ rest) partition =
    if eqb_ℤ p partition then some offset else offset_of rest partition

abbrev pub or_nil : Option (Partitions ℤ) → Partitions ℤ
or_nil none = []
or_nil (some m) = m

-- offset[topic][partition]
unfoldable pub offset_at : Offsets → String → ℤ → Option ℤ
offset_at offsets topic partition = offset_of (or_nil (lookup topic offsets)) partition

-- Is the offset -1, which stands for no offset?
abbrev pub is_absent : ℤ → Bool
is_absent offset = eqb_ℤ offset (negsuc 0)

-- the loop that finds out whether the group consumes the topic
unfoldable pub topic_consumed : Partitions Block → Bool
topic_consumed [] = false
topic_consumed ((partition, block) ∷ blocks) = not (is_absent block.offset) || topic_consumed blocks

-- The two sums, with the gauges sent.
pub record Totals : Type 0 where
  pub gauges : List Gauge
  pub current_offset_sum : ℤ
  pub lag_sum : ℤ

module _ (group topic : String) where
  abbrev pub block_gauge : Family → ℤ → ℤ → Gauge
  block_gauge family partition value = record {
    family = family;
    value = value;
    label_values = group ∷ topic ∷ format_ℤ partition ∷ [];
  }

  -- the lag of a partition, if its current offset is known, and the sum with it
  abbrev pub add_lag : ℤ → ℤ → Option ℤ → ℤ → List Gauge × ℤ
  add_lag partition consumed none lag_sum = ([], lag_sum)
  add_lag partition consumed (some offset) lag_sum =
      if is_absent consumed
      then (block_gauge consumergroup_lag partition (negsuc 0) ∷ [], lag_sum)
      else (
        block_gauge consumergroup_lag partition (sub64 offset consumed) ∷ [],
        add64 lag_sum (sub64 offset consumed),
      )

  -- the loop over the blocks of a consumed topic, from two sums on
  unfoldable pub all_blocks : Offsets → Partitions Block → ℤ → ℤ → Totals
  unfolding offset_at
  all_blocks offsets [] current_offset_sum lag_sum = record {
    gauges = [];
    current_offset_sum = current_offset_sum;
    lag_sum = lag_sum;
  }
  all_blocks offsets ((partition, block) ∷ blocks) current_offset_sum lag_sum =
      let (lag, lag_sum') =
        add_lag partition block.offset (offset_at offsets topic partition) lag_sum in
      let skipped = all_blocks offsets blocks current_offset_sum lag_sum in
      let rest = all_blocks offsets blocks (add64 current_offset_sum block.offset) lag_sum' in
      if block.failed then skipped else record rest {
        gauges =
            block_gauge consumergroup_current_offset partition block.offset ∷ (lag ++ rest.gauges);
      }

  abbrev pub topic_gauge : Family → ℤ → Gauge
  topic_gauge family value = record {
    family = family;
    value = value;
    label_values = group ∷ topic ∷ [];
  }

  -- a topic of the answer
  unfoldable pub consumed_topic : Offsets → Partitions Block → List Gauge
  unfolding topic_consumed all_blocks
  consumed_topic offsets blocks =
      if topic_consumed blocks
      then (let totals = all_blocks offsets blocks (pos 0) (pos 0) in
          totals.gauges
          ++ (topic_gauge consumergroup_current_offset_sum totals.current_offset_sum
              ∷ topic_gauge consumergroup_lag_sum totals.lag_sum
              ∷ []))
      else []

-- the loop over the topics of the answer
unfoldable pub consumed_topics : String → Offsets → GoMap (Partitions Block) → List Gauge
unfolding consumed_topic
consumed_topics group offsets [] = []
consumed_topics group offsets ((topic, blocks) ∷ rest) =
    consumed_topic group topic offsets blocks ++ consumed_topics group offsets rest

-- the partitions that offsetFetchRequest asks for
unfoldable pub requested : Offsets → List (String × ℤ)
requested [] = []
requested ((topic, partitions) ∷ rest) = map (λ p. (topic, p.0)) partitions ++ requested rest

abbrev pub fetched : String → Offsets → Option (GoMap (Partitions Block)) → List Gauge
fetched group offsets none = []
fetched group offsets (some blocks) = consumed_topics group offsets blocks

-- the loop over the groups
unfoldable pub group_gauges : Broker → Offsets → List Group → List Gauge
unfolding consumed_topics requested
group_gauges broker offsets [] = []
group_gauges broker offsets (group ∷ groups) =
    record {
      family = consumergroup_members;
      value = pos group.members;
      label_values = group.group_id ∷ [];
    }
    ∷ (fetched group.group_id offsets (broker.fetch_offset group.group_id (requested offsets))
        ++ group_gauges broker offsets groups)

-- the groups that the filter takes
unfoldable pub filtered : (String → Bool) → List String → List String
filtered filter [] = []
filtered filter (g ∷ gs) = if filter g then g ∷ filtered filter gs else filtered filter gs

abbrev pub described : Broker → Offsets → Option (List Group) → List Gauge
described broker offsets none = []
described broker offsets (some groups) = group_gauges broker offsets groups

abbrev pub listed : Exporter → Broker → Offsets → Option (List String) → List Gauge
listed e broker offsets none = []
listed e broker offsets (some groups) =
    described broker offsets (broker.describe_groups (filtered e.group_filter groups))

-- getConsumerGroupMetrics
unfoldable pub get_consumer_group_metrics : Exporter → Offsets → Broker → List Gauge
unfolding group_gauges filtered
get_consumer_group_metrics e offsets broker =
    if broker.opens then listed e broker offsets broker.list_groups else []
