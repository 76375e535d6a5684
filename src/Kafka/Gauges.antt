-- ===== src/Kafka/Gauges.antt =====
-- The gauges of one family among those sent.
use exporter_plus.Prelude.{
  ℕ, ◌≡◌, refl, List, [], ◌∷◌, ◌++◌, ◌==◌, Bool-cases, inl, inr, if◌then◌else◌,
}
use exporter_plus.Prelude.Int.{ℤ, add64}
use exporter_plus.Kafka.Types.{
  Family, cluster_brokers, topic_partitions, topic_current_offset, topic_oldest_offset,
  topic_partition_leader, topic_partition_replicas, topic_partition_in_sync_replicas,
  topic_partition_uses_preferred_replica, topic_under_replicated_partition,
  consumergroup_current_offset, consumergroup_current_offset_sum, consumergroup_lag,
  consumergroup_lag_sum, consumergroup_lag_zookeeper, consumergroup_members, Gauge,
}

unfoldable pub number : Family → ℕ
number cluster_brokers = 0
number topic_partitions = 1
number topic_current_offset = 2
number topic_oldest_offset = 3
number topic_partition_leader = 4
number topic_partition_replicas = 5
number topic_partition_in_sync_replicas = 6
number topic_partition_uses_preferred_replica = 7
number topic_under_replicated_partition = 8
number consumergroup_current_offset = 9
number consumergroup_current_offset_sum = 10
number consumergroup_lag = 11
number consumergroup_lag_sum = 12
number consumergroup_lag_zookeeper = 13
number consumergroup_members = 14

-- The values of the gauges of a family, by its number, in order.
unfoldable pub values : ℕ → List Gauge → List ℤ
values k [] = []
values k (g ∷ gs) = if number g.family == k then g.value ∷ values k gs else values k gs

pub values-append : (k : ℕ) (gs hs : List Gauge) → values k (gs ++ hs) ≡ values k gs ++ values k hs
unfolding values
values-append k [] hs = refl
values-append k (g ∷ gs) hs = elim (Bool-cases (number g.family == k)) [
  | inl e ↦ rw (e, values-append k gs hs)
  | inr e ↦ rw (e, values-append k gs hs)
]

-- The sum of int64 numbers, from one on.
abbrev pub sum64 : ℤ → List ℤ → ℤ
sum64 a [] = a
sum64 a (b ∷ bs) = sum64 (add64 a b) bs
