-- ===== src/Kafka/Topics/Laws.antt =====
-- The two flags of a partition, and the offsets that a topic enters.
use exporter_plus.Prelude.{
  ℕ, String, Bool, true, ◌≡◌, ◌↔◌, ◌⊎◌, refl, ◌∙◌, ap, Option, none, some, List, [], ◌∷◌, ◌++◌, ◌<◌,
  arith, length, Bool-cases, inl, inr, if◌then◌else◌, some_inj,
}
use exporter_plus.Prelude.Int.{ℤ, pos, negsuc, eqb_ℤ}
use exporter_plus.Kafka.Types.{
  Family, topic_current_offset, topic_oldest_offset, topic_partition_replicas,
  topic_partition_in_sync_replicas, topic_partition_uses_preferred_replica,
  topic_under_replicated_partition, Gauge, Reply, ZookeeperGroup, Client, Exporter,
}
use exporter_plus.Kafka.Gauges.{number, values, values-append}
use exporter_plus.Kafka.Topics.{
  uses_preferred_replica, under_replicated, leader_gauge, if_read, flag, zookeeper_lags,
  partition_gauges, nil_length,
}

-- The numbers of the two flags' families.
abbrev pub IsFlag : ℕ → Type 0
IsFlag k = (k ≡ 7) ⊎ (k ≡ 8)

module _ (k : ℕ) (is : IsFlag k) (topic : String) where
  values-leader :
      (partition : ℤ) (leader : Option ℤ) → values k (leader_gauge topic partition leader) ≡ []
  unfolding values number
  values-leader partition none = refl
  values-leader partition (some id) = ground arith

  values-if_read :
      {A : Type 0} (g : Family) (partition : ℤ) (reply : Reply A) (value : A → ℤ)
      → number g < 7
      → values k (if_read topic g partition reply value) ≡ []
  unfolding values
  values-if_read g partition reply value other = ground arith

  values-zookeeper_lags :
      (partition current : ℤ) (groups : List ZookeeperGroup)
      → values k (zookeeper_lags topic partition current groups) ≡ []
  unfolding values zookeeper_lags number
  values-zookeeper_lags partition current [] = refl
  values-zookeeper_lags partition current (group ∷ groups) =
      ground (arith, values-zookeeper_lags partition current groups)

  values-skip : (gs hs : List Gauge) → values k gs ≡ [] → values k (gs ++ hs) ≡ values k hs
  values-skip gs hs e = values-append k gs hs ∙ ap (λ (vs : List ℤ). vs ++ values k hs) e

  values-lags :
      (e : Exporter) (partition current : ℤ) (groups : List ZookeeperGroup)
      → values k (if e.use_zookeeper_lag then zookeeper_lags topic partition current groups else [])
        ≡ []
  unfolding values
  values-lags e partition current groups = elim (Bool-cases e.use_zookeeper_lag) [
    | inl q ↦ rw q (values-zookeeper_lags partition current groups)
    | inr q ↦ rw q
  ]

  -- The two flags of a partition, and its lags.
  abbrev flags : Exporter → Client → ℤ → List Gauge
  flags e client partition =
      let replicas = client.replicas topic partition in
      flag topic topic_partition_uses_preferred_replica partition
        (uses_preferred_replica (client.leader topic partition) replicas.value)
      ∷ flag topic topic_under_replicated_partition partition
          (under_replicated replicas.value (client.in_sync_replicas topic partition).value)
      ∷ (if e.use_zookeeper_lag
          then zookeeper_lags topic partition (client.newest topic partition).value
              client.zookeeper_groups
          else [])

  values-partition_gauges :
      (e : Exporter) (client : Client) (partition : ℤ)
      → values k (partition_gauges e client topic partition) ≡ values k (flags e client partition)
  unfolding partition_gauges number
  values-partition_gauges e client partition =
      values-skip _ _ (values-leader partition (client.leader topic partition))
      ∙ (values-skip _ _ (
            values-if_read topic_current_offset partition (client.newest topic partition) (λ n. n)
              (omega arith))
          ∙ (values-skip _ _ (
                values-if_read topic_oldest_offset partition (client.oldest topic partition)
                  (λ n. n) (omega arith))
              ∙ (values-skip _ _ (
                    values-if_read topic_partition_replicas partition
                      (client.replicas topic partition) (λ rs. pos (nil_length rs)) (omega arith))
                  ∙ values-skip _ _ (
                      values-if_read topic_partition_in_sync_replicas partition
                        (client.in_sync_replicas topic partition) (λ rs. pos (nil_length rs))
                        (omega arith)))))

-- The two numbers are the same broker's.
eqb_ℤ-iff : (a b : ℤ) → (eqb_ℤ a b ≡ true) ↔ (a ≡ b)
eqb_ℤ-iff (pos a) (pos b) = ground arith
eqb_ℤ-iff (pos a) (negsuc b) = ground arith
eqb_ℤ-iff (negsuc a) (pos b) = ground arith
eqb_ℤ-iff (negsuc a) (negsuc b) = ground arith

-- The partition has a leader, and it is the first of its replicas.
abbrev pub LeaderIsPreferred : Option ℤ → Option (List ℤ) → Type 0
LeaderIsPreferred leader replicas =
    (id : ℤ) × (rest : List ℤ) × (leader ≡ some id) × (replicas ≡ some (id ∷ rest))

-- Both lists are known, and the in-sync one is the shorter.
abbrev pub IsUnderReplicated : Option (List ℤ) → Option (List ℤ) → Type 0
IsUnderReplicated replicas in_sync =
    (rs : List ℤ) × (is : List ℤ) × (replicas ≡ some rs)
    × (in_sync ≡ some is)
    × (length is < length rs)

uses_preferred_replica_iff :
    (leader : Option ℤ) (replicas : Option (List ℤ))
    → (uses_preferred_replica leader replicas ≡ true) ↔ LeaderIsPreferred leader replicas
unfolding uses_preferred_replica
uses_preferred_replica_iff none replicas = (λ h. cc h, λ (id, rest, e, _). cc e)
uses_preferred_replica_iff (some id) none = (λ h. cc h, λ (i, rest, _, e). cc e)
uses_preferred_replica_iff (some id) (some []) = (λ h. cc h, λ (i, rest, _, e). cc e)
uses_preferred_replica_iff (some id) (some (r ∷ rs)) = (
  λ h. let same = (eqb_ℤ-iff id r).0 h in (r, rs, ap some same, refl),
  λ (i, rest, e, e'). (eqb_ℤ-iff id r).1 (cc (e, e')),
)

under_replicated_iff :
    (replicas in_sync : Option (List ℤ))
    → (under_replicated replicas in_sync ≡ true) ↔ IsUnderReplicated replicas in_sync
unfolding under_replicated
under_replicated_iff none in_sync = (λ h. cc h, λ (rs, is, e, _, _). cc e)
under_replicated_iff (some rs) none = (λ h. cc h, λ (rs', is, _, e, _). cc e)
under_replicated_iff (some rs) (some is) = (
  λ h. (rs, is, refl, refl, ground arith),
  λ (rs', is', e, e', h). rw (some_inj e, some_inj e') (ground arith),
)

-- One gauge says 1 or 0, and 1 exactly if the property holds.
abbrev pub Says : List ℤ → Type 0 → Type 0
Says vs P = (b : Bool) × (vs ≡ (if b then pos 1 else pos 0) ∷ []) × ((b ≡ true) ↔ P)

-- Whatever fails for a partition, its gauges have exactly one for the preferred replica, which is 1
-- if the leader is known and is the first of the replicas and else 0, and exactly one for the
-- replication, which is 1 if both lists of replicas are known and the in-sync one is the shorter
-- and else 0.
pub partition_flags :
    (e : Exporter) (client : Client) (topic : String) (partition : ℤ)
    → Says
        (values 7 (partition_gauges e client topic partition))
        (LeaderIsPreferred (client.leader topic partition) (client.replicas topic partition).value)
      × Says (values 8 (partition_gauges e client topic partition)) (
          IsUnderReplicated
            (client.replicas topic partition).value
            (client.in_sync_replicas topic partition).value)
unfolding values number
partition_flags e client topic partition =
    let replicas = client.replicas topic partition in
    let in_sync = client.in_sync_replicas topic partition in
    (
      (
        uses_preferred_replica (client.leader topic partition) replicas.value,
        values-partition_gauges 7 (inl refl) topic e client partition
            ∙ ap
                (λ (vs : List ℤ).
                  (if uses_preferred_replica (client.leader topic partition) replicas.value
                    then pos 1
                    else pos 0)
                  ∷ vs)
                (values-lags 7 (inl refl) topic e partition (client.newest topic partition).value
                  client.zookeeper_groups),
        uses_preferred_replica_iff (client.leader topic partition) replicas.value,
      ),
      (
        under_replicated replicas.value in_sync.value,
        values-partition_gauges 8 (inr refl) topic e client partition
            ∙ ap
                (λ (vs : List ℤ).
                  (if under_replicated replicas.value in_sync.value then pos 1 else pos 0) ∷ vs)
                (values-lags 8 (inr refl) topic e partition (client.newest topic partition).value
                  client.zookeeper_groups),
        under_replicated_iff replicas.value in_sync.value,
      ),
    )
