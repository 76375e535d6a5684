-- ===== src/Kafka/Groups/Laws.antt =====
-- What the two sums of a consumed topic add up.
use exporter_plus.Prelude.{
  ℕ, String, true, false, ◌≡◌, ◌≢◌, refl, ◌∙◌, ap, sym, Option, none, some, List, [], ◌∷◌, ◌++◌,
  ◌==◌, arith, Bool-cases, inl, inr, if◌then◌else◌, All,
}
use exporter_plus.Prelude.Int.{ℤ, pos, sub64, add64}
use exporter_plus.Kafka.Types.{
  consumergroup_current_offset_sum, consumergroup_lag_sum, Block, Partitions,
}
use exporter_plus.Kafka.Gauges.{number, values, values-append, sum64}
use exporter_plus.Kafka.Groups.{
  Offsets, offset_at, is_absent, topic_consumed, add_lag, all_blocks, consumed_topic, topic_gauge,
}

-- The lag of a partition that counts: the group has an offset and the current one is known.
abbrev pub lag_of : ℤ → Option ℤ → List ℤ
lag_of consumed none = []
lag_of consumed (some offset) = if is_absent consumed then [] else sub64 offset consumed ∷ []

module _ (group topic : String) (offsets : Offsets) where
  -- The lags of the blocks that have no error.
  unfoldable pub lags : Partitions Block → List ℤ
  lags [] = []
  lags ((partition, block) ∷ blocks) =
      if block.failed
      then lags blocks
      else lag_of block.offset (offset_at offsets topic partition) ++ lags blocks

  sum-add_lag :
      (partition consumed : ℤ) (o : Option ℤ) (lag_sum : ℤ) (rest : List ℤ)
      → sum64 (add_lag group topic partition consumed o lag_sum).1 rest
        ≡ sum64 lag_sum (lag_of consumed o ++ rest)
  sum-add_lag partition consumed none lag_sum rest = refl
  sum-add_lag partition consumed (some offset) lag_sum rest =
      elim (Bool-cases (is_absent consumed)) [ inl e ↦ rw e | inr e ↦ rw e ]

  values-add_lag :
      (k : ℕ) (partition consumed : ℤ) (o : Option ℤ) (lag_sum : ℤ)
      → k ≢ 11
      → values k (add_lag group topic partition consumed o lag_sum).0 ≡ []
  unfolding values number
  values-add_lag k partition consumed none lag_sum h = refl
  values-add_lag k partition consumed (some offset) lag_sum h =
      let other : (11 == k) ≡ false = ground arith in
      elim (Bool-cases (is_absent consumed)) [ inl e ↦ rw (e, other) | inr e ↦ rw (e, other) ]

  all_blocks_lem :
      (blocks : Partitions Block) (a b : ℤ)
      → ((all_blocks group topic offsets blocks a b).current_offset_sum
          ≡ sum64 a (values 9 (all_blocks group topic offsets blocks a b).gauges))
        × ((all_blocks group topic offsets blocks a b).lag_sum ≡ sum64 b (lags blocks))
  unfolding all_blocks lags values number
  all_blocks_lem [] a b = (refl, refl)
  all_blocks_lem ((partition, block) ∷ blocks) a b = elim (Bool-cases block.failed) [
    | inl e ↦ rw e (all_blocks_lem blocks a b)
    | inr e ↦
        let o = offset_at offsets topic partition in
        let (lag, b') = add_lag group topic partition block.offset o b in
        let a' = add64 a block.offset in
        let gs = (all_blocks group topic offsets blocks a' b').gauges in
        let (sum, lag_sum) = all_blocks_lem blocks a' b' in
        rw e (
          sum
              ∙ ap (sum64 a') (
                  sym (
                    values-append 9 lag gs
                    ∙ ap (λ (vs : List ℤ). vs ++ values 9 gs)
                        (values-add_lag 9 partition block.offset o b (omega arith)))),
          lag_sum ∙ sum-add_lag partition block.offset o b (lags blocks),
        )
  ]

  -- The two sums' gauges have other numbers than the partitions'.
  values-consumed_topic :
      (k : ℕ) (blocks : Partitions Block)
      → topic_consumed blocks ≡ true
      → values k (consumed_topic group topic offsets blocks)
        ≡ values k (all_blocks group topic offsets blocks (pos 0) (pos 0)).gauges
          ++ values k (
              topic_gauge group topic consumergroup_current_offset_sum
                (all_blocks group topic offsets blocks (pos 0) (pos 0)).current_offset_sum
              ∷ topic_gauge group topic consumergroup_lag_sum
                  (all_blocks group topic offsets blocks (pos 0) (pos 0)).lag_sum
              ∷ [])
  unfolding consumed_topic
  values-consumed_topic k blocks h = rw h (values-append k _ _)

  values-all_blocks :
      (k : ℕ) (blocks : Partitions Block) (a b : ℤ)
      → k ≢ 9
      → k ≢ 11
      → values k (all_blocks group topic offsets blocks a b).gauges ≡ []
  unfolding all_blocks values number
  values-all_blocks k [] a b h h' = refl
  values-all_blocks k ((partition, block) ∷ blocks) a b h h' =
      let other : (9 == k) ≡ false = ground arith in
      elim (Bool-cases block.failed) [
        | inl e ↦ rw e (values-all_blocks k blocks a b h h')
        | inr e ↦
            let o = offset_at offsets topic partition in
            let (lag, b') = add_lag group topic partition block.offset o b in
            let gs = (all_blocks group topic offsets blocks (add64 a block.offset) b').gauges in
            rw (e, other)
              (values-append k lag gs
                ∙ ap (λ (vs : List ℤ). vs ++ values k gs)
                    (values-add_lag k partition block.offset o b h')
                ∙ values-all_blocks k blocks (add64 a block.offset) b' h h')
      ]

  append-nil : (vs : List ℤ) → vs ++ [] ≡ vs
  append-nil [] = refl
  append-nil (v ∷ vs) = ap (λ (ws : List ℤ). v ∷ ws) (append-nil vs)

  topic_consumed-Absent :
      (blocks : Partitions Block)
      → All (λ (b : ℤ × Block). is_absent b.1.offset ≡ true) blocks
      → topic_consumed blocks ≡ false
  unfolding topic_consumed
  topic_consumed-Absent [] _ = refl
  topic_consumed-Absent ((partition, block) ∷ blocks) (h, hs) =
      rw (h, topic_consumed-Absent blocks hs)

  -- The gauges of a topic that the group consumes: one is the sum of the offsets, which is the
  -- int64 sum of the topic's offset gauges, one is the sum of the lags, which is the int64 sum of
  -- the lags of those partitions that have no error, that the group has an offset for and whose
  -- current offset is known. A topic for which every offset is -1 has no gauges.
  pub consumed_topic_sums :
      (blocks : Partitions Block)
      → (topic_consumed blocks ≡ true
          → (values 10 (consumed_topic group topic offsets blocks)
              ≡ sum64 (pos 0) (values 9 (consumed_topic group topic offsets blocks)) ∷ [])
            × (values 12 (consumed_topic group topic offsets blocks)
                ≡ sum64 (pos 0) (lags blocks) ∷ []))
        × (All (λ (b : ℤ × Block). is_absent b.1.offset ≡ true) blocks
            → consumed_topic group topic offsets blocks ≡ [])
  unfolding values number
  consumed_topic_sums blocks = (
    λ consumed.
        let totals = all_blocks group topic offsets blocks (pos 0) (pos 0) in
        let (sum, lag_sum) = all_blocks_lem blocks (pos 0) (pos 0) in
        let none_of : (k : ℕ) → k ≢ 9 → k ≢ 11 → values k totals.gauges ≡ [] =
          λ k. values-all_blocks k blocks (pos 0) (pos 0) in
        (
          values-consumed_topic 10 blocks consumed
              ∙ rw (
                none_of 10 (omega arith) (omega arith),
                sum,
                values-consumed_topic 9 blocks consumed,
                append-nil (values 9 totals.gauges),
              ),
          values-consumed_topic 12 blocks consumed
              ∙ rw (none_of 12 (omega arith) (omega arith), lag_sum),
        ),
    λ absent. unfold consumed_topic in rw (topic_consumed-Absent blocks absent),
  )
