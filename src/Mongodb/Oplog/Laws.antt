-- ===== src/Mongodb/Oplog/Laws.antt =====
-- The retries of the timestamps, and what becomes of an error.
use exporter_plus.Prelude.{
  ◌≤◌, ◌≡◌, ◌≢◌, ◌↔◌, ◌⊎◌, refl, ap, sym, Bool, true, false, not, ◌&&◌, inl, inr, Option, none,
  some, arith, some_inj,
}
use exporter_plus.Prelude.Int.{ℤ, pos, negsuc, eqb_ℤ}
use exporter_plus.Mongodb.Oplog.{
  Session, OplogStatus, OplogGauges, bson_mongo_timestamp_to_unix, get_oplog_timestamp, or_zero,
  of_stats, of_tail, get_oplog_status, export_oplog, tried, set_sizes,
}

-- The first of two answers, in seconds.
abbrev pub first_of : Option ℤ → Option ℤ → Option ℤ
first_of none none = none
first_of none (some ts) = some (bson_mongo_timestamp_to_unix ts)
first_of (some ts) _ = some (bson_mongo_timestamp_to_unix ts)

two_tries :
    (a b : Option ℤ)
    → let found = tried a 0 (tried b 1 (record { timestamp = none; queries = 2 })) in
      (found.queries ≤ 2)
      × (found.timestamp ≡ first_of a b)
      × ((found.timestamp ≡ none) ↔ ((a ≡ none) × (b ≡ none)))
two_tries none none = (omega arith, refl, (λ h. (refl, refl), λ h. refl))
two_tries none (some t) = (omega arith, refl, (λ h. cc h, λ (_, h). cc h))
two_tries (some t) b = (omega arith, refl, (λ h. cc h, λ (h, _). cc h))

module _ {F : Type 0} (session : Session F) where
  -- The first answer of the first two queries.
  abbrev pub first_two : Bool → Option ℤ
  first_two end = first_of (session.oplog_end end 0) (session.oplog_end end 1)

  -- At most two queries are sent; the first that is answered gives the timestamp, and there is none
  -- exactly if both fail.
  pub get_oplog_timestamp_lem :
      (return_tail : Bool)
      → ((get_oplog_timestamp session return_tail).queries ≤ 2)
        × ((get_oplog_timestamp session return_tail).timestamp ≡ first_two return_tail)
        × (((get_oplog_timestamp session return_tail).timestamp ≡ none)
            ↔ ((session.oplog_end return_tail 0 ≡ none) × (session.oplog_end return_tail 1 ≡ none)))
  unfolding get_oplog_timestamp
  get_oplog_timestamp_lem end = two_tries (session.oplog_end end 0) (session.oplog_end end 1)

  of_stats_lem :
      (stats : Option (F × (F × F)))
      → ((of_stats session stats ≡ none) ↔ ((stats ≡ none) ⊎ (first_two true ≡ none)))
        × ((status : OplogStatus F)
            → of_stats session stats ≡ some status
            → (first_two true ≡ some status.tail_timestamp)
              × (status.head_timestamp ≡ or_zero (first_two false)))
  of_stats_lem none = ((λ _. inl refl, λ _. refl), λ status h. cc h)
  of_stats_lem (some stats) =
      let (_, head, _) = get_oplog_timestamp_lem false in
      let (_, tail, _) = get_oplog_timestamp_lem true in
      rw (head, tail) (of_tail_lem (or_zero (first_two false)) (first_two true))
    where
      of_tail_lem :
          (head : ℤ) (tail : Option ℤ)
          → ((of_tail session stats head tail ≡ none) ↔ ((some stats ≡ none) ⊎ (tail ≡ none)))
            × ((status : OplogStatus F)
                → of_tail session stats head tail ≡ some status
                → (tail ≡ some status.tail_timestamp) × (status.head_timestamp ≡ head))
      of_tail_lem head none = ((λ _. inr refl, λ _. refl), λ status h. cc h)
      of_tail_lem head (some t) = (
        (λ h. cc h, λ o. elim o [ inl h ↦ cc h | inr h ↦ cc h ]),
        λ status h. (
          ap (λ (s : OplogStatus F). some s.tail_timestamp) (some_inj h),
          sym (ap (λ (s : OplogStatus F). s.head_timestamp) (some_inj h)),
        ),
      )

  -- There is no status exactly if the statistics or both queries of the tail fail. A status has the
  -- tail's timestamp, and the head's where a query of the head is answered; if both fail, the head
  -- is 0 and the status is given all the same.
  pub get_oplog_status_lem :
      ((get_oplog_status session ≡ none) ↔ ((session.coll_stats ≡ none) ⊎ (first_two true ≡ none)))
      × ((status : OplogStatus F)
          → get_oplog_status session ≡ some status
          → (first_two true ≡ some status.tail_timestamp)
            × (status.head_timestamp ≡ or_zero (first_two false)))
  unfolding get_oplog_status
  get_oplog_status_lem = of_stats_lem session.coll_stats

module _ {F : Type 0} (zero_value : F) where
  -- An export sets both timestamps or neither: they are the status's if both are not 0, and else
  -- those of the export before.
  pub export_oplog_timestamps :
      (status : OplogStatus F) (g : OplogGauges F)
      → (status.head_timestamp ≢ pos 0
          → status.tail_timestamp ≢ pos 0
          → ((export_oplog zero_value status g).head ≡ status.head_timestamp)
            × ((export_oplog zero_value status g).tail ≡ status.tail_timestamp))
        × ((status.head_timestamp ≡ pos 0) ⊎ (status.tail_timestamp ≡ pos 0)
            → ((export_oplog zero_value status g).head ≡ g.head)
              × ((export_oplog zero_value status g).tail ≡ g.tail))
  unfolding export_oplog
  export_oplog_timestamps status g = (
    λ h t.
        rw (is_not_zero status.head_timestamp h, is_not_zero status.tail_timestamp t) (refl, refl),
    λ o. rw (one_is_zero o) (sizes_keep status.collection_stats),
  )
    where
      is_not_zero : (a : ℤ) → a ≢ pos 0 → eqb_ℤ a (pos 0) ≡ false
      is_not_zero (pos n) h = ground arith
      is_not_zero (negsuc n) h = ground arith

      one_is_zero :
          (status.head_timestamp ≡ pos 0) ⊎ (status.tail_timestamp ≡ pos 0)
          → (not (eqb_ℤ status.head_timestamp (pos 0)) && not (eqb_ℤ status.tail_timestamp (pos 0)))
            ≡ false
      one_is_zero (inl e) = rw e
      one_is_zero (inr e) = rw e (ground arith)

      sizes_keep :
          (o : Option (F × (F × F)))
          → ((set_sizes zero_value o g).head ≡ g.head) × ((set_sizes zero_value o g).tail ≡ g.tail)
      sizes_keep none = (refl, refl)
      sizes_keep (some stats) = (refl, refl)
