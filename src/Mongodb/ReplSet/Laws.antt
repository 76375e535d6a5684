-- ===== src/Mongodb/ReplSet/Laws.antt =====
-- The number of primaries, and the lag behind the primary.
use exporter_plus.Prelude.{
  ℕ, suc, ◌+◌, ◌≤◌, ◌≡◌, ◌≢◌, ◌⊎◌, refl, ◌∙◌, Bool, true, false, Bool-cases, inl, inr, List, [],
  ◌∷◌, arith, All, length, if◌then◌else◌,
}
use exporter_plus.Prelude.Int.{negsuc, sub64}
use exporter_plus.Mongodb.ReplSet.{
  Time, zero_time, Member, ReplSetStatus, Scan, is_primary, is_self, scan_member, scan_members,
  start, replica_lag, export_repl_set,
}

-- How many members pass the test, and whether one does.
unfoldable pub count : {F : Type 0} → (Member F → Bool) → List (Member F) → ℕ
count test [] = 0
count test (m ∷ ms) = if test m then suc (count test ms) else count test ms

abbrev pub HaveTime : {F : Type 0} → (Member F → Bool) → Time → List (Member F) → Type 0
HaveTime test t = All (λ m. test m ≡ true → m.optime_date ≡ t)

module _ {F : Type 0} where
  m_count_lem :
      (ms : List (Member F)) (s : Scan F)
      → (scan_members ms s).m_count ≡ s.m_count + count is_primary ms
  unfolding scan_members count
  m_count_lem [] s = omega arith
  m_count_lem (m ∷ ms) s = elim (Bool-cases (is_primary m)) [
    | inl e ↦ rw e (m_count_lem ms (scan_member m s) ∙ rw (e, scan_member) (omega arith))
    | inr e ↦ rw e (m_count_lem ms (scan_member m s) ∙ rw (e, scan_member) (omega arith))
  ]

  count-length : (test : Member F → Bool) (ms : List (Member F)) → count test ms ≤ length ms
  unfolding count
  count-length test [] = omega arith
  count-length test (m ∷ ms) = ground (arith, count-length test ms)

  -- The count of the primaries that is exported is the number of the members in state 1, at most
  -- that of all the members.
  pub master_count_lem :
      (status : ReplSetStatus F)
      → ((export_repl_set status).master_count ≡ count is_primary status.members)
        × ((export_repl_set status).master_count ≤ (export_repl_set status).number_of_members)
  unfolding export_repl_set
  master_count_lem status =
      let e = m_count_lem status.members start in
      (e ∙ (omega arith), omega (arith, e, count-length is_primary status.members))

  -- The time of the last member that passes the test, or else the one before.
  unfoldable pub last_time : (Member F → Bool) → List (Member F) → Time → Time
  last_time test [] t = t
  last_time test (m ∷ ms) t = last_time test ms (if test m then m.optime_date else t)

  scan_times :
      (ms : List (Member F)) (s : Scan F)
      → ((scan_members ms s).primary_op_time ≡ last_time is_primary ms s.primary_op_time)
        × ((scan_members ms s).my_op_time ≡ last_time is_self ms s.my_op_time)
  unfolding scan_members last_time
  scan_times [] s = (refl, refl)
  scan_times (m ∷ ms) s = unfold scan_member in scan_times ms (scan_member m s)

  last_time-count_zero :
      (test : Member F → Bool) (ms : List (Member F)) (t : Time)
      → count test ms ≡ 0
      → last_time test ms t ≡ t
  unfolding count last_time
  last_time-count_zero test [] t h = refl
  last_time-count_zero test (m ∷ ms) t h = elim (Bool-cases (test m)) [
    | inl e ↦ cc (rw e at h)
    | inr e ↦ rw e (last_time-count_zero test ms t (rw e at h))
  ]

  last_time-HaveTime :
      (test : Member F → Bool) (ms : List (Member F)) (t before : Time)
      → HaveTime test t ms
      → (count test ms ≢ 0) ⊎ (before ≡ t)
      → last_time test ms before ≡ t
  unfolding count last_time
  last_time-HaveTime test [] t before _ (inl h) = absurd (h refl)
  last_time-HaveTime test [] t before _ (inr e) = e
  last_time-HaveTime test (m ∷ ms) t before (p, ps) h = elim (Bool-cases (test m)) [
    | inl e ↦ rw e (last_time-HaveTime test ms t m.optime_date ps (inr (p e)))
    | inr e ↦ rw e (last_time-HaveTime test ms t before ps (rw e at h))
  ]

  -- The lag that is exported is -1 if no member is primary or none is the one that answers. If there
  -- is a primary and the primaries agree on a time, and there is the one that answers and those agree
  -- on a time, and neither is the zero time, it is the primary's time less the other one.
  pub replica_lag_lem :
      (status : ReplSetStatus F)
      → ((count is_primary status.members ≡ 0) ⊎ (count is_self status.members ≡ 0)
          → (export_repl_set status).my_replica_lag ≡ negsuc 0)
        × ((primary my : Time)
            → count is_primary status.members ≢ 0
            → count is_self status.members ≢ 0
            → HaveTime is_primary primary status.members
            → HaveTime is_self my status.members
            → primary.is_zero ≡ false
            → my.is_zero ≡ false
            → (export_repl_set status).my_replica_lag ≡ sub64 primary.unix my.unix)
  unfolding export_repl_set
  replica_lag_lem status =
      let (p, m) = scan_times status.members start in
      (
        λ o. elim o [
          | inl none_primary ↦
              rw (p, last_time-count_zero is_primary status.members zero_time none_primary)
          | inr none_self ↦
              rw (m, last_time-count_zero is_self status.members zero_time none_self)
                (no_lag (scan_members status.members start).primary_op_time)
        ],
        λ primary my has has' ps ms z z'.
            rw
              (
                p,
                m,
                last_time-HaveTime is_primary status.members primary zero_time ps (inl has),
                last_time-HaveTime is_self status.members my zero_time ms (inl has'),
              )
              (rw (z, z')),
      )
    where
      no_lag : (t : Time) → replica_lag t zero_time ≡ negsuc 0
      no_lag t = elim (Bool-cases t.is_zero) [ inl e ↦ rw e | inr e ↦ rw e ]
