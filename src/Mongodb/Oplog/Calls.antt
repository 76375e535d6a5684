-- ===== src/Mongodb/Oplog/Calls.antt =====
-- OplogStatus.Export and Describe of collector/mongodb/oplog_status.go, as the calls that they make.
use exporter_plus.Prelude.{
  Bool, not, ◌&&◌, Option, none, some, List, [], ◌∷◌, if◌then◌else◌, true, false, refl, ◌&◌,
}
use exporter_plus.Prelude.Int.{ℤ, pos, eqb_ℤ}
use exporter_plus.Mongodb.Calls.{ok}
use exporter_plus.Mongodb.Calls.{Vec, val, int, Call, set, collect, Trace, sequence}
use exporter_plus.Mongodb.Calls.Fits.{IsFit, sequence-IsFit}
use exporter_plus.Mongodb.Oplog.{OplogStatus}
use exporter_plus.Mongodb.Oplog.Gauges.{
  oplog_status_count, oplog_status_head_timestamp, oplog_status_tail_timestamp,
  oplog_status_size_bytes,
}

module _ {F : Type 0} where
  abbrev pub oplog_sizes : Option (F × (F × F)) → List (Call F)
  oplog_sizes none = []
  oplog_sizes (some (count, (size, storage_size))) =
      set oplog_status_count [] (val count)
      ∷ set oplog_status_size_bytes ("current" ∷ []) (val size)
      ∷ set oplog_status_size_bytes ("storage" ∷ []) (val storage_size)
      ∷ []

  abbrev pub oplog_timestamps : ℤ → ℤ → Bool → List (Call F)
  oplog_timestamps head tail both =
      if both
      then set oplog_status_head_timestamp [] (int head)
        ∷ set oplog_status_tail_timestamp [] (int tail)
        ∷ []
      else []

  unfoldable pub oplog_calls : OplogStatus F → Trace F
  oplog_calls s = sequence (
      ok (
        set oplog_status_size_bytes ("current" ∷ []) (int (pos 0))
        ∷ set oplog_status_size_bytes ("storage" ∷ []) (int (pos 0))
        ∷ [])
      ∷ ok (oplog_sizes s.collection_stats)
      ∷ ok (
          oplog_timestamps s.head_timestamp s.tail_timestamp
            (not (eqb_ℤ s.head_timestamp (pos 0)) && not (eqb_ℤ s.tail_timestamp (pos 0))))
      ∷ ok (
          collect oplog_status_count
          ∷ collect oplog_status_head_timestamp
          ∷ collect oplog_status_tail_timestamp
          ∷ collect oplog_status_size_bytes
          ∷ [])
      ∷ [])

oplog_timestamps-IsFit :
    (F : Type 0) (head tail : ℤ) (both : Bool)
    → IsFit (ok (oplog_timestamps {F = F} head tail both))
oplog_timestamps-IsFit F head tail true = refl
oplog_timestamps-IsFit F head tail false = refl

module _ {F : Type 0} where
  oplog_sizes-IsFit : (stats : Option (F × (F × F))) → IsFit (ok (oplog_sizes stats))
  oplog_sizes-IsFit none = refl
  oplog_sizes-IsFit (some (count, (size, storage_size))) = refl

  pub oplog_calls-IsFit : (s : OplogStatus F) → IsFit (oplog_calls s)
  unfolding oplog_calls
  oplog_calls-IsFit s = sequence-IsFit _ (
      refl
      & oplog_sizes-IsFit s.collection_stats
      & oplog_timestamps-IsFit _ s.head_timestamp s.tail_timestamp _
      & refl
      & tt)

unfoldable pub describe_oplog_status : List Vec
describe_oplog_status =
    oplog_status_count ∷ oplog_status_head_timestamp ∷ oplog_status_tail_timestamp
    ∷ oplog_status_size_bytes ∷ []
