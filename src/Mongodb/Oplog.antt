-- ===== src/Mongodb/Oplog.antt =====
-- collector/mongodb/oplog_status.go: the ends of the oplog, and the gauges about them.
pub mod Calls
pub mod Gauges
pub mod Laws
use exporter_plus.Prelude.{
  ℕ, zero, suc, ◌/◌, Bool, true, false, not, ◌&&◌, Option, none, some, if◌then◌else◌,
}
use exporter_plus.Prelude.Int.{ℤ, pos, negsuc, eqb_ℤ}

-- bson.MongoTimestamp >> 32, an arithmetic shift: the integer that float64() converts
unfoldable pub bson_mongo_timestamp_to_unix : ℤ → ℤ
bson_mongo_timestamp_to_unix (pos n) = pos (n / 4294967296)
bson_mongo_timestamp_to_unix (negsuc n) = negsuc (n / 4294967296)

-- What the session answers: the n-th query of an end of the oplog (true for the tail), and the
-- statistics of the collection; `none` is an error.
pub record Session (F : Type 0) : Type 0 where
  pub oplog_end : Bool → ℕ → Option ℤ
  pub coll_stats : Option (F × (F × F))

-- A timestamp or an error, and the number of queries that were sent to this end.
pub record Found : Type 0 where
  pub timestamp : Option ℤ
  pub queries : ℕ

-- what a try gives, with what the later ones do
abbrev pub tried : Option ℤ → ℕ → Found → Found
tried none sent later = later
tried (some ts) sent later = record {
  timestamp = some (bson_mongo_timestamp_to_unix ts);
  queries = suc sent;
}

module _ {F : Type 0} (session : Session F) (return_tail : Bool) where
  -- The loop, with the tries that are left. Each failure sleeps for half a second.
  unfoldable pub try_oplog_timestamp : ℕ → ℕ → Found
  try_oplog_timestamp zero sent = record { timestamp = none; queries = sent }
  try_oplog_timestamp (suc tries) sent =
      tried (session.oplog_end return_tail sent) sent (try_oplog_timestamp tries (suc sent))

  -- GetOplogTimestamp, with its two tries
  unfoldable pub get_oplog_timestamp : Found
  unfolding try_oplog_timestamp
  get_oplog_timestamp = try_oplog_timestamp 2 0

-- OplogStatus: the statistics are the count, the size and the storage size.
pub record OplogStatus (F : Type 0) : Type 0 where
  pub tail_timestamp : ℤ
  pub head_timestamp : ℤ
  pub collection_stats : Option (F × (F × F))

-- GetOplogTimestamp returns 0 with an error.
abbrev pub or_zero : Option ℤ → ℤ
or_zero none = pos 0
or_zero (some t) = t

module _ {F : Type 0} (session : Session F) where
  abbrev of_tail : F × (F × F) → ℤ → Option ℤ → Option (OplogStatus F)
  of_tail stats head none = none
  of_tail stats head (some tail) =
      some (record { tail_timestamp = tail; head_timestamp = head; collection_stats = some stats })

  abbrev of_stats : Option (F × (F × F)) → Option (OplogStatus F)
  of_stats none = none
  of_stats (some stats) =
      of_tail stats (or_zero (get_oplog_timestamp session false).timestamp)
        (get_oplog_timestamp session true).timestamp

  -- GetOplogStatus. The error of the head is overwritten by that of the tail before it is looked at.
  unfoldable pub get_oplog_status : Option (OplogStatus F)
  get_oplog_status = of_stats session.coll_stats

-- The gauges, which keep their values between exports.
pub record OplogGauges (F : Type 0) : Type 0 where
  pub count : F
  pub size_current : F
  pub size_storage : F
  pub head : ℤ
  pub tail : ℤ

module _ {F : Type 0} (zero_value : F) where
  abbrev set_sizes : Option (F × (F × F)) → OplogGauges F → OplogGauges F
  set_sizes none g = record g { size_current = zero_value; size_storage = zero_value }
  set_sizes (some (count, (size, storage))) g = record g {
    count = count;
    size_current = size;
    size_storage = storage;
  }

  -- Export
  unfoldable pub export_oplog : OplogStatus F → OplogGauges F → OplogGauges F
  export_oplog status g =
      let sized = set_sizes status.collection_stats g in
      if not (eqb_ℤ status.head_timestamp (pos 0)) && not (eqb_ℤ status.tail_timestamp (pos 0))
      then record sized { head = status.head_timestamp; tail = status.tail_timestamp }
      else sized
