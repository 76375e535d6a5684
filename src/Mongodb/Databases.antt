-- ===== src/Mongodb/Databases.antt =====
-- collector/mongodb/database_status.go and profile_status.go: the sizes and the slow queries of a database.
pub mod Fits
use exporter_plus.Prelude.{map}
use exporter_plus.Prelude.Text.{split}
use exporter_plus.Prelude.GoMap.{GoMap}
use exporter_plus.Prelude.{String, Bool, Option, List, [], ◌∷◌, ◌++◌}
use exporter_plus.Prelude.Int.{ℤ, pos}
use exporter_plus.Mongodb.Calls.{ok}
use exporter_plus.Mongodb.Calls.{
  Vec, gauge_vec, counter_vec, summary_vec, Value, val, int, Call, set, observe, collect, reset,
  Trace, sequence, when, deref, described, concat,
}

abbrev pub index_size : Vec
index_size =
    gauge_vec "db" "index_size_bytes"
      "The total size in bytes of all indexes created on this database" ("db" ∷ "shard" ∷ [])

abbrev pub data_size : Vec
data_size =
    gauge_vec "db" "data_size_bytes"
      "The total size in bytes of the uncompressed data held in this database" ("db" ∷ "shard" ∷ [])

abbrev pub collections_total : Vec
collections_total =
    gauge_vec "db" "collections_total"
      "Contains a count of the number of collections in that database" ("db" ∷ "shard" ∷ [])

abbrev pub indexes_total : Vec
indexes_total =
    gauge_vec "db" "indexes_total"
      "Contains a count of the total number of indexes across all collections in the database"
      ("db" ∷ "shard" ∷ [])

abbrev pub objects_total : Vec
objects_total =
    gauge_vec "db" "objects_total"
      "Contains a count of the number of objects (i.e. documents) in the database across all collections"
      ("db" ∷ "shard" ∷ [])

abbrev pub profile_count : Vec
profile_count =
    gauge_vec "profile" "slow_query_30s_count"
      "The number of slow queries in this database during last 30 seconds" ("database" ∷ [])

-- RawStatus
pub record RawStatus : Type 0 where
  pub name : String
  pub index_size : ℤ
  pub data_size : ℤ
  pub collections : ℤ
  pub objects : ℤ
  pub indexes : ℤ

-- DatabaseStatus
pub record DatabaseStatus : Type 0 where
  pub name : String
  pub index_size : ℤ
  pub data_size : ℤ
  pub collections : ℤ
  pub objects : ℤ
  pub indexes : ℤ
  pub shards : GoMap (Option RawStatus)

unfoldable pub describe_database_status : DatabaseStatus → List Vec
describe_database_status s =
    index_size ∷ data_size ∷ collections_total ∷ indexes_total ∷ objects_total ∷ []

-- ProfileStatus
pub record ProfileStatus : Type 0 where
  pub name : String
  pub count : ℤ

unfoldable pub export_profile_status : {F : Type 0} → ProfileStatus → Trace F
export_profile_status s = ok (
    set profile_count (s.name ∷ []) (int s.count)
    ∷ collect profile_count
    ∷ reset profile_count
    ∷ [])

unfoldable pub describe_profile_status : ProfileStatus → List Vec
describe_profile_status s = profile_count ∷ []

-- strings.Split(shard, "/")[0]
abbrev before_slash : List String → String
before_slash [] = ""
before_slash (host ∷ rest) = host

-- a round of the loop over the shards
abbrev pub shard_calls : {F : Type 0} → String × Option RawStatus → Trace F
shard_calls (shard, stats) = deref stats (λ s.
    let host = before_slash (split b'/' shard) in
    ok (
      set index_size (s.name ∷ host ∷ []) (int s.index_size)
      ∷ set data_size (s.name ∷ host ∷ []) (int s.data_size)
      ∷ set collections_total (s.name ∷ host ∷ []) (int s.collections)
      ∷ set indexes_total (s.name ∷ host ∷ []) (int s.indexes)
      ∷ set objects_total (s.name ∷ host ∷ []) (int s.objects)
      ∷ []))

abbrev pub status_calls : {F : Type 0} → DatabaseStatus → List (String × Option RawStatus) → Trace F
status_calls s [] = ok (
    set index_size (s.name ∷ "" ∷ []) (int s.index_size)
    ∷ set data_size (s.name ∷ "" ∷ []) (int s.data_size)
    ∷ set collections_total (s.name ∷ "" ∷ []) (int s.collections)
    ∷ set indexes_total (s.name ∷ "" ∷ []) (int s.indexes)
    ∷ set objects_total (s.name ∷ "" ∷ []) (int s.objects)
    ∷ [])
status_calls s (x ∷ xs) = sequence (map shard_calls (x ∷ xs))

unfoldable pub export_database_status : {F : Type 0} → DatabaseStatus → Trace F
export_database_status s = sequence (
    status_calls s s.shards
    ∷ ok (
        collect index_size
        ∷ collect data_size
        ∷ collect collections_total
        ∷ collect indexes_total
        ∷ collect objects_total
        ∷ reset index_size
        ∷ reset data_size
        ∷ reset collections_total
        ∷ reset indexes_total
        ∷ reset objects_total
        ∷ [])
    ∷ [])
