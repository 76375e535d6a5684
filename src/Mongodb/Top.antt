-- ===== src/Mongodb/Top.antt =====
-- collector/mongodb/top_counters.go: the times and the counts of the operations on each collection.
pub mod Fits
pub mod Laws
use exporter_plus.Prelude.{each}
use exporter_plus.Prelude.Text.{split, join}
use exporter_plus.Mongodb.Calls.{millionth}
use exporter_plus.Prelude.GoMap.{GoMap}
use exporter_plus.Prelude.{String, Bool, Option, List, [], ◌∷◌, ◌++◌}
use exporter_plus.Prelude.Int.{ℤ, pos}
use exporter_plus.Mongodb.Calls.{ok}
use exporter_plus.Mongodb.Calls.{
  Vec, gauge_vec, counter_vec, summary_vec, Value, val, int, Call, set, observe, collect, reset,
  Trace, sequence, when, deref, described, concat,
}

abbrev pub top_time_seconds_total : Vec
top_time_seconds_total =
    gauge_vec "" "top_time_seconds_total"
      "The top command provides operation time, in seconds, for each database collection"
      ("type" ∷ "database" ∷ "collection" ∷ [])

abbrev pub top_count_total : Vec
top_count_total =
    gauge_vec "" "top_count_total"
      "The top command provides operation count for each database collection"
      ("type" ∷ "database" ∷ "collection" ∷ [])

-- TopcounterStats
pub record TopcounterStats (F : Type 0) : Type 0 where
  pub time : F
  pub count : F

-- TopStats
pub record TopStats (F : Type 0) : Type 0 where
  pub total : TopcounterStats F
  pub read_lock : TopcounterStats F
  pub write_lock : TopcounterStats F
  pub queries : TopcounterStats F
  pub get_more : TopcounterStats F
  pub insert : TopcounterStats F
  pub update : TopcounterStats F
  pub remove : TopcounterStats F
  pub commands : TopcounterStats F

-- The database and the collection of a namespace, from its parts. strings.Split gives one at least.
abbrev namespace_labels : List String → String × String
namespace_labels [] = ("", "")
namespace_labels (database ∷ rest) = (database, join "." rest)

unfoldable pub top_labels : String → String × String
top_labels collection_namespace = namespace_labels (split b'.' collection_namespace)

-- the fields of TopStats, by reflection
abbrev pub top_fields : {F : Type 0} → TopStats F → List (String × TopcounterStats F)
top_fields s =
    ("Total", s.total)
    ∷ ("ReadLock", s.read_lock)
    ∷ ("WriteLock", s.write_lock)
    ∷ ("Queries", s.queries)
    ∷ ("GetMore", s.get_more)
    ∷ ("Insert", s.insert)
    ∷ ("Update", s.update)
    ∷ ("Remove", s.remove)
    ∷ ("Commands", s.commands)
    ∷ []

-- a round of the inner loop
abbrev pub top_field_calls :
    {F : Type 0} → String × String → String × TopcounterStats F → List (Call F)
top_field_calls (database, collection) (metric_type, stats) =
    set top_time_seconds_total (metric_type ∷ database ∷ collection ∷ []) (millionth stats.time)
    ∷ set top_count_total (metric_type ∷ database ∷ collection ∷ []) (val stats.count)
    ∷ []

-- a round of the outer loop
unfoldable pub top_calls : {F : Type 0} → String × TopStats F → List (Call F)
top_calls (collection_namespace, top_stat) =
    each (top_field_calls (top_labels collection_namespace)) (top_fields top_stat)

unfoldable pub export_top_stats_map : {F : Type 0} → GoMap (TopStats F) → Trace F
export_top_stats_map top_stats =
    ok (each top_calls top_stats ++ (collect top_time_seconds_total ∷ collect top_count_total ∷ []))

unfoldable pub describe_top_stats_map : {F : Type 0} → GoMap (TopStats F) → List Vec
describe_top_stats_map tops = top_time_seconds_total ∷ top_count_total ∷ []
