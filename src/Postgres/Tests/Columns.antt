-- ===== src/Postgres/Tests/Columns.antt =====
-- Versions, column mappings, overrides and rows.
use exporter_plus.Prelude.{
  ℕ, String, true, false, not, ◌≡◌, refl, ◌↔◌, none, some, List, [], ◌∷◌, ltb, str_eq, arith,
  get_elem?,
}
use exporter_plus.Prelude.Int.{ℤ, format_ℤ}
use exporter_plus.Prelude.Text.{format_ℕ}
use exporter_plus.Prelude.GoMap.{lookup, insert}
use exporter_plus.Prelude.Outcome.{ok}
use exporter_plus.Prelude.Float.{concrete}
use exporter_plus.Postgres.Types.{
  MetricMap, MetricMapNamespace, OverrideQuery, ColumnMapping, gauge,
}
use exporter_plus.Postgres.Convert.{db_to_string}
use exporter_plus.Postgres.Builtin.{pg_stat_activity, builtin_metric_maps}
use exporter_plus.Postgres.Builtin.Laws.{builtin-IsTable}
use exporter_plus.Postgres.DescMap.{make_desc_map}
use exporter_plus.Postgres.DescMap.Laws.{HasLabels, IsExported, IsLabels, make_desc_map_column}
use exporter_plus.Postgres.BuiltinQueries.Laws.{RangeLaws}
use exporter_plus.Postgres.Namespace.{label_values, row_metrics}
use exporter_plus.Postgres.Namespace.Laws.{IsRead, IsWellFormed, row_metrics-IsRead}
use exporter_plus.Postgres.Namespace.Missing.{Absent, IsDistinct, label_values_lem}
use exporter_plus.Postgres.Tests.World.{versions, row}

ltb_trans : (a b c : ℕ) → ltb a b ≡ true → ltb b c ≡ true → ltb a c ≡ true
ltb_trans a b c h k = ground arith

-- The laws that the built-in queries ask of semver hold of these versions.
versions-RangeLaws : RangeLaws versions
unfolding str_eq
versions-RangeLaws = record {
  above_0 = λ v. refl;
  from_10 = λ v. refl;
  from_9_2 = λ v. refl;
  below_9_2 = λ v. refl;
  between = λ v. refl;
  lt_trans = ltb_trans;
  ordered = refl;
}

abbrev old : OverrideQuery ℕ
old = record { version_range = λ v. ltb v 920; query = "SELECT 1" }

abbrev new : OverrideQuery ℕ
new = record { version_range = λ v. not (ltb v 920); query = "SELECT 2" }

abbrev count_column : ColumnMapping ℕ ℤ
count_column = record {
  usage = gauge;
  description = "number of connections in this state";
  mapping = [];
  supported_versions = none;
}

make_desc_map_column_example :
    (n : MetricMapNamespace ℤ) × (m : MetricMap ℤ) × (lookup "pg_stat_activity"
        (make_desc_map concrete 961 [] (builtin_metric_maps versions))
      ≡ some n)
    × IsLabels {V = ℕ} {F = ℤ} n.labels (pg_stat_activity versions)
    × (lookup "count" n.column_mappings ≡ some m)
    × ((m.discarded ≡ false) ↔ IsExported 961 count_column)
    × HasLabels [] n.labels m
unfolding builtin_metric_maps pg_stat_activity lookup str_eq
make_desc_map_column_example =
    make_desc_map_column concrete 961 [] "pg_stat_activity" "count" (builtin_metric_maps versions)
      (pg_stat_activity versions) count_column (builtin-IsTable ℤ versions) refl refl

abbrev names : List String
names = "pid" ∷ "state" ∷ "delay" ∷ []

-- no slot_name: the label takes the pid
label_values_lem_example :
    ((k : ℕ)
      → IsDistinct names
      → get_elem? names k ≡ some "slot_name"
      → get_elem? ("walsender" ∷ "4" ∷ []) 1 ≡ some (db_to_string concrete (row k)).0)
    × (Absent "slot_name" names
        → get_elem? ("walsender" ∷ "4" ∷ []) 1 ≡ some (db_to_string concrete (row 0)).0)
unfolding label_values str_eq lookup insert db_to_string format_ℤ format_ℕ
label_values_lem_example =
    label_values_lem concrete names row ("state" ∷ "slot_name" ∷ []) ("walsender" ∷ "4" ∷ []) 1
      "slot_name" refl refl

abbrev mapping : MetricMapNamespace ℤ
mapping = record { labels = "state" ∷ []; column_mappings = [] }

mapping-IsWellFormed : IsWellFormed concrete [] "replication" mapping
unfolding lookup
mapping-IsWellFormed = λ name m e. cc e

row_metrics-IsRead_example :
    (values : List String) × (label_values concrete names row mapping.labels ≡ ok values)
    × IsRead concrete [] "replication" mapping names values
        (row_metrics concrete [] "replication" mapping names row)
row_metrics-IsRead_example =
    row_metrics-IsRead concrete [] "replication" mapping names row (omega arith)
      mapping-IsWellFormed
