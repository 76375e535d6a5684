-- ===== src/Postgres/Types.antt =====
-- The data of collector/postgres/collector.go, and the calls of other packages as parameters.
use exporter_plus.Prelude.{String, Bool, ◌&&◌, ◌==◌, length, Option, List, if◌then◌else◌}
use exporter_plus.Prelude.Float.{Float64}
use exporter_plus.Prelude.Int.{ℤ}
use exporter_plus.Prelude.GoMap.{GoMap}
use exporter_plus.Prelude.Outcome.{Outcome, ok, panic}
pub use exporter_plus.Prelude.Metrics.{
  ValueType, unset, counter_value, gauge_value, untyped_value, Desc, Metric,
}

-- What database/sql scans into an interface{}: time.Time as its Unix seconds.
pub data DbValue (F : Type 0) : Type 0 where
  int64 : ℤ → DbValue F
  float64 : F → DbValue F
  time : ℤ → DbValue F
  bytes : String → DbValue F
  text : String → DbValue F
  null : DbValue F
  other : DbValue F

-- ColumnUsage
pub data ColumnUsage : Type 0 where
  discard label counter gauge mapped_metric duration : ColumnUsage

-- ColumnMapping: a nil semver.Range is `none`, a nil mapping is empty, which reads alike.
pub record ColumnMapping (V F : Type 0) : Type 0 where
  pub usage : ColumnUsage
  pub description : String
  pub mapping : GoMap F
  pub supported_versions : Option (V → Bool)

-- MetricMap: a nil desc is `none`.
pub record MetricMap (F : Type 0) : Type 0 where
  pub discarded : Bool
  pub vtype : ValueType
  pub desc : Option Desc
  pub conversion : DbValue F → F × Bool

-- MetricMapNamespace
pub record MetricMapNamespace (F : Type 0) : Type 0 where
  pub labels : List String
  pub column_mappings : GoMap (MetricMap F)

-- OverrideQuery
pub record OverrideQuery (V : Type 0) : Type 0 where
  pub version_range : V → Bool
  pub query : String

-- The package semver: its versions and what the exporter calls.
pub record Semver (V : Type 0) : Type 0 where
  -- MustParse and MustParseRange
  pub must_parse : String → V
  pub must_parse_range : String → V → Bool
  pub parse_tolerant : String → Outcome V
  pub lt : V → V → Bool
  pub ne : V → V → Bool
  pub version_string : V → String
  -- the zero Version
  pub zero_version : V

-- the message of MustNewConstMetric's panic
abbrev pub refusal : String
refusal = "invalid metric"

-- prometheus.MustNewConstMetric, of its arguments
unfoldable pub must_new_const_metric : {F : Type 0} → Float64 F → Metric F → Outcome (Metric F)
must_new_const_metric fl m =
    if length m.label_values == length m.desc.variable_labels && fl.accepts m.desc m.label_values
    then ok m
    else panic refusal
