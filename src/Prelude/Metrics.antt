-- ===== src/Prelude/Metrics.antt =====
-- What the exporters hand to the package prometheus.
use exporter_plus.Prelude.{String, List}
use exporter_plus.Prelude.GoMap.{GoMap}

-- prometheus.ValueType; `unset` is the zero value
pub data ValueType : Type 0 where
  unset counter_value gauge_value untyped_value : ValueType

-- The arguments of a call of prometheus.NewDesc.
pub record Desc : Type 0 where
  pub fq_name : String
  pub help : String
  pub variable_labels : List String
  pub const_labels : GoMap String

-- The arguments of a call of prometheus.MustNewConstMetric.
pub record Metric (F : Type 0) : Type 0 where
  pub desc : Desc
  pub vtype : ValueType
  pub value : F
  pub label_values : List String
