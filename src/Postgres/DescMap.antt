-- ===== src/Postgres/DescMap.antt =====
-- makeDescMap of collector/postgres/collector.go: from column mappings to metric descriptors.
pub mod Laws
use exporter_plus.Prelude.{
  ℕ, String, Bool, true, false, not, Option, none, some, List, [], ◌∷◌, str_eq, if◌then◌else◌,
}
use exporter_plus.Prelude.Text.{append, join_words}
use exporter_plus.Prelude.Int.{ℤ, quot}
use exporter_plus.Prelude.GoMap.{GoMap, lookup, range_insert}
use exporter_plus.Prelude.Float.{Float64}
use exporter_plus.Postgres.Types.{
  DbValue, bytes, text, ColumnUsage, discard, label, counter, gauge, mapped_metric, duration,
  ColumnMapping, ValueType, unset, counter_value, gauge_value, Desc, MetricMap, MetricMapNamespace,
}
use exporter_plus.Postgres.Convert.{db_to_float64}

abbrev pub is_label : ColumnUsage → Bool
is_label label = true
is_label _ = false

-- Is the column queried on this version?
abbrev pub supported : {V : Type 0} → Option (V → Bool) → V → Bool
supported none version = true
supported (some range) version = range version

module _ {V F : Type 0} where
  -- the first loop: the names of the LABEL columns
  unfoldable pub variable_labels : GoMap (ColumnMapping V F) → List String
  variable_labels [] = []
  variable_labels ((name, c) ∷ rest) =
      if is_label c.usage then name ∷ variable_labels rest else variable_labels rest

  -- The variable of the second loop: Go 1.12 has one for all rounds, so a closure that outlives the
  -- loop reads the mapping of the last column.
  unfoldable pub loop_variable : GoMap F → GoMap (ColumnMapping V F) → GoMap F
  loop_variable held [] = held
  loop_variable held ((name, c) ∷ rest) = loop_variable c.mapping rest

module _ {F : Type 0} (fl : Float64 F) where
  abbrev pub discarded_metric : MetricMap F
  discarded_metric = record {
    discarded = true;
    vtype = unset;
    desc = none;
    conversion = λ v. (fl.nan, true);
  }

  abbrev mapped_value : Option F → F × Bool
  mapped_value none = (fl.nan, false)
  mapped_value (some v) = (v, true)

  -- the conversion of a MAPPEDMETRIC column
  convert_mapped : GoMap F → DbValue F → F × Bool
  convert_mapped mapping (text s) = mapped_value (lookup s mapping)
  convert_mapped mapping _ = (fl.nan, false)

  duration_value : Option ℤ → F × Bool
  duration_value none = (fl.nan, false)
  duration_value (some d) = (fl.of_int (quot d 1000000), true)

  duration_of : String → F × Bool
  unfolding duration_value
  duration_of s = if str_eq s "-1" then (fl.nan, false) else duration_value (fl.parse_duration s)

  -- the conversion of a DURATION column, in milliseconds
  convert_duration : DbValue F → F × Bool
  unfolding duration_of
  convert_duration (bytes s) = duration_of s
  convert_duration (text s) = duration_of s
  convert_duration _ = (fl.nan, false)

module _ {V F : Type 0} (fl : Float64 F) (version : V) (server_labels : GoMap String) where
  abbrev new_desc : String → String → List String → Desc
  new_desc name help labels = record {
    fq_name = name;
    help = help;
    variable_labels = labels;
    const_labels = server_labels;
  }

  -- the switch on the usage
  unfoldable pub metric_of_usage :
      ColumnUsage → String → List String → GoMap F → String → String → MetricMap F
  unfolding convert_mapped convert_duration
  metric_of_usage discard ns labels captured name help = discarded_metric fl
  metric_of_usage label ns labels captured name help = discarded_metric fl
  metric_of_usage counter ns labels captured name help = record {
    discarded = false;
    vtype = counter_value;
    desc = some (new_desc (join_words ns name) help labels);
    conversion = db_to_float64 fl;
  }
  metric_of_usage gauge ns labels captured name help = record {
    discarded = false;
    vtype = gauge_value;
    desc = some (new_desc (join_words ns name) help labels);
    conversion = db_to_float64 fl;
  }
  metric_of_usage mapped_metric ns labels captured name help = record {
    discarded = false;
    vtype = gauge_value;
    desc = some (new_desc (join_words ns name) help labels);
    conversion = convert_mapped fl captured;
  }
  metric_of_usage duration ns labels captured name help = record {
    discarded = false;
    vtype = gauge_value;
    desc = some (new_desc (append (join_words ns name) "_milliseconds") help labels);
    conversion = convert_duration fl;
  }

  -- one round of the second loop
  unfoldable pub column_metric :
      String → List String → GoMap F → String → ColumnMapping V F → MetricMap F
  unfolding metric_of_usage
  column_metric ns labels captured name c =
      if not (supported c.supported_versions version)
      then discarded_metric fl
      else metric_of_usage c.usage ns labels captured name c.description

  -- one round of the outer loop
  unfoldable pub make_namespace : String → GoMap (ColumnMapping V F) → MetricMapNamespace F
  unfolding variable_labels loop_variable column_metric
  make_namespace ns mappings =
      let labels = variable_labels mappings in
      record {
        labels = labels;
        column_mappings =
            range_insert (column_metric ns labels (loop_variable [] mappings)) mappings [];
      }

  unfoldable pub make_desc_map : GoMap (GoMap (ColumnMapping V F)) → GoMap (MetricMapNamespace F)
  unfolding make_namespace
  make_desc_map metric_maps = range_insert make_namespace metric_maps []
