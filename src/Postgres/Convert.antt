-- ===== src/Postgres/Convert.antt =====
-- stringToColumnUsage, dbToFloat64 and dbToString of collector/postgres/collector.go.
pub mod Laws
use exporter_plus.Prelude.{String, Bool, true, false, Option, none, some, str_eq, if◌then◌else◌}
use exporter_plus.Prelude.Text.{append}
use exporter_plus.Prelude.Int.{format_ℤ}
use exporter_plus.Prelude.Outcome.{Outcome, ok, err}
use exporter_plus.Prelude.Float.{Float64}
use exporter_plus.Postgres.Types.{
  DbValue, int64, float64, time, bytes, text, null, other, ColumnUsage, discard, label, counter,
  gauge, mapped_metric, duration,
}

unfoldable pub string_to_column_usage : String → Outcome ColumnUsage
string_to_column_usage s =
    if str_eq s "DISCARD"
    then ok discard
    else if str_eq s "LABEL"
    then ok label
    else if str_eq s "COUNTER"
    then ok counter
    else if str_eq s "GAUGE"
    then ok gauge
    else if str_eq s "MAPPEDMETRIC"
    then ok mapped_metric
    else if str_eq s "DURATION"
    then ok duration
    else err (append "wrong ColumnUsage given : " s)

module _ {F : Type 0} (fl : Float64 F) where
  abbrev parsed : Option F → F × Bool
  parsed none = (fl.nan, false)
  parsed (some result) = (result, true)

  unfoldable pub db_to_float64 : DbValue F → F × Bool
  db_to_float64 (int64 v) = (fl.of_int v, true)
  db_to_float64 (float64 v) = (v, true)
  db_to_float64 (time v) = (fl.of_int v, true)
  db_to_float64 (bytes s) = parsed (fl.parse s)
  db_to_float64 (text s) = parsed (fl.parse s)
  db_to_float64 null = (fl.nan, true)
  db_to_float64 other = (fl.nan, false)

  unfoldable pub db_to_string : DbValue F → String × Bool
  db_to_string (int64 v) = (format_ℤ v, true)
  db_to_string (float64 v) = (fl.format v, true)
  db_to_string (time v) = (format_ℤ v, true)
  db_to_string null = ("", true)
  db_to_string (bytes s) = (s, true)
  db_to_string (text s) = (s, true)
  db_to_string other = ("", false)
