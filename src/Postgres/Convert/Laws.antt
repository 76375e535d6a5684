-- ===== src/Postgres/Convert/Laws.antt =====
-- Which spellings of a usage and which database values are accepted.
use exporter_plus.Prelude.{
  String, ◌≡◌, refl, ◌↔◌, true, false, none, arith, str_eq, str_eq_iff, ap, ◌∙◌,
}
use exporter_plus.Prelude.Outcome.{ok}
use exporter_plus.Prelude.Float.{Float64}
use exporter_plus.Postgres.Types.{
  DbValue, bytes, text, other, ColumnUsage, discard, label, counter, gauge, mapped_metric, duration,
}
use exporter_plus.Postgres.Convert.{string_to_column_usage, db_to_float64, db_to_string}

-- The spelling of a usage in the query file.
abbrev pub usage_name : ColumnUsage → String
usage_name discard = "DISCARD"
usage_name label = "LABEL"
usage_name counter = "COUNTER"
usage_name gauge = "GAUGE"
usage_name mapped_metric = "MAPPEDMETRIC"
usage_name duration = "DURATION"

parse-usage_name : (u : ColumnUsage) → string_to_column_usage (usage_name u) ≡ ok u
unfolding string_to_column_usage str_eq
parse-usage_name discard = refl
parse-usage_name label = refl
parse-usage_name counter = refl
parse-usage_name gauge = refl
parse-usage_name mapped_metric = refl
parse-usage_name duration = refl

usage_name-parse :
    (s : String) (u : ColumnUsage) → string_to_column_usage s ≡ ok u → s ≡ usage_name u
unfolding string_to_column_usage
usage_name-parse s u h = ground (
  arith,
  str_eq_iff s "DISCARD",
  str_eq_iff s "LABEL",
  str_eq_iff s "COUNTER",
  str_eq_iff s "GAUGE",
  str_eq_iff s "MAPPEDMETRIC",
  str_eq_iff s "DURATION",
)

-- A text is read as a usage exactly if it is that usage's name, in capitals.
pub string_to_column_usage_iff :
    (s : String) (u : ColumnUsage) → (string_to_column_usage s ≡ ok u) ↔ (s ≡ usage_name u)
string_to_column_usage_iff s u =
    (usage_name-parse s u, λ e. ap string_to_column_usage e ∙ parse-usage_name u)

module _ {F : Type 0} (fl : Float64 F) where
  -- A value that is no number: a text that strconv cannot parse, or a type that is not handled.
  abbrev pub IsRejected : DbValue F → Type 0
  IsRejected (bytes s) = fl.parse s ≡ none
  IsRejected (text s) = fl.parse s ≡ none
  IsRejected other = Unit
  IsRejected _ = ⊥

  -- A value fails to convert to a number exactly if it is a text that strconv.ParseFloat rejects or
  -- of a type that is not handled; it is then NaN. Whatever converts to a number also converts to
  -- a label.
  pub db_to_float64_iff :
      (v : DbValue F)
      → (((db_to_float64 fl v).1 ≡ false) ↔ IsRejected v)
        × ((db_to_float64 fl v).1 ≡ false → (db_to_float64 fl v).0 ≡ fl.nan)
        × ((db_to_float64 fl v).1 ≡ true → (db_to_string fl v).1 ≡ true)
  unfolding db_to_float64 db_to_string
  db_to_float64_iff (bytes s) = ground arith
  db_to_float64_iff (text s) = ground arith
  db_to_float64_iff other = ground arith
  db_to_float64_iff _ = ground arith
