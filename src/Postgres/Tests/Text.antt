-- ===== src/Postgres/Tests/Text.antt =====
-- Labels, connection strings, environments, usages, numbers and units.
use exporter_plus.Prelude.{String, ◌≡◌, ◌≢◌, refl, none, some, [], ◌∷◌, str_eq, ne_of_str_eq, arith}
use exporter_plus.Prelude.Int.{ℤ}
use exporter_plus.Prelude.Text.{is_space}
use exporter_plus.Prelude.GoMap.{GoMap, lookup, range_insert}
use exporter_plus.Prelude.GoMap.Laws.{AllEntries}
use exporter_plus.Prelude.Outcome.{ok, err}
use exporter_plus.Prelude.Float.{concrete}
use exporter_plus.Postgres.Labels.{parse_const_labels}
use exporter_plus.Postgres.Labels.Laws.{IsPrintable, print_labels, parse-print_labels}
use exporter_plus.Postgres.Dsn.{parse_fingerprint}
use exporter_plus.Postgres.Dsn.Laws.{IsPlain, print_dsn, parse_fingerprint-print_dsn}
use exporter_plus.Postgres.Settings.{PgSetting, normalise_unit}
use exporter_plus.Postgres.Settings.Laws.{normalise_unit_lem, unit_table, expected}

abbrev labels : GoMap String
labels = ("zone", "eu") ∷ ("tier", "gold") ∷ []

labels-IsPrintable : AllEntries IsPrintable labels
unfolding str_eq is_space
labels-IsPrintable = ground (
  arith,
  ne_of_str_eq "zone" "" refl,
  ne_of_str_eq "eu" "" refl,
  ne_of_str_eq "tier" "" refl,
  ne_of_str_eq "gold" "" refl,
)

parse-print_labels_example :
    parse_const_labels (print_labels labels) ≡ range_insert (λ k v. v) labels []
parse-print_labels_example = parse-print_labels labels labels-IsPrintable

abbrev dsn : GoMap String
dsn = ("host", "db1") ∷ ("user", "me") ∷ []

dsn-IsPlain : AllEntries IsPlain dsn
dsn-IsPlain = ground arith

parse_fingerprint-print_dsn_example :
    parse_fingerprint (λ url. none) (print_dsn dsn) ≡ ok "db1:5432"
unfolding lookup str_eq
parse_fingerprint-print_dsn_example =
    parse_fingerprint-print_dsn (λ url. none) dsn (λ e. cc e) (refl, (refl, tt)) dsn-IsPlain refl

abbrev setting : PgSetting
setting = record {
  name = "wal_segment_size";
  setting = "16";
  unit = "16MB";
  short_desc = "";
  vartype = "integer";
}

normalise_unit_lem_example :
    ((val : ℤ)
      → concrete.parse setting.setting ≡ some val
      → (setting.unit ≢ ""
          → normalise_unit concrete setting
            ≡ expected concrete val setting.unit (lookup setting.unit unit_table))
        × (setting.unit ≡ "" → normalise_unit concrete setting ≡ ok (val, "")))
    × (concrete.parse setting.setting ≡ none
        → normalise_unit concrete setting ≡ err "Error converting setting wal_segment_size")
normalise_unit_lem_example = normalise_unit_lem concrete setting
