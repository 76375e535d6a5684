-- ===== src/Postgres/Settings.antt =====
-- collector/postgres/pg_setting.go: the runtime variables of pg_settings, in base units.
pub mod Laws
use exporter_plus.Prelude.{
  ℕ, ◌*◌, ◌^◌, String, Bool, true, false, ◌||◌, Option, none, some, List, [], ◌∷◌, str_eq,
  if◌then◌else◌,
}
use exporter_plus.Prelude.Text.{append, join_words, is_empty, replace}
use exporter_plus.Prelude.Int.{pos, negsuc}
use exporter_plus.Prelude.GoMap.{GoMap}
use exporter_plus.Prelude.Outcome.{Outcome, ok, err, panic, ◌>>=◌}
use exporter_plus.Prelude.Float.{Float64}
use exporter_plus.Postgres.Types.{Desc, Metric, must_new_const_metric, gauge_value}

-- pgSetting
pub record PgSetting : Type 0 where
  pub name : String
  pub setting : String
  pub unit : String
  pub short_desc : String
  pub vartype : String

-- case a, b, …: of a switch on a text
unfoldable pub one_of : List String → String → Bool
one_of [] s = false
one_of (t ∷ ts) s = str_eq t s || one_of ts s

abbrev pub time_units : List String
time_units = "ms" ∷ "s" ∷ "min" ∷ "h" ∷ "d" ∷ []

abbrev pub byte_units : List String
byte_units =
    "B" ∷ "kB" ∷ "MB" ∷ "GB" ∷ "TB" ∷ "8kB" ∷ "16kB" ∷ "32kB" ∷ "16MB" ∷ "32MB" ∷ "64MB" ∷ []

-- the first switch of normaliseUnit: the base unit, "" for none, or `none` for an unknown unit
unfoldable pub base_unit : String → Option String
unfolding one_of
base_unit unit =
    if str_eq "" unit
    then some ""
    else if one_of time_units unit
    then some "seconds"
    else if one_of byte_units unit
    then some "bytes"
    else none

module _ {F : Type 0} (fl : Float64 F) where
  -- the second switch of normaliseUnit
  unfoldable pub scale : String → F → F
  scale unit val =
      if str_eq "ms" unit
      then fl.over val 1000
      else if str_eq "min" unit
      then fl.times val 60
      else if str_eq "h" unit
      then fl.times val (60 * 60)
      else if str_eq "d" unit
      then fl.times val (60 * 60 * 24)
      else if str_eq "kB" unit
      then fl.times val (2 ^ 10)
      else if str_eq "MB" unit
      then fl.times val (2 ^ 20)
      else if str_eq "GB" unit
      then fl.times val (2 ^ 30)
      else if str_eq "TB" unit
      then fl.times val (2 ^ 40)
      else if str_eq "8kB" unit
      then fl.times val (2 ^ 13)
      else if str_eq "16kB" unit
      then fl.times val (2 ^ 14)
      else if str_eq "32kB" unit
      then fl.times val (2 ^ 15)
      else if str_eq "16MB" unit
      then fl.times val (2 ^ 24)
      else if str_eq "32MB" unit
      then fl.times val (2 ^ 25)
      else if str_eq "64MB" unit
      then fl.times val (2 ^ 26)
      else val

  -- what is left once the text is a number
  abbrev in_base_unit : F → String → Option String → Outcome (F × String)
  in_base_unit val unit none = err (append "Unknown unit for runtime variable: " unit)
  in_base_unit val unit (some base) =
      if is_empty base
      then ok (val, "")
      else if fl.equals val (negsuc 0)
      then ok (val, base)
      else ok (scale unit val, base)

  abbrev with_number : Option F → PgSetting → Outcome (F × String)
  with_number none s = err (append "Error converting setting " s.name)
  with_number (some val) s = in_base_unit val s.unit (base_unit s.unit)

  unfoldable pub normalise_unit : PgSetting → Outcome (F × String)
  unfolding scale base_unit
  normalise_unit s = with_number (fl.parse s.setting) s

module _ {F : Type 0} (fl : Float64 F) (build_fq_name : String → String → String → String) where
  -- newDesc
  unfoldable pub new_desc : String → String → String → GoMap String → Desc
  new_desc subsystem name help labels = record {
    fq_name = build_fq_name "pg" subsystem name;
    help = help;
    variable_labels = [];
    const_labels = labels;
  }

  unfoldable pub setting_metric_of : String → String → F → GoMap String → Metric F
  unfolding new_desc
  setting_metric_of name help val labels = record {
    desc = new_desc "settings" name help labels;
    vtype = gauge_value;
    value = val;
    label_values = [];
  }

  abbrev with_unit : PgSetting → GoMap String → Outcome (F × String) → Outcome (Metric F)
  with_unit s labels (err e) = panic e
  with_unit s labels (panic e) = panic e
  with_unit s labels (ok (val, unit)) =
      let name = replace b'.' "_" s.name in
      if is_empty unit
      then ok (setting_metric_of name s.short_desc val labels)
      else ok (
          setting_metric_of (join_words name unit)
            (append s.short_desc (append " [Units converted to " (append unit ".]"))) val labels)

  -- pgSetting.metric
  unfoldable pub setting_metric : PgSetting → GoMap String → Outcome (Metric F)
  unfolding normalise_unit setting_metric_of
  setting_metric s labels =
      if str_eq s.vartype "bool"
      then ok (
          setting_metric_of (replace b'.' "_" s.name) s.short_desc
            (fl.of_int (if str_eq s.setting "on" then pos 1 else pos 0)) labels)
      else if str_eq s.vartype "integer" || str_eq s.vartype "real"
      then with_unit s labels (normalise_unit fl s)
      else panic (append "Unsupported vartype " s.vartype)

-- What querySettings leaves: the metrics sent, and how it ended.
pub record SettingsRun (F : Type 0) : Type 0 where
  pub metrics : List (Metric F)
  pub result : Outcome (Unit {0})

module _ {F : Type 0} (fl : Float64 F) (build_fq_name : String → String → String → String)
    (labels : GoMap String) where
  abbrev sent_first : Outcome (Metric F) → SettingsRun F → SettingsRun F
  sent_first (ok m) rest = record rest { metrics = m ∷ rest.metrics }
  sent_first (err e) rest = record { metrics = []; result = err e }
  sent_first (panic e) rest = record { metrics = []; result = panic e }

  -- the loop over the rows: `none` is an error of rows.Scan
  unfoldable pub setting_rows : List (Option PgSetting) → SettingsRun F
  unfolding setting_metric must_new_const_metric
  setting_rows [] = record { metrics = []; result = ok tt }
  setting_rows (none ∷ rows) = record { metrics = []; result = err "Error retrieving rows on" }
  setting_rows (some s ∷ rows) =
      sent_first (setting_metric fl build_fq_name s labels >>= must_new_const_metric fl)
        (setting_rows rows)

  -- querySettings, for the answer to its query: `none` is an error of db.Query
  unfoldable pub query_settings : Option (List (Option PgSetting)) → SettingsRun F
  unfolding setting_rows
  query_settings none = record { metrics = []; result = err "Error running query on database" }
  query_settings (some rows) = setting_rows rows
