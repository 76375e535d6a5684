-- ===== src/Postgres/Exporter.antt =====
-- The Exporter of collector/postgres/collector.go: versions, scrapes and the gauges about them.
pub mod Reload
use exporter_plus.Prelude.{
  ℕ, suc, String, Bool, true, false, ◌||◌, Option, none, some, List, [], ◌∷◌, ◌++◌, if◌then◌else◌,
}
use exporter_plus.Prelude.Text.{is_empty}
use exporter_plus.Prelude.Int.{pos}
use exporter_plus.Prelude.GoMap.{GoMap, insert}
use exporter_plus.Prelude.Outcome.{Outcome, ok, err, panic}
use exporter_plus.Prelude.Float.{Float64}
use exporter_plus.Postgres.Types.{
  Desc, Metric, untyped_value, gauge_value, counter_value, ValueType, MetricMapNamespace, Semver,
  must_new_const_metric,
}
use exporter_plus.Postgres.Builtin.{builtin_metric_maps}
use exporter_plus.Postgres.BuiltinQueries.{query_overrides}
use exporter_plus.Postgres.DescMap.{make_desc_map}
use exporter_plus.Postgres.Overrides.{make_query_override_map}
use exporter_plus.Postgres.Namespace.{MappingsRun, query_namespace_mappings}
use exporter_plus.Postgres.Settings.{SettingsRun, query_settings}
use exporter_plus.Postgres.UserQueries.{Yaml, Maps, add_queries}
use exporter_plus.Postgres.Version.{parse_version}
use exporter_plus.Postgres.Servers.{Driver, Server, Servers, get_server}

-- Exporter, with its gauges and its counter as numbers. The gauge vector has a value for each pair
-- of a file name and a hash sum.
pub record Exporter (V D F : Type 0) : Type 0 where
  pub disable_default_metrics : Bool
  pub disable_settings_metrics : Bool
  pub dsn : List String
  pub user_queries_path : String
  pub constant_labels : GoMap String
  pub error : ℕ
  pub psql_up : ℕ
  pub total_scrapes : ℕ
  pub user_queries_error : List ((String × String) × ℕ)
  pub servers : Servers V D F

-- What stands outside: the database, the file system, and the packages that are called.
pub record World (V D F : Type 0) : Type 0 where
  pub fl : Float64 F
  pub sv : Semver V
  pub driver : Driver D F
  pub read_file : String → Option String
  pub hash : String → String
  pub unmarshal : String → Outcome (GoMap Yaml)
  pub build_fq_name : String → String → String → String

-- What checkMapVersions leaves.
pub record Checked (V D F : Type 0) : Type 0 where
  pub server : Server V D F
  pub user_queries_error : List ((String × String) × ℕ)
  pub metrics : List (Metric F)
  pub result : Outcome (Unit {0})

-- What a scrape leaves: `ok` or a panic.
pub record Scraped (V D F : Type 0) : Type 0 where
  pub exporter : Exporter V D F
  pub metrics : List (Metric F)
  pub result : Outcome (Unit {0})

abbrev pub is_nil {ℓ} : {A : Type ℓ} → Option A → Bool
is_nil none = true
is_nil (some a) = false

module _ {V D F : Type 0} (w : World V D F) where
  -- the maps for a version, before the user's queries
  unfoldable pub default_maps : Exporter V D F → Server V D F → V → Maps F
  default_maps e server version =
      if e.disable_default_metrics
      then record { metric_map = []; query_overrides = [] }
      else record {
        metric_map = make_desc_map w.fl version server.labels (builtin_metric_maps w.sv);
        query_overrides = make_query_override_map version (query_overrides w.sv);
      }

  abbrev pub with_maps : Server V D F → V → Maps F → Server V D F
  with_maps server version maps = record server {
    last_map_version = version;
    metric_map = some maps.metric_map;
    query_overrides = maps.query_overrides;
  }

  -- the end of the user's queries: loaded, or not
  abbrev loaded : Server V D F → V → String → String → Maps F → Outcome (Maps F) → Checked V D F
  loaded server version path sum maps (ok more) = record {
    server = with_maps server version more;
    user_queries_error = ((path, sum), 0) ∷ [];
    metrics = [];
    result = ok tt;
  }
  loaded server version path sum maps (err e) = record {
    server = with_maps server version maps;
    user_queries_error = ((path, sum), 1) ∷ [];
    metrics = [];
    result = ok tt;
  }
  loaded server version path sum maps (panic e) = record {
    server = with_maps server version maps;
    user_queries_error = [];
    metrics = [];
    result = panic e;
  }

  abbrev user_queries : Server V D F → V → String → Maps F → Option String → Checked V D F
  user_queries server version path maps none = record {
    server = with_maps server version maps;
    user_queries_error = ((path, ""), 1) ∷ [];
    metrics = [];
    result = ok tt;
  }
  user_queries server version path maps (some content) =
      loaded server version path (w.hash content) maps
        (add_queries {V = V} w.fl w.unmarshal version server.labels content maps)

  -- the body of the `if` of checkMapVersions: recalculate the maps
  unfoldable pub rebuild : Exporter V D F → Server V D F → V → Checked V D F
  unfolding default_maps
  rebuild e server version =
      let maps = default_maps e server version in
      if is_empty e.user_queries_path
      then record {
        server = with_maps server version maps;
        user_queries_error = e.user_queries_error;
        metrics = [];
        result = ok tt;
      }
      else user_queries server version e.user_queries_path maps (w.read_file e.user_queries_path)

  abbrev version_metric : Server V D F → String → V → Metric F
  version_metric server text version = record {
    desc = record {
      fq_name = "pg_static";
      help = "Version string as reported by postgres";
      variable_labels = "version" ∷ "short_version" ∷ [];
      const_labels = server.labels;
    };
    vtype = untyped_value;
    value = w.fl.of_int (pos 1);
    label_values = text ∷ w.sv.version_string version ∷ [];
  }

  abbrev unchanged : Exporter V D F → Server V D F → Outcome (Unit {0}) → Checked V D F
  unchanged e server result = record {
    server = server;
    user_queries_error = e.user_queries_error;
    metrics = [];
    result = result;
  }

  abbrev with_metric : Checked V D F → Outcome (Metric F) → Checked V D F
  with_metric c (ok m) = record c { metrics = m ∷ [] }
  with_metric c (err e) = record c { result = err e }
  with_metric c (panic e) = record c { result = panic e }

  abbrev and_version : Server V D F → String → V → Checked V D F → Checked V D F
  and_version server text version c = elim c.result [
    | ok _ ↦ with_metric c (must_new_const_metric w.fl (version_metric server text version))
    | err e ↦ c
    | panic e ↦ c
  ]

  -- recalculate the maps if the version has changed, or if there are none
  abbrev refreshed : Exporter V D F → Server V D F → V → Checked V D F
  refreshed e server version =
      if w.sv.ne version server.last_map_version || is_nil server.metric_map
      then rebuild e server version
      else unchanged e server (ok tt)

  abbrev of_version : Exporter V D F → Server V D F → String → Outcome V → Checked V D F
  of_version e server text (err m) = unchanged e server (err "Error parsing version string on")
  of_version e server text (panic m) = unchanged e server (panic m)
  of_version e server text (ok version) =
      and_version server text version (refreshed e server version)

  abbrev of_text : Exporter V D F → Server V D F → Option String → Checked V D F
  of_text e server none = unchanged e server (err "Error scanning version string on")
  of_text e server (some text) = of_version e server text (parse_version w.sv text)

  -- checkMapVersions
  unfoldable pub check_map_versions : Exporter V D F → Server V D F → Checked V D F
  unfolding rebuild must_new_const_metric
  check_map_versions e server = of_text e server (w.driver.version server.db)
