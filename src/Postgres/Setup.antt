-- ===== src/Postgres/Setup.antt =====
-- How the Postgres exporter is made and registered: the options, NewPostgresExporter and Describe of
-- collector/postgres/collector.go, and NewPostgresHandler of handlers/postgreshandler.go.
pub mod Laws
use exporter_plus.Prelude.{ℕ, String, Bool, true, false, List, [], ◌∷◌, map, if◌then◌else◌}
use exporter_plus.Prelude.Outcome.{Outcome, ok, err, panic, ◌>>=◌}
use exporter_plus.Postgres.Types.{Desc, Metric}
use exporter_plus.Postgres.Labels.{parse_const_labels}
use exporter_plus.Postgres.Dsn.{Env, get_data_sources}
use exporter_plus.Postgres.Servers.{new_servers}
use exporter_plus.Postgres.Exporter.{Exporter, World, Scraped}
use exporter_plus.Postgres.Scrape.{collect}

-- DisableDefaultMetrics, DisableSettingsMetrics, WithUserQueriesPath and WithConstantLabels
pub data ExporterOpt : Type 0 where
  disable_default_metrics : Bool → ExporterOpt
  disable_settings_metrics : Bool → ExporterOpt
  with_user_queries_path : String → ExporterOpt
  with_constant_labels : String → ExporterOpt

module _ {V D F : Type 0} where
  unfoldable pub apply_opt : ExporterOpt → Exporter V D F → Exporter V D F
  apply_opt (disable_default_metrics b) e = record e { disable_default_metrics = b }
  apply_opt (disable_settings_metrics b) e = record e { disable_settings_metrics = b }
  apply_opt (with_user_queries_path p) e = record e { user_queries_path = p }
  apply_opt (with_constant_labels s) e = record e { constant_labels = parse_const_labels s }

  -- for _, opt := range opts { opt(e) }
  unfoldable pub apply_opts : List ExporterOpt → Exporter V D F → Exporter V D F
  unfolding apply_opt
  apply_opts [] e = e
  apply_opts (opt ∷ opts) e = apply_opts opts (apply_opt opt e)

  -- NewPostgresExporter
  unfoldable pub new_postgres_exporter : List String → List ExporterOpt → Exporter V D F
  unfolding apply_opts
  new_postgres_exporter dsn opts = apply_opts opts (record {
    disable_default_metrics = false;
    disable_settings_metrics = false;
    dsn = dsn;
    user_queries_path = "";
    constant_labels = [];
    error = 0;
    psql_up = 0;
    total_scrapes = 0;
    user_queries_error = [];
    servers = new_servers;
  })

-- The flags of the handler.
pub record PostgresFlags : Type 0 where
  pub no_default_metrics : Bool
  pub no_settings_metrics : Bool
  pub queries_path : String
  pub constant_labels_list : String

module _ {V D F : Type 0} (w : World V D F) where
  abbrev pub after_collect :
      Scraped V D F → Outcome (Unit {0}) → Outcome (Exporter V D F × List Desc)
  after_collect s (ok _) = ok (s.exporter, map (λ (m : Metric F). m.desc) s.metrics)
  after_collect s (err m) = ok (s.exporter, map (λ (m : Metric F). m.desc) s.metrics)
  after_collect s (panic m) = panic m

  -- Describe: the descriptors of what a Collect sends, and the exporter that it leaves
  unfoldable pub describe_postgres : F → Exporter V D F → Outcome (Exporter V D F × List Desc)
  describe_postgres elapsed e = let s = collect w elapsed e in after_collect s s.result

module _ {V D F : Type 0} where
  abbrev pub after_request : Scraped V D F → Outcome (Unit {0}) → Outcome (Exporter V D F)
  after_request s (ok _) = ok s.exporter
  after_request s (err m) = ok s.exporter
  after_request s (panic m) = panic m

  -- The requests that the handler serves, one after another; each collects from the servers as they
  -- are by then.
  unfoldable pub serve : List (World V D F × F) → Exporter V D F → Outcome (Exporter V D F)
  serve [] e = ok e
  serve ((w, elapsed) ∷ requests) e =
      let s = collect w elapsed e in after_request s s.result >>= serve requests

-- What the registry says to the descriptors of a collector: MustRegister panics where it refuses.
module _ {V D F : Type 0} (w : World V D F) (accepts : List Desc → Bool) where
  abbrev pub accepted : Exporter V D F × List Desc → Outcome (Exporter V D F)
  accepted (e, descs) = if accepts descs then ok e else panic "cannot register the collector"

  -- registry.MustRegister(exporter), which describes it
  unfoldable pub must_register : F → Exporter V D F → Outcome (Exporter V D F)
  unfolding describe_postgres
  must_register elapsed e = describe_postgres w elapsed e >>= accepted

  abbrev pub with_sources : PostgresFlags → List String → Outcome (Exporter V D F)
  with_sources flags [] =
      panic "couldn't find environment variables describing the datasource to use"
  with_sources flags (dsn ∷ more) = ok (
      new_postgres_exporter (dsn ∷ more) (
        disable_default_metrics flags.no_default_metrics
        ∷ disable_settings_metrics flags.no_settings_metrics
        ∷ with_user_queries_path flags.queries_path
        ∷ with_constant_labels flags.constant_labels_list
        ∷ []))

  -- NewPostgresHandler, up to the HTTP handler
  unfoldable pub new_postgres_handler : F → Env → PostgresFlags → Outcome (Exporter V D F)
  unfolding must_register
  new_postgres_handler elapsed env flags =
      get_data_sources env >>= with_sources flags >>= must_register elapsed
