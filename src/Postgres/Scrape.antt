-- ===== src/Postgres/Scrape.antt =====
-- Server.Scrape, scrapeDSN, scrape and Collect of collector/postgres/collector.go.
pub mod Laws
use exporter_plus.Prelude.{
  ℕ, suc, String, Bool, true, false, Option, none, some, List, [], ◌∷◌, ◌++◌, if◌then◌else◌,
}
use exporter_plus.Prelude.Int.{ℤ, pos}
use exporter_plus.Prelude.GoMap.{GoMap, insert}
use exporter_plus.Prelude.Outcome.{Outcome, ok, err, panic}
use exporter_plus.Postgres.Types.{
  Desc, Metric, MetricMapNamespace, ValueType, gauge_value, counter_value,
}
use exporter_plus.Postgres.Namespace.{MappingsRun, query_namespace_mappings}
use exporter_plus.Postgres.Settings.{SettingsRun, query_settings}
use exporter_plus.Postgres.Servers.{Server, Servers, get_server}
use exporter_plus.Postgres.Exporter.{Exporter, World, Checked, Scraped, check_map_versions}

module _ {V D F : Type 0} (w : World V D F) where
  -- errGauge.Inc()
  abbrev pub inc_error : Exporter V D F → Exporter V D F
  inc_error e = record e { error = suc e.error }

  abbrev done : Exporter V D F → List (Metric F) → Outcome (Unit {0}) → Scraped V D F
  done e metrics result = record { exporter = e; metrics = metrics; result = result }

  -- ranging over a nil map makes no round
  abbrev entries : Option (GoMap (MetricMapNamespace F)) → GoMap (MetricMapNamespace F)
  entries none = []
  entries (some m) = m

  abbrev after_mappings : Exporter V D F → List (Metric F) → Outcome (GoMap String) → Scraped V D F
  after_mappings e metrics (ok []) = done e metrics (ok tt)
  after_mappings e metrics (ok (problem ∷ problems)) = done (inc_error e) metrics (ok tt)
  after_mappings e metrics (err m) = done (inc_error e) metrics (ok tt)
  after_mappings e metrics (panic m) = done e metrics (panic m)

  -- the end of Server.Scrape: the queries of the namespaces
  unfoldable pub scrape_mappings : Server V D F → List (Metric F) → Exporter V D F → Scraped V D F
  scrape_mappings server sent e =
      let run =
        query_namespace_mappings w.fl server.labels (w.driver.query server.db)
          server.query_overrides (entries server.metric_map) in
      after_mappings e (sent ++ run.metrics) run.result

  abbrev after_settings : Server V D F → SettingsRun F → Exporter V D F → Scraped V D F
  after_settings server run e = elim run.result [
    | ok _ ↦ scrape_mappings server run.metrics e
    | err m ↦ scrape_mappings server run.metrics (inc_error e)
    | panic m ↦ done e run.metrics (panic m)
  ]

  -- Server.Scrape
  unfoldable pub server_scrape : Server V D F → Exporter V D F → Scraped V D F
  unfolding scrape_mappings
  server_scrape server e =
      if e.disable_settings_metrics
      then scrape_mappings server [] e
      else after_settings server
          (query_settings w.fl w.build_fq_name server.labels (w.driver.settings server.db)) e

  -- The exporter with the server that the map points at, after checkMapVersions has changed it.
  abbrev pub put_back : String → Checked V D F → Exporter V D F → Exporter V D F
  put_back dsn c e = record e {
    user_queries_error = c.user_queries_error;
    servers = record e.servers { servers = insert dsn c.server e.servers.servers };
  }

  abbrev before : List (Metric F) → Scraped V D F → Scraped V D F
  before metrics s = record s { metrics = metrics ++ s.metrics }

  abbrev after_check : String → Checked V D F → Exporter V D F → Scraped V D F
  after_check dsn c e = elim c.result [
    | ok _ ↦ before c.metrics (server_scrape c.server (put_back dsn c e))
    | err m ↦ before c.metrics (server_scrape c.server (inc_error (put_back dsn c e)))
    | panic m ↦ done (put_back dsn c e) c.metrics (panic m)
  ]

  abbrev after_get : String → Outcome (Server V D F) → Exporter V D F → Scraped V D F
  after_get dsn (err m) e = done (inc_error e) [] (ok tt)
  after_get dsn (panic m) e = done e [] (panic m)
  after_get dsn (ok server) e =
      let up : Exporter V D F = record e { psql_up = suc e.psql_up } in
      after_check dsn (check_map_versions w up server) up

  -- scrapeDSN
  unfoldable pub scrape_dsn : String → Exporter V D F → Scraped V D F
  unfolding server_scrape
  scrape_dsn dsn e =
      let (server, servers) =
        get_server w.driver w.sv.zero_version e.constant_labels dsn e.servers in
      after_get dsn server (record e { servers = servers })

  -- A panic ends the scrape; scrapeDSN has no error to return.
  abbrev pub and_then : Scraped V D F → Scraped V D F → Scraped V D F
  and_then first rest = elim first.result [
    | ok _ ↦ before first.metrics rest
    | err m ↦ before first.metrics rest
    | panic m ↦ first
  ]

  -- the loop of scrape over the data sources, which a panic ends
  unfoldable pub scrape_all : List String → Exporter V D F → Scraped V D F
  unfolding scrape_dsn
  scrape_all [] e = done e [] (ok tt)
  scrape_all (dsn ∷ dsns) e =
      let first = scrape_dsn dsn e in and_then first (scrape_all dsns first.exporter)

  abbrev pub reset : Exporter V D F → Exporter V D F
  reset e = record e { error = 0; psql_up = 0; total_scrapes = suc e.total_scrapes }

  -- scrape
  unfoldable pub scrape : Exporter V D F → Scraped V D F
  unfolding scrape_all
  scrape e = scrape_all e.dsn (reset e)

  -- A gauge or counter of setupInternalMetrics, as it is collected.
  abbrev internal : Exporter V D F → String → String → String → ValueType → F → Metric F
  internal e subsystem name help vtype value = record {
    desc = record {
      fq_name = w.build_fq_name "pg" subsystem name;
      help = help;
      variable_labels = [];
      const_labels = e.constant_labels;
    };
    vtype = vtype;
    value = value;
    label_values = [];
  }

  -- e.userQueriesError.Collect
  unfoldable pub user_queries_metrics :
      Exporter V D F → List ((String × String) × ℕ) → List (Metric F)
  user_queries_metrics e [] = []
  user_queries_metrics e (((filename, hashsum), value) ∷ rest) =
      record {
        desc = record {
          fq_name = w.build_fq_name "pg" "postgres_exporter" "user_queries_load_error";
          help =
              "Whether the user queries file was loaded and parsed successfully (1 for error, 0 for success).";
          variable_labels = "filename" ∷ "hashsum" ∷ [];
          const_labels = e.constant_labels;
        };
        vtype = gauge_value;
        value = w.fl.of_int (pos value);
        label_values = filename ∷ hashsum ∷ [];
      }
      ∷ user_queries_metrics e rest

  -- the gauges that Collect sends at its end; `elapsed` is the duration of the scrape
  unfoldable pub internal_metrics : F → Exporter V D F → List (Metric F)
  unfolding user_queries_metrics
  internal_metrics elapsed e =
      internal e "postgres_exporter" "last_scrape_duration_seconds"
        "Duration of the last scrape of metrics from PostgresSQL." gauge_value elapsed
      ∷ internal e "postgres_exporter" "scrapes_total"
          "Total number of times PostgresSQL was scraped for metrics." counter_value
          (w.fl.of_int (pos e.total_scrapes))
      ∷ internal e "postgres_exporter" "last_scrape_error"
          "Whether the last scrape of metrics from PostgreSQL resulted in an error (1 for error, 0 for success)."
          gauge_value (w.fl.of_int (pos e.error))
      ∷ internal e "" "up"
          "Whether the last scrape of metrics from PostgreSQL was able to connect to the server (1 for yes, 0 for no)."
          gauge_value (w.fl.of_int (pos e.psql_up))
      ∷ user_queries_metrics e e.user_queries_error

  -- Collect
  unfoldable pub collect : F → Exporter V D F → Scraped V D F
  unfolding scrape internal_metrics
  collect elapsed e =
      let s = scrape e in
      elim s.result [
        | ok _ ↦ record s { metrics = s.metrics ++ internal_metrics elapsed s.exporter }
        | err m ↦ s
        | panic m ↦ s
      ]
