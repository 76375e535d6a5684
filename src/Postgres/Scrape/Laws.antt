-- ===== src/Postgres/Scrape/Laws.antt =====
-- What the gauges of a scrape say: how many data sources were up, and whether there was an error.
use exporter_plus.Prelude.{
  ℕ, suc, ◌+◌, ◌≤◌, String, ◌≡◌, ◌≢◌, refl, Bool, true, false, inl, inr, List, [], ◌∷◌, arith,
  length, if◌then◌else◌,
}
use exporter_plus.Prelude.GoMap.{GoMap}
use exporter_plus.Prelude.Outcome.{Outcome, ok, err, panic, Outcome-cases}
use exporter_plus.Postgres.Types.{Metric}
use exporter_plus.Postgres.Settings.{SettingsRun, query_settings}
use exporter_plus.Postgres.Servers.{Server, get_server}
use exporter_plus.Postgres.Exporter.{Exporter, World, Checked, Scraped, check_map_versions}
use exporter_plus.Postgres.Scrape.{
  inc_error, put_back, after_mappings, scrape_mappings, after_settings, server_scrape, after_check,
  after_get, scrape_dsn, scrape_all, reset, scrape, and_then,
}

-- After n data sources: the error count has not fallen, the up count has grown by at most n, both
-- together by at least n, and the number of scrapes is the same.
pub record Counts {V D F : Type 0} (n : ℕ) (e e' : Exporter V D F) : Type 0 where
  pub errors_grow : e.error ≤ e'.error
  pub up_grows : e.psql_up ≤ e'.psql_up
  pub at_most : e'.psql_up ≤ e.psql_up + n
  pub covered : e.psql_up + e.error + n ≤ e'.psql_up + e'.error
  pub scrapes : e'.total_scrapes ≡ e.total_scrapes

if-elim {ℓ κ} :
    {A : Type ℓ} (P : A → Type κ) (b : Bool) {x y : A} → P x → P y → P (if b then x else y)
if-elim P true p q = p
if-elim P false p q = q

module _ {V D F : Type 0} (w : World V D F) where
  -- The data source is up already: only errors can be added.
  record Keeps (e e' : Exporter V D F) : Type 0 where
    errors_grow : e.error ≤ e'.error
    up_same : e'.psql_up ≡ e.psql_up
    scrapes : e'.total_scrapes ≡ e.total_scrapes

  after_mappings-Keeps :
      (e : Exporter V D F) (sent : List (Metric F)) (o : Outcome (GoMap String))
      → Keeps e (after_mappings w e sent o).exporter
  after_mappings-Keeps e sent (ok []) = omega arith
  after_mappings-Keeps e sent (ok (p ∷ ps)) = omega arith
  after_mappings-Keeps e sent (err m) = omega arith
  after_mappings-Keeps e sent (panic m) = omega arith

  scrape_mappings-Keeps :
      (server : Server V D F) (sent : List (Metric F)) (e : Exporter V D F)
      → Keeps e (scrape_mappings w server sent e).exporter
  unfolding scrape_mappings
  scrape_mappings-Keeps server sent e = after_mappings-Keeps e _ _

  after_settings-Keeps :
      (server : Server V D F) (run : SettingsRun F) (e : Exporter V D F)
      → Keeps e (after_settings w server run e).exporter
  after_settings-Keeps server run e = elim (Outcome-cases run.result) [
    | inl (_, q) ↦ rw q (scrape_mappings-Keeps server run.metrics e)
    | inr (inl (_, q)) ↦
        rw q (omega (arith, scrape_mappings-Keeps server run.metrics (inc_error w e)))
    | inr (inr (_, q)) ↦ rw q (omega arith)
  ]

  server_scrape-Keeps :
      (server : Server V D F) (e : Exporter V D F) → Keeps e (server_scrape w server e).exporter
  unfolding server_scrape
  server_scrape-Keeps server e =
      if-elim (λ (s : Scraped V D F). Keeps e s.exporter) e.disable_settings_metrics
        (scrape_mappings-Keeps server [] e)
        (after_settings-Keeps server
          (query_settings w.fl w.build_fq_name server.labels (w.driver.settings server.db)) e)

  after_check-Keeps :
      (dsn : String) (c : Checked V D F) (e : Exporter V D F)
      → Keeps e (after_check w dsn c e).exporter
  after_check-Keeps dsn c e = elim (Outcome-cases c.result) [
    | inl (_, q) ↦ rw q (omega (arith, server_scrape-Keeps c.server (put_back w dsn c e)))
    | inr (inl (_, q)) ↦
        rw q (omega (arith, server_scrape-Keeps c.server (inc_error w (put_back w dsn c e))))
    | inr (inr (_, q)) ↦ rw q (omega arith)
  ]

  after_get-Counts :
      (dsn : String) (o : Outcome (Server V D F)) (e : Exporter V D F)
      → ((m : String) → (after_get w dsn o e).result ≢ panic m)
      → Counts 1 e (after_get w dsn o e).exporter
  after_get-Counts dsn (err m) e calm = omega arith
  after_get-Counts dsn (panic m) e calm = absurd (calm m refl)
  after_get-Counts dsn (ok server) e calm =
      let up : Exporter V D F = record e { psql_up = suc e.psql_up } in
      omega (arith, after_check-Keeps dsn (check_map_versions w up server) up)

  scrape_dsn-Counts :
      (dsn : String) (e : Exporter V D F)
      → ((m : String) → (scrape_dsn w dsn e).result ≢ panic m)
      → Counts 1 e (scrape_dsn w dsn e).exporter
  unfolding scrape_dsn
  scrape_dsn-Counts dsn e calm =
      let (server, servers) =
        get_server w.driver w.sv.zero_version e.constant_labels dsn e.servers in
      let got = after_get-Counts dsn server (record e { servers = servers }) calm in
      record {
        errors_grow = got.errors_grow;
        up_grows = got.up_grows;
        at_most = got.at_most;
        covered = got.covered;
        scrapes = got.scrapes;
      }

  and_then-Counts :
      (n : ℕ) (e : Exporter V D F) (first rest : Scraped V D F)
      → (((m : String) → first.result ≢ panic m) → Counts 1 e first.exporter)
      → (((m : String) → rest.result ≢ panic m) → Counts n first.exporter rest.exporter)
      → ((m : String) → (and_then w first rest).result ≢ panic m)
      → Counts (suc n) e (and_then w first rest).exporter
  and_then-Counts n e first rest one more = elim (Outcome-cases first.result) [
    | inl (_, q) ↦ rw q (λ calm. omega (arith, one (λ m p. cc (p, q)), more calm))
    | inr (inl (_, q)) ↦ rw q (λ calm. omega (arith, one (λ m p. cc (p, q)), more calm))
    | inr (inr (m, q)) ↦ rw q (λ calm. absurd (calm m refl))
  ]

  scrape_all-Counts :
      (dsns : List String) (e : Exporter V D F)
      → ((m : String) → (scrape_all w dsns e).result ≢ panic m)
      → Counts (length dsns) e (scrape_all w dsns e).exporter
  unfolding scrape_all
  scrape_all-Counts [] e = λ calm. omega arith
  scrape_all-Counts (dsn ∷ dsns) e =
      let first = scrape_dsn w dsn e in
      and_then-Counts (length dsns) e first (scrape_all w dsns first.exporter)
        (scrape_dsn-Counts dsn e) (scrape_all-Counts dsns first.exporter)

  -- A scrape that does not panic counts itself once. The up gauge is at most the number of data
  -- sources, which is at most the up gauge plus the error gauge: when the error gauge is 0 every
  -- data source was up.
  pub scrape_counts :
      (e : Exporter V D F)
      → ((m : String) → (scrape w e).result ≢ panic m)
      → ((scrape w e).exporter.total_scrapes ≡ suc e.total_scrapes)
        × ((scrape w e).exporter.psql_up ≤ length e.dsn)
        × (length e.dsn ≤ (scrape w e).exporter.psql_up + (scrape w e).exporter.error)
  unfolding scrape
  scrape_counts e calm =
      let counts = scrape_all-Counts e.dsn (reset w e) calm in
      (counts.scrapes, omega (arith, counts), omega (arith, counts))
