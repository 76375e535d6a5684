-- ===== src/Postgres/Tests/Runs.antt =====
-- The query of a namespace, the pool, the versions and a scrape.
use exporter_plus.Prelude.{
  ℕ, suc, String, ◌≡◌, ◌≢◌, refl, none, some, [], ◌∷◌, str_eq, arith, ◌≤◌, ◌+◌, ap, ◌∙◌, some_inj,
}
use exporter_plus.Prelude.Int.{ℤ}
use exporter_plus.Prelude.GoMap.{lookup, insert}
use exporter_plus.Prelude.Outcome.{ok, err}
use exporter_plus.Prelude.Float.{concrete}
use exporter_plus.Postgres.Types.{MetricMapNamespace}
use exporter_plus.Postgres.Namespace.{Rows, query_namespace_mapping, query_namespace_mappings}
use exporter_plus.Postgres.Namespace.Laws.{IsWellFormed, kept}
use exporter_plus.Postgres.Namespace.Runs.{IsSound, HasColumns, query_namespace_mapping-IsSound}
use exporter_plus.Prelude.Text.{split}
use exporter_plus.Postgres.Settings.{query_settings}
use exporter_plus.Postgres.Dsn.{parse_fingerprint}
use exporter_plus.Postgres.Version.{parse_version}
use exporter_plus.Postgres.Servers.{Server, Servers, new_server, get_server}
use exporter_plus.Postgres.Servers.Laws.{IsServed, total, get_server-IsServed, get_server-total}
use exporter_plus.Postgres.Exporter.{check_map_versions}
use exporter_plus.Postgres.Scrape.{scrape}
use exporter_plus.Postgres.Scrape.Laws.{scrape_counts}
use exporter_plus.Postgres.Tests.World.{rows, driver, world, server, exporter}

abbrev mapping : MetricMapNamespace ℤ
mapping = record { labels = "state" ∷ []; column_mappings = [] }

mapping-IsWellFormed : IsWellFormed concrete [] "replication" mapping
unfolding lookup
mapping-IsWellFormed = λ name m e. cc e

rows-HasColumns :
    (q : String) → HasColumns concrete [] "replication" mapping mapping-IsWellFormed (some rows)
rows-HasColumns q r names e e' =
    let same : some ("pid" ∷ "state" ∷ "delay" ∷ []) ≡ some names =
      ap (λ (x : Rows ℤ). x.columns) (some_inj e) ∙ e' in
    rw (← some_inj same) (omega arith)

query_namespace_mapping-IsSound_example :
    IsSound concrete [] "replication" mapping mapping-IsWellFormed
      ("pid" ∷ "state" ∷ "delay" ∷ [])
      rows.scans
      6
      (query_namespace_mapping concrete [] "replication" mapping (λ q. some rows) (some "SELECT 1"))
unfolding str_eq lookup kept
query_namespace_mapping-IsSound_example =
    query_namespace_mapping-IsSound concrete [] "replication" mapping mapping-IsWellFormed
      (λ q. some rows) (some "SELECT 1") rows-HasColumns

-- The pool has a server that no longer answers.
abbrev broken : Servers ℕ String ℤ
broken = record { servers = ("host=down", record server { db = "host=down" }) ∷ []; closed = [] }

get_server-IsServed_example :
    IsServed driver 0 [] "host=down" broken (get_server driver 0 [] "host=down" broken)
unfolding lookup
get_server-IsServed_example = get_server-IsServed driver 0 [] "host=down" broken (refl, tt)

abbrev total_new : Servers ℕ String ℤ → ℕ
total_new = total driver 0 [] "host=new"

get_server-total_example :
    (lookup "host=new" broken.servers ≢ none
      → total_new (get_server driver 0 [] "host=new" broken).1 ≡ total_new broken)
    × (lookup "host=new" broken.servers ≡ none
        → (s : Server ℕ String ℤ) → new_server driver 0 [] "host=new" ≡ ok s
        → total_new (get_server driver 0 [] "host=new" broken).1 ≡ suc (total_new broken))
    × (lookup "host=new" broken.servers ≡ none
        → (e : String) → new_server {V = ℕ} driver 0 [] "host=new" ≡ err e
        → (get_server driver 0 [] "host=new" broken).1 ≡ broken)
unfolding lookup
get_server-total_example = get_server-total driver 0 [] "host=new" broken (refl, tt)

scrape_result : (scrape world exporter).result ≡ ok tt
unfolding scrape str_eq get_server lookup check_map_versions parse_version query_settings
    query_namespace_mappings insert new_server parse_fingerprint split
scrape_result = refl

scrape_counts_example :
    ((scrape world exporter).exporter.total_scrapes ≡ 7)
    × ((scrape world exporter).exporter.psql_up ≤ 2)
    × (2 ≤ (scrape world exporter).exporter.psql_up + (scrape world exporter).exporter.error)
scrape_counts_example = scrape_counts world exporter (λ m e. cc (scrape_result, e))
