-- ===== src/Postgres/Servers.antt =====
-- The pool of servers of collector/postgres/collector.go: NewServer, Ping, GetServer and Close.
pub mod Laws
use exporter_plus.Prelude.{String, Bool, Option, none, some, List, [], ◌∷◌, ◌++◌, if◌then◌else◌}
use exporter_plus.Prelude.GoMap.{GoMap, lookup, insert, delete, range_insert}
use exporter_plus.Prelude.Outcome.{Outcome, ok, err, panic}
use exporter_plus.Postgres.Types.{MetricMapNamespace}
use exporter_plus.Postgres.Namespace.{Rows}
use exporter_plus.Postgres.Settings.{PgSetting}
use exporter_plus.Postgres.Dsn.{parse_fingerprint}

-- The packages sql and pq, at one moment: D is a *sql.DB. `none` is an error.
pub record Driver (D F : Type 0) : Type 0 where
  pub parse_url : String → Option String
  pub connect : String → Option D
  pub pings : D → Bool
  pub version : D → Option String
  pub settings : D → Option (List (Option PgSetting))
  pub query : D → String → Option (Rows F)

-- Server: a nil metric map is `none`.
pub record Server (V D F : Type 0) : Type 0 where
  pub db : D
  pub labels : GoMap String
  pub last_map_version : V
  pub metric_map : Option (GoMap (MetricMapNamespace F))
  pub query_overrides : GoMap String

-- Servers, with the connections that were closed.
pub record Servers (V D F : Type 0) : Type 0 where
  pub servers : GoMap (Server V D F)
  pub closed : List D

-- NewServers
abbrev pub new_servers : {V D F : Type 0} → Servers V D F
new_servers = record { servers = []; closed = [] }

module _ {V D F : Type 0} (driver : Driver D F) (zero_version : V)
    (constant_labels : GoMap String) where
  abbrev connected : String → Option D → Outcome (Server V D F)
  connected fingerprint none = err "cannot open the database"
  connected fingerprint (some db) = ok (record {
    db = db;
    labels = range_insert (λ k v. v) constant_labels (("server", fingerprint) ∷ []);
    last_map_version = zero_version;
    metric_map = none;
    query_overrides = [];
  })

  abbrev named : String → Outcome String → Outcome (Server V D F)
  named dsn (ok fingerprint) = connected fingerprint (driver.connect dsn)
  named dsn (err e) = err e
  named dsn (panic e) = panic e

  -- NewServer, with ServerWithLabels as its option
  unfoldable pub new_server : String → Outcome (Server V D F)
  new_server dsn = named dsn (parse_fingerprint driver.parse_url dsn)

  -- the end of GetServer: Ping, which closes a connection that does not answer
  unfoldable pub checked :
      String → Server V D F → Servers V D F → Outcome (Server V D F) × Servers V D F
  checked dsn server s = if driver.pings server.db then (ok server, s) else (
    err "the server does not answer",
    record { servers = delete dsn s.servers; closed = server.db ∷ s.closed },
  )

  abbrev opened :
      String → Outcome (Server V D F) → Servers V D F → Outcome (Server V D F) × Servers V D F
  opened dsn (ok server) s = checked dsn server (record s { servers = insert dsn server s.servers })
  opened dsn (err e) s = (err e, s)
  opened dsn (panic e) s = (panic e, s)

  abbrev found :
      String → Option (Server V D F) → Servers V D F → Outcome (Server V D F) × Servers V D F
  found dsn (some server) s = checked dsn server s
  found dsn none s = opened dsn (new_server dsn) s

  -- GetServer
  unfoldable pub get_server : String → Servers V D F → Outcome (Server V D F) × Servers V D F
  unfolding checked
  get_server dsn s = found dsn (lookup dsn s.servers) s

abbrev pub connections : {V D F : Type 0} → GoMap (Server V D F) → List D
connections [] = []
connections ((dsn, server) ∷ rest) = server.db ∷ connections rest

-- Servers.Close: every connection is closed, and the map stays as it is.
unfoldable pub close_servers : {V D F : Type 0} → Servers V D F → Servers V D F
close_servers s = record s { closed = connections s.servers ++ s.closed }
