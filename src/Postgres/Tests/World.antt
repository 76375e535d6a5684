-- ===== src/Postgres/Tests/World.antt =====
-- A small world: versions are numbers, a connection is the text that opened it.
use exporter_plus.Prelude.{
  ℕ, zero, suc, String, Bool, true, false, not, ◌&&◌, none, some, [], ◌∷◌, ltb, ◌==◌, str_eq,
  if◌then◌else◌,
}
use exporter_plus.Prelude.Text.{join_words}
use exporter_plus.Prelude.Int.{ℤ, pos}
use exporter_plus.Prelude.Outcome.{ok}
use exporter_plus.Prelude.Float.{concrete}
use exporter_plus.Postgres.Types.{Semver}
use exporter_plus.Postgres.Namespace.{Row, Rows}
use exporter_plus.Postgres.Servers.{Driver, Server, Servers}
use exporter_plus.Postgres.Exporter.{Exporter, World}
use exporter_plus.Postgres.Types.{int64, text}

abbrev pub number_of : String → ℕ
number_of s =
    if str_eq s "0.0.0"
    then 0
    else if str_eq s "9.2.0"
    then 920
    else if str_eq s "10.0.0"
    then 1000
    else 961

abbrev pub range_of : String → ℕ → Bool
range_of s v =
    if str_eq s ">0.0.0"
    then ltb 0 v
    else if str_eq s ">=10.0.0"
    then not (ltb v 1000)
    else if str_eq s ">=9.2.0"
    then not (ltb v 920)
    else if str_eq s "<9.2.0"
    then ltb v 920
    else not (ltb v 920) && ltb v 1000

abbrev pub versions : Semver ℕ
versions = record {
  must_parse = number_of;
  must_parse_range = range_of;
  parse_tolerant = λ s. ok (number_of s);
  lt = ltb;
  ne = λ a b. not (a == b);
  version_string = λ v. "9.6.1";
  zero_version = 0;
}

-- one row, of a number, a text and a number
abbrev pub row : Row ℤ
row zero = int64 (pos 4)
row (suc zero) = text "walsender"
row (suc (suc i)) = int64 (pos 9)

abbrev pub rows : Rows ℤ
rows = record { columns = some ("pid" ∷ "state" ∷ "delay" ∷ []); scans = some row ∷ some row ∷ [] }

-- A data source that starts with "down" does not answer.
abbrev pub driver : Driver String ℤ
driver = record {
  parse_url = λ url. none;
  connect = λ url. some url;
  pings = λ url. not (str_eq url "host=down");
  version = λ url. some "PostgreSQL 9.6.1 on x86_64";
  settings = λ url. some [];
  query = λ url q. some rows;
}

abbrev pub world : World ℕ String ℤ
world = record {
  fl = concrete;
  sv = versions;
  driver = driver;
  read_file = λ path. none;
  hash = λ s. s;
  unmarshal = λ s. ok [];
  build_fq_name = λ ns subsystem name. join_words ns (join_words subsystem name);
}

abbrev pub server : Server ℕ String ℤ
server = record {
  db = "host=up";
  labels = [];
  last_map_version = 0;
  metric_map = none;
  query_overrides = [];
}

abbrev pub pool : Servers ℕ String ℤ
pool = record { servers = ("host=up", server) ∷ []; closed = [] }

abbrev pub exporter : Exporter ℕ String ℤ
exporter = record {
  disable_default_metrics = true;
  disable_settings_metrics = false;
  dsn = "host=up" ∷ "host=down" ∷ [];
  user_queries_path = "";
  constant_labels = [];
  error = 3;
  psql_up = 5;
  total_scrapes = 6;
  user_queries_error = [];
  servers = pool;
}
