-- ===== src/Postgres/Tests/Setup.antt =====
-- The Postgres handler, made and asked in a small world.
use exporter_plus.Prelude.{
  ℕ, suc, String, true, none, [], ◌∷◌, length, ◌≡◌, refl, str_eq, if◌then◌else◌,
}
use exporter_plus.Prelude.Int.{ℤ, pos}
use exporter_plus.Prelude.GoMap.{lookup, insert, delete}
use exporter_plus.Prelude.Text.{split, trim_space}
use exporter_plus.Postgres.Labels.{parse_const_labels}
use exporter_plus.Postgres.Dsn.{Env, get_data_sources, parse_fingerprint}
use exporter_plus.Postgres.Settings.{query_settings}
use exporter_plus.Postgres.Namespace.{query_namespace_mappings}
use exporter_plus.Postgres.Version.{parse_version}
use exporter_plus.Postgres.Servers.{new_server, get_server}
use exporter_plus.Postgres.Exporter.{Exporter, World, check_map_versions}
use exporter_plus.Postgres.Scrape.{scrape, collect}
use exporter_plus.Postgres.Setup.{
  PostgresFlags, new_postgres_exporter, apply_opts, apply_opt, describe_postgres, must_register,
  new_postgres_handler, serve,
}
use exporter_plus.Postgres.Setup.Laws.{handler_scrapes}
use exporter_plus.Postgres.Tests.World.{world, exporter}

abbrev registered : Exporter ℕ String ℤ
registered = record exporter {
  disable_settings_metrics = true;
  dsn = "host=down" ∷ [];
  error = 1;
  psql_up = 0;
  total_scrapes = 1;
  servers = record { servers = []; closed = "host=down" ∷ [] };
}

-- The same, after a request.
abbrev asked_once : Exporter ℕ String ℤ
asked_once = record registered {
  total_scrapes = 2;
  servers = record { servers = []; closed = "host=down" ∷ "host=down" ∷ [] };
}

abbrev env : Env
env = record {
  getenv = λ name. if str_eq name "DATA_SOURCE_NAME" then "host=down" else "";
  read_file = λ path. none;
  user_password = λ user pass. user;
}

abbrev flags : PostgresFlags
flags = record {
  no_default_metrics = true;
  no_settings_metrics = true;
  queries_path = "";
  constant_labels_list = "";
}

handler_scrapes_example :
    asked_once.total_scrapes ≡ suc (length {A = World ℕ String ℤ × ℤ} ((world, pos 0) ∷ []))
unfolding new_postgres_handler must_register describe_postgres new_postgres_exporter apply_opts
    apply_opt parse_const_labels get_data_sources serve collect scrape str_eq get_server lookup
    check_map_versions parse_version query_settings query_namespace_mappings insert new_server
    parse_fingerprint split trim_space delete
handler_scrapes_example =
    handler_scrapes world (λ descs. true) (pos 0) env flags ((world, pos 0) ∷ []) registered
      asked_once refl refl
