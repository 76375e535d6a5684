-- ===== src/Main.antt =====
-- exporter-plus.go: the routes that the program serves. The flags that kingpin has read, the packages
-- under vendor and the handlers' constructors are parameters; a route whose handler cannot be made ends
-- the program. The routes of net/http/pprof, which is imported for them, are left out.
pub mod Laws
mod Tests
use exporter_plus.Prelude.{
  String, Bool, true, false, List, [], ◌∷◌, ◌++◌, map, str_eq, if◌then◌else◌,
}
use exporter_plus.Prelude.Text.{is_empty}
use exporter_plus.Prelude.Outcome.{Outcome, ok, err, panic, ◌>>=◌}
use exporter_plus.Handlers.Elastic.{or_fatal}

-- The switches, of which each has "disable" for its default.
pub record Switches : Type 0 where
  pub mysql_switch : String
  pub redis_switch : String
  pub mongodb_switch : String
  pub elasticsearch_switch : String
  pub kafka_switch : String
  pub postgres_switch : String

-- A scraper, its name and its flag.
pub record ScraperFlag (S : Type 0) : Type 0 where
  pub scraper : S
  pub is_enabled : Bool

-- What the program calls: handlers of the type H, scrapers of the type S.
pub record Packages (S H : Type 0) : Type 0 where
  pub new_node_collector : Outcome (List String)
  pub new_mysqld_handler : List S → Outcome H
  pub new_redis_handler : Outcome H
  pub new_mongodb_handler : Outcome H
  pub new_elasticsearch_handler : Outcome H
  pub new_kafka_handler : Outcome H
  pub new_postgres_handler : Outcome H
  pub node_exporter_handler : H

-- getMysqlExporterScrapers: the default of a scraper's flag
unfoldable pub default_on : Bool → String
default_on enabled_by_default = if enabled_by_default then "true" else "false"

-- the loop of initMysqlExporter over the scrapers
unfoldable pub enabled_scrapers : {S : Type 0} → List (ScraperFlag S) → List S
enabled_scrapers [] = []
enabled_scrapers (f ∷ flags) =
    if f.is_enabled then f.scraper ∷ enabled_scrapers flags else enabled_scrapers flags

-- initMysqlExporter
unfoldable pub init_mysql_exporter : {S : Type 0} → String → List (ScraperFlag S) → Outcome (List S)
unfolding enabled_scrapers
init_mysql_exporter dsn flags =
    if is_empty dsn then panic "data source name could not be null" else ok (enabled_scrapers flags)

-- one `if` of main; the path and the handler that http.HandleFunc is given
unfoldable pub switched : {H : Type 0} → String → String → Outcome H → Outcome (List (String × H))
switched switch path handler =
    if str_eq switch "enable" then handler >>= (λ h. ok ((path, h) ∷ [])) else ok []

-- the `if`s, one after another
unfoldable pub routes :
    {H : Type 0} → List (String × String × Outcome H) → Outcome (List (String × H))
unfolding switched
routes [] = ok []
routes ((switch, path, handler) ∷ rest) =
    switched switch path handler >>= (λ first. routes rest >>= (λ more. ok (first ++ more)))

module _ {S H : Type 0} (packages : Packages S H) (dsn : String)
    (flags : List (ScraperFlag S)) where
  abbrev pub new_mysqld : Outcome H
  new_mysqld = init_mysql_exporter dsn flags >>= packages.new_mysqld_handler

  abbrev pub switches_of : Switches → List (String × String × Outcome H)
  switches_of s =
      (s.mysql_switch, "/mysqld", new_mysqld)
      ∷ (s.redis_switch, "/redis", packages.new_redis_handler)
      ∷ (s.mongodb_switch, "/mongodb", packages.new_mongodb_handler)
      ∷ (s.elasticsearch_switch, "/elastic", packages.new_elasticsearch_handler)
      ∷ (s.kafka_switch, "/kafka", packages.new_kafka_handler)
      ∷ (s.postgres_switch, "/postgres", packages.new_postgres_handler)
      ∷ []

  -- main, up to ListenAndServe: the paths that are served, with their handlers
  unfoldable pub main : Switches → Outcome (List (String × H))
  unfolding routes init_mysql_exporter
  main s = or_fatal "Couldn't create collector" packages.new_node_collector >>= (λ collectors.
      routes (switches_of s)
      >>= (λ served. ok (served ++ (("/node", packages.node_exporter_handler) ∷ []))))
