-- ===== src/Main/Tests.antt =====
-- The program with two of its switches on.
use exporter_plus.Prelude.{String, true, false, List, [], ◌∷◌, refl, str_eq}
use exporter_plus.Prelude.Outcome.{ok, panic}
use exporter_plus.Main.{
  Switches, ScraperFlag, Packages, enabled_scrapers, init_mysql_exporter, switched, routes, main,
}
use exporter_plus.Main.Laws.{IsShown, main_routes-IsShown}

abbrev packages : Packages String String
packages = record {
  new_node_collector = ok ("cpu" ∷ []);
  new_mysqld_handler = λ scrapers. ok "mysqld";
  new_redis_handler = panic "cannot open the password file";
  new_mongodb_handler = ok "mongodb";
  new_elasticsearch_handler = ok "elasticsearch";
  new_kafka_handler = ok "kafka";
  new_postgres_handler = ok "postgres";
  node_exporter_handler = "node";
}

abbrev switches : Switches
switches = record {
  mysql_switch = "enable";
  redis_switch = "disable";
  mongodb_switch = "disable";
  elasticsearch_switch = "disable";
  kafka_switch = "enable";
  postgres_switch = "disable";
}

abbrev scraper_flags : List (ScraperFlag String)
scraper_flags =
    record { scraper = "global_status"; is_enabled = true }
    ∷ record { scraper = "heartbeat"; is_enabled = false }
    ∷ []

abbrev served : List (String × String)
served = ("/mysqld", "mysqld") ∷ ("/kafka", "kafka") ∷ ("/node", "node") ∷ []

main_routes-IsShown_example : IsShown packages "root@tcp(db)/" scraper_flags switches served
unfolding main routes switched init_mysql_exporter enabled_scrapers str_eq
main_routes-IsShown_example =
    main_routes-IsShown packages "root@tcp(db)/" scraper_flags switches served refl
