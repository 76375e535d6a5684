-- ===== src/Handlers/Tests.antt =====
-- The theorems on the handlers at concrete inputs.
use mathlib.Core.List.{Memᴰ}
use exporter_plus.Prelude.{
  String, ◌≡◌, ◌≢◌, ◌↔◌, ◌⊎◌, refl, true, false, Option, none, some, List, [], ◌∷◌, str_eq,
  if◌then◌else◌,
}
use exporter_plus.Prelude.Text.{format_ℕ, is_empty}
use exporter_plus.Prelude.Outcome.{ok, panic}
use exporter_plus.Handlers.Elastic.{
  PemFiles, ClientTls, HasClient, load_roots, client_certificates, create_tls_config,
  create_tls_config_lem,
}
use exporter_plus.Handlers.Redis.{Flags, RedisHost, Packages, new_redis_handler}
use exporter_plus.Handlers.Redis.Laws.{IsPassword, IsHost, new_redis_handler_lem}
use exporter_plus.Handlers.Mysqld.{CustomTls, parse_mycnf, filtered_scrapers}
use exporter_plus.Handlers.Mysqld as Mysqld
use exporter_plus.Handlers.Mysqld.Laws.{IsRegistered, Mem-filtered_scrapers, parse_mycnf_lem}

abbrev host : RedisHost
host = record { addrs = "0.0.0.0:6379" ∷ []; passwords = "secret" ∷ []; aliases = [] }

abbrev packages : Packages String
packages = record {
  read_file = λ path. some "secret";
  load_redis_file = λ path. none;
  get_cloud_foundry_redis_bindings = host;
  load_redis_args =
      λ addr password alias sep. record host { addrs = addr ∷ []; passwords = password ∷ [] };
  new_redis_exporter = λ h namespace single keys. some "exporter";
}

abbrev flags : Flags
flags = record {
  redis_addr = "0.0.0.0:6379";
  redis_file = "";
  redis_password = "";
  redis_password_file = "/password";
  redis_alias = "";
  namespace = "";
  check_keys = "";
  check_single_keys = "";
  script_path = "";
  separator = "";
  use_cf_bindings = false;
}

new_redis_handler_lem_example :
    (new_redis_handler packages flags ≡ ok ("exporter", none)
      → ((flags.redis_file ≡ "") ⊎ (flags.redis_addr ≡ ""))
        × (password : String) × (h : RedisHost) × IsPassword packages flags password
        × IsHost packages flags password h
        × (packages.new_redis_exporter h "" "" "" ≡ some "exporter"))
    × (flags.redis_file ≢ ""
        → flags.redis_addr ≢ ""
        → new_redis_handler packages flags ≡ panic "Cannot specify both redis.addr and redis.file")
new_redis_handler_lem_example = new_redis_handler_lem packages flags "exporter" none

abbrev asked : List String
asked = "heartbeat" ∷ []

Mem-filtered_scrapers_example :
    Memᴰ {A = String} "heartbeat"
      (filtered_scrapers (λ s. s) asked ("global_status" ∷ "heartbeat" ∷ []))
    ↔ (Memᴰ {A = String} "heartbeat" ("global_status" ∷ "heartbeat" ∷ [])
        × ((asked ≡ []) ⊎ Memᴰ "heartbeat" asked))
Mem-filtered_scrapers_example =
    Mem-filtered_scrapers (λ s. s) asked ("global_status" ∷ "heartbeat" ∷ []) "heartbeat"

abbrev section : String → String
section key =
    if str_eq key "user"
    then "root"
    else if str_eq key "password"
    then "secret"
    else if str_eq key "ssl-ca"
    then "/ca"
    else ""

abbrev files : Mysqld.Packages String
files = record {
  client_section = some section;
  parse_uint = λ s. none;
  read_file = λ path. some "pem";
  is_pem = λ pem. true;
  load_key_pair = λ cert key. none;
}

abbrev tls : CustomTls String
tls = record { root_ca = "pem"; certificates = [] }

parse_mycnf_lem_example :
    (section "user" ≢ "")
    × (section "password" ≢ "")
    × IsRegistered files section "root:secret@tcp(localhost:3306)/?tls=custom" (some tls)
unfolding parse_mycnf str_eq format_ℕ
parse_mycnf_lem_example =
    parse_mycnf_lem files section "root:secret@tcp(localhost:3306)/?tls=custom" (some tls) refl refl

abbrev pems : PemFiles String String
pems = record {
  read_file = λ path. ok "pem";
  certs_of_pem = λ pem. pem;
  load_x509_key_pair = λ cert key. ok "pair";
}

abbrev with_roots : Option (ClientTls String String)
with_roots = some (record { root_cas = "pem"; certificates = [] })

create_tls_config_lem_example :
    (is_empty "/ca" ≡ true → with_roots ≡ none)
    × (is_empty "/ca" ≡ false
        → (c : ClientTls String String) × (pem : String) × (with_roots ≡ some c)
          × (pems.read_file "/ca" ≡ ok pem)
          × (c.root_cas ≡ pems.certs_of_pem pem)
          × HasClient pems "/cert" "" c.certificates)
unfolding create_tls_config load_roots client_certificates
create_tls_config_lem_example = create_tls_config_lem pems "/ca" "/cert" "" with_roots refl
