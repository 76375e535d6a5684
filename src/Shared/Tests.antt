-- ===== src/Shared/Tests.antt =====
-- The theorem on the connection to MongoDB at a concrete host.
use exporter_plus.Prelude.{ℕ, String, true, false, none, some, ◌≡◌, refl}
use exporter_plus.Prelude.Int.{pos}
use exporter_plus.Prelude.Outcome.{ok}
use exporter_plus.Shared.Connection.{
  MongoSessionOpts, TlsConfig, DialInfo, Host, unless_empty, mongo_session,
}
use exporter_plus.Shared.Connection.Laws.{IsConfigured, mongo_session-IsConfigured}

-- A host whose server lets everyone in; keys and pools are named by their files.
abbrev open_host : Host String String String ℕ
open_host = record {
  parse_url = λ uri. ok uri;
  url_username = λ url. some "reader";
  url_mechanism = λ url. none;
  url_dials = λ url. false;
  load_x509_key_pair = λ certificate key. ok key;
  read_file = λ file. ok file;
  certs_of_pem = λ pem. pem;
  dial_with_info = λ info. ok 1;
}

abbrev tls_opts : MongoSessionOpts
tls_opts = record {
  uri = "mongodb://db:27017";
  tls_certificate_file = "client.pem";
  tls_private_key_file = "";
  tls_ca_file = "ca.pem";
  tls_hostname_validation = false;
  user_name = "";
  auth_mechanism = "MONGODB-X509";
  socket_timeout = pos 0;
}

mongo_session-IsConfigured_example :
    (url : String) × (info : DialInfo String String String) × (open_host.parse_url tls_opts.uri
      ≡ ok url)
    × (open_host.dial_with_info info ≡ ok 1)
    × (info.direct ≡ true)
    × (info.username ≡ unless_empty "" (open_host.url_username url))
    × (info.mechanism ≡ unless_empty "MONGODB-X509" (open_host.url_mechanism url))
    × IsConfigured open_host tls_opts url info.dial_server
unfolding mongo_session exporter_plus.Shared.Connection.configure_dial_info_if_required
    exporter_plus.Shared.Connection.tls_config exporter_plus.Shared.Connection.root_cas
    exporter_plus.Shared.Connection.load_certificates_from
    exporter_plus.Shared.Connection.load_key_pair_from
mongo_session-IsConfigured_example = mongo_session-IsConfigured open_host tls_opts 1 refl
