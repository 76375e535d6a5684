-- ===== src/Shared/Connection.antt =====
-- collector/shared/connection.go: the settings of a session, and how it is dialled. The package mgo
-- and the files of the key pair and of the certificates are parameters.
pub mod Laws
use exporter_plus.Prelude.{String, Bool, true, not, Option, none, some, if◌then◌else◌}
use exporter_plus.Prelude.Int.{ℤ, pos}
use exporter_plus.Prelude.Text.{is_empty}
use exporter_plus.Prelude.Outcome.{Outcome, ok, err, panic, ◌>>=◌}

-- MongoSessionOpts; the time is in nanoseconds
pub record MongoSessionOpts : Type 0 where
  pub uri : String
  pub tls_certificate_file : String
  pub tls_private_key_file : String
  pub tls_ca_file : String
  pub tls_hostname_validation : Bool
  pub user_name : String
  pub auth_mechanism : String
  pub socket_timeout : ℤ

-- The tls.Config that is dialled with: a key pair, the roots if they are not the host's, and
-- InsecureSkipVerify, with which the chain, but not the name, is checked after the handshake.
pub record TlsConfig (K C : Type 0) : Type 0 where
  pub certificate : K
  pub insecure_skip_verify : Bool
  pub root_cas : Option C

-- A DialServer function: the one that mgo.ParseURL sets, or tls.Dial with a configuration.
pub data Dialer (K C : Type 0) : Type 0 where
  url_dialer : Dialer K C
  tls_dialer : TlsConfig K C → Dialer K C

-- mgo.DialInfo: what mgo.ParseURL gave, and the fields that are set; a nil DialServer is `none`.
pub record DialInfo (U K C : Type 0) : Type 0 where
  pub url : U
  pub direct : Bool
  pub timeout_seconds : ℤ
  pub username : Option String
  pub mechanism : Option String
  pub dial_server : Option (Dialer K C)

-- Username and Mechanism are overwritten unless they are empty.
abbrev pub unless_empty : String → Option String → Option String
unless_empty s before = if is_empty s then before else some s

-- What the files, tls.LoadX509KeyPair and mgo do.
pub record Host (U K C S : Type 0) : Type 0 where
  pub parse_url : String → Outcome U
  pub url_username : U → Option String
  pub url_mechanism : U → Option String
  -- whether mgo.ParseURL sets DialServer
  pub url_dials : U → Bool
  pub load_x509_key_pair : String → String → Outcome K
  pub read_file : String → Outcome String
  pub certs_of_pem : String → C
  pub dial_with_info : DialInfo U K C → Outcome S

module _ {U K C S : Type 0} (host : Host U K C S) where
  -- LoadCertificatesFrom
  unfoldable pub load_certificates_from : String → Outcome C
  load_certificates_from pem_file =
      host.read_file pem_file >>= (λ ca_cert. ok (host.certs_of_pem ca_cert))

  -- LoadKeyPairFrom
  unfoldable pub load_key_pair_from : String → String → Outcome K
  load_key_pair_from pem_file private_key_pem_file =
      host.load_x509_key_pair pem_file
        (if is_empty private_key_pem_file then pem_file else private_key_pem_file)

  -- the roots of a tls.Config
  unfoldable pub root_cas : String → Outcome (Option C)
  root_cas tls_ca_file =
      if is_empty tls_ca_file
      then ok none
      else load_certificates_from tls_ca_file >>= (λ ca. ok (some ca))

  -- the tls.Config that configureDialInfoIfRequired dials with; the messages are those of the causes
  unfoldable pub tls_config : MongoSessionOpts → Outcome (Option (TlsConfig K C))
  tls_config opts =
      if is_empty opts.tls_certificate_file
      then ok none
      else load_key_pair_from opts.tls_certificate_file opts.tls_private_key_file
        >>= (λ certificates. root_cas opts.tls_ca_file >>= (λ ca. ok (
            some (record {
              certificate = certificates;
              insecure_skip_verify = not opts.tls_hostname_validation;
              root_cas = ca;
            }))))

  -- DialServer is left as it is without a configuration
  abbrev pub dialer_of : Option (Dialer K C) → Option (TlsConfig K C) → Option (Dialer K C)
  dialer_of before none = before
  dialer_of before (some config) = some (tls_dialer config)

  unfoldable pub configure_dial_info_if_required :
      MongoSessionOpts → DialInfo U K C → Outcome (DialInfo U K C)
  configure_dial_info_if_required opts dial_info = tls_config opts >>= (λ config.
      ok (record dial_info {
        mechanism = unless_empty opts.auth_mechanism dial_info.mechanism;
        dial_server = dialer_of dial_info.dial_server config;
      }))

  abbrev pub nil_on_error : Outcome S → Option S
  nil_on_error (ok s) = some s
  nil_on_error (err e) = none
  nil_on_error (panic e) = none

  -- what mgo.ParseURL gave, with Direct, Timeout and Username set
  abbrev pub parsed_info : MongoSessionOpts → U → DialInfo U K C
  parsed_info opts url = record {
    url = url;
    direct = true;
    timeout_seconds = pos 10;
    username = unless_empty opts.user_name (host.url_username url);
    mechanism = host.url_mechanism url;
    dial_server = if host.url_dials url then some url_dialer else none;
  }

  -- MongoSession; `none` is nil. The modes and the timeouts that it sets on the session are left out.
  unfoldable pub mongo_session : MongoSessionOpts → Option S
  mongo_session opts = nil_on_error (
      host.parse_url opts.uri >>= (λ url.
        configure_dial_info_if_required opts (parsed_info opts url) >>= host.dial_with_info))
