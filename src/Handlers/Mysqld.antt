-- ===== src/Handlers/Mysqld.antt =====
-- ParseMycnf, customizeTLS and the filter of NewMysqldHandler in handlers/mysqldhandler.go.
pub mod Laws
use exporter_plus.Prelude.{
  ℕ, String, Bool, true, false, not, ◌&&◌, ◌||◌, Option, none, some, List, [], ◌∷◌, str_eq,
  if◌then◌else◌,
}
use exporter_plus.Prelude.Text.{append, is_empty, format_ℕ}
use exporter_plus.Prelude.GoMap.{GoMap, lookup, insert}
use exporter_plus.Prelude.Outcome.{Outcome, ok, err, panic, ◌>>=◌}

-- The packages ini, x509 and tls and the file system: the section client of the file by its keys,
-- a missing one as "", or an error; P is a certificate pair.
pub record Packages (P : Type 0) : Type 0 where
  pub client_section : Option (String → String)
  pub parse_uint : String → Option ℕ
  pub read_file : String → Option String
  pub is_pem : String → Bool
  pub load_key_pair : String → String → Option P

-- The TLS configuration that is registered as "custom".
pub record CustomTls (P : Type 0) : Type 0 where
  pub root_ca : String
  pub certificates : List P

module _ {P : Type 0} (packages : Packages P) where
  abbrev or_error : {A : Type 0} → String → Option A → Outcome A
  or_error e none = err e
  or_error e (some a) = ok a

  -- the pair of certificate and key, if both are given
  unfoldable pub certificate_pairs : String → String → Outcome (List P)
  certificate_pairs cert key =
      if not (is_empty cert) && not (is_empty key)
      then (do
        pair ← or_error "failed to parse pem-encoded SSL cert" (packages.load_key_pair cert key)
        ok (pair ∷ []))
      else ok []

  -- customizeTLS
  unfoldable pub customize_tls : String → String → String → Outcome (CustomTls P)
  unfolding certificate_pairs
  customize_tls ca cert key = do
    pem ← or_error "cannot read the file" (packages.read_file ca)
    root ← (if packages.is_pem pem then ok pem else err "failed parse pem-encoded CA certificates")
    pairs ← certificate_pairs cert key
    ok (record { root_ca = root; certificates = pairs })

  abbrev pub must_string : String → String → String
  must_string value default = if is_empty value then default else value

  abbrev pub or_default : Option ℕ → ℕ → ℕ
  or_default none default = default
  or_default (some n) default = n

  -- the data source, without the TLS part
  unfoldable pub plain_dsn : (String → String) → String
  plain_dsn key = append (key "user") (
      append ":" (
        append (key "password") (
          if not (is_empty (key "socket"))
          then append "@unix(" (append (key "socket") ")/")
          else append "@tcp(" (
              append (must_string (key "host") "localhost") (
                append ":"
                  (append (format_ℕ (or_default (packages.parse_uint (key "port")) 3306)) ")/"))))))

  -- the data source and the TLS configuration that was registered for it
  unfoldable pub mycnf_dsn : (String → String) → Outcome (String × Option (CustomTls P))
  unfolding plain_dsn customize_tls
  mycnf_dsn key =
      if is_empty (key "user") || is_empty (key "password")
      then err "no user or password specified under [client]"
      else if is_empty (key "ssl-ca")
      then ok (plain_dsn key, none)
      else (do
        tls ← customize_tls (key "ssl-ca") (key "ssl-cert") (key "ssl-key")
        ok (append (plain_dsn key) "?tls=custom", some tls))

  -- ParseMycnf
  unfoldable pub parse_mycnf : Outcome (String × Option (CustomTls P))
  unfolding mycnf_dsn
  parse_mycnf = do
    section ← or_error "failed reading ini file" packages.client_section
    mycnf_dsn section

-- `filters[param] = true` for each parameter
unfoldable pub filters_of : List String → GoMap Bool → GoMap Bool
filters_of [] filters = filters
filters_of (param ∷ params) filters = filters_of params (insert param true filters)

abbrev pub or_false : Option Bool → Bool
or_false none = false
or_false (some b) = b

module _ {S : Type 0} (name : S → String) where
  -- the loop over the scrapers
  unfoldable pub filter_scrapers : GoMap Bool → List S → List S
  filter_scrapers filters [] = []
  filter_scrapers filters (scraper ∷ scrapers) =
      if or_false (lookup (name scraper) filters)
      then scraper ∷ filter_scrapers filters scrapers
      else filter_scrapers filters scrapers

  -- the scrapers that a request with these collect[] parameters runs
  unfoldable pub filtered_scrapers : List String → List S → List S
  unfolding filter_scrapers filters_of
  filtered_scrapers [] scrapers = scrapers
  filtered_scrapers (param ∷ params) scrapers =
      filter_scrapers (filters_of (param ∷ params) []) scrapers
