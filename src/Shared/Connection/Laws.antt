-- ===== src/Shared/Connection/Laws.antt =====
-- How a session that MongoSession gives was dialled.
use exporter_plus.Prelude.{
  String, true, false, not, Option, none, some, ◌≡◌, refl, sym, ap, ◌∙◌, Bool-cases, inl, inr,
  if◌then◌else◌, some_inj,
}
use exporter_plus.Prelude.Text.{is_empty}
use exporter_plus.Prelude.Outcome.{Outcome, ok, err, panic, ◌>>=◌, bind-ok, ok_inj}
use mathlib.Core.Path.{subst}
use exporter_plus.Shared.Connection.{
  MongoSessionOpts, TlsConfig, DialInfo, Host, load_certificates_from, load_key_pair_from, root_cas,
  Dialer, tls_dialer, url_dialer, dialer_of, tls_config, configure_dial_info_if_required,
  nil_on_error, unless_empty, parsed_info, mongo_session,
}

module _ {U K C S : Type 0} (host : Host U K C S) (opts : MongoSessionOpts) where
  -- the roots are those of the file of the CAs, where one is named
  abbrev pub HasRoots : Option C → Type 0
  HasRoots roots =
      (is_empty opts.tls_ca_file ≡ true → roots ≡ none)
      × (is_empty opts.tls_ca_file ≡ false
          → (pem : String) × (host.read_file opts.tls_ca_file ≡ ok pem)
            × (roots ≡ some (host.certs_of_pem pem)))

  -- the key is that of its own file, or stands in the certificate's
  abbrev pub key_file : String
  key_file =
      if is_empty opts.tls_private_key_file
      then opts.tls_certificate_file
      else opts.tls_private_key_file

  -- the configuration that is dialled with, and none without a certificate
  abbrev IsConfig : Option (TlsConfig K C) → Type 0
  IsConfig config =
      (is_empty opts.tls_certificate_file ≡ true → config ≡ none)
      × (is_empty opts.tls_certificate_file ≡ false
          → (c : TlsConfig K C) × (config ≡ some c)
            × (host.load_x509_key_pair opts.tls_certificate_file key_file ≡ ok c.certificate)
            × (c.insecure_skip_verify ≡ not opts.tls_hostname_validation)
            × HasRoots c.root_cas)

  -- Without a certificate the session is dialled as the URL says.
  abbrev pub IsConfigured : U → Option (Dialer K C) → Type 0
  IsConfigured url dialer =
      (is_empty opts.tls_certificate_file ≡ true
        → (host.url_dials url ≡ true → dialer ≡ some url_dialer)
          × (host.url_dials url ≡ false → dialer ≡ none))
      × (is_empty opts.tls_certificate_file ≡ false
          → (c : TlsConfig K C) × (dialer ≡ some (tls_dialer c))
            × (host.load_x509_key_pair opts.tls_certificate_file key_file ≡ ok c.certificate)
            × (c.insecure_skip_verify ≡ not opts.tls_hostname_validation)
            × HasRoots c.root_cas)

  root_cas-HasRoots :
      (roots : Option C) → root_cas host opts.tls_ca_file ≡ ok roots → HasRoots roots
  unfolding root_cas load_certificates_from
  root_cas-HasRoots roots e = elim (Bool-cases (is_empty opts.tls_ca_file)) [
    | inl p ↦ (λ _. sym (ok_inj (rw p at e)), λ q. let c : true ≡ false = sym p ∙ q in cc)
    | inr p ↦ (
      λ q. let c : false ≡ true = sym p ∙ q in cc,
      λ _.
          let (ca, e1, e2) =
            bind-ok (load_certificates_from host opts.tls_ca_file) (λ ca. ok (some ca))
              (rw p at e) in
          let (pem, e3, e4) =
            bind-ok (host.read_file opts.tls_ca_file) (λ pem. ok (host.certs_of_pem pem)) e1 in
          (pem, e3, sym (ok_inj e2) ∙ ap some (sym (ok_inj e4))),
    )
  ]

  abbrev with_roots : K → Option C → Outcome (Option (TlsConfig K C))
  with_roots key ca = ok (
      some (record {
        certificate = key;
        insecure_skip_verify = not opts.tls_hostname_validation;
        root_cas = ca;
      }))

  tls_config-IsConfig :
      (config : Option (TlsConfig K C)) → tls_config host opts ≡ ok config → IsConfig config
  unfolding tls_config load_key_pair_from
  tls_config-IsConfig config e = elim (Bool-cases (is_empty opts.tls_certificate_file)) [
    | inl p ↦ (λ _. sym (ok_inj (rw p at e)), λ q. let c : true ≡ false = sym p ∙ q in cc)
    | inr p ↦ (
      λ q. let c : false ≡ true = sym p ∙ q in cc,
      λ _.
          let (key, e1, e2) =
            bind-ok (host.load_x509_key_pair opts.tls_certificate_file key_file)
              (λ key. root_cas host opts.tls_ca_file >>= with_roots key) (rw p at e) in
          let (ca, e3, e4) = bind-ok (root_cas host opts.tls_ca_file) (with_roots key) e2 in
          (_, sym (ok_inj e4), e1, refl, root_cas-HasRoots ca e3),
    )
  ]

  abbrev before : U → Option (Dialer K C)
  before url = (parsed_info host opts url).dial_server

  dialer_of-IsConfigured :
      (url : U) (config : Option (TlsConfig K C))
      → IsConfig config
      → IsConfigured url (dialer_of host (before url) config)
  dialer_of-IsConfigured url config (without, with_one) = (
    λ q. (
      λ d. ap (dialer_of host (before url)) (without q) ∙ rw d refl,
      λ d. ap (dialer_of host (before url)) (without q) ∙ rw d refl,
    ),
    λ q.
        let (c, same, key, skips, roots) = with_one q in
        (c, ap (dialer_of host (before url)) same, key, skips, roots),
  )

  from_outcome : (o : Outcome S) (session : S) → nil_on_error host o ≡ some session → o ≡ ok session
  from_outcome (ok s) session h = ap ok (some_inj h)
  from_outcome (err e) session h = cc
  from_outcome (panic e) session h = cc

  -- A session was dialled directly, with the names of the options where these are not empty. Without a
  -- certificate it was dialled as mgo.ParseURL says: with TLS where the URL asks for it, and else without. With one it was dialled with the certificate and its key,
  -- the key's file being the certificate's unless it is named; with the host's name validated as the
  -- options say; and with the roots of the file of the CAs, or the host's where none is named.
  pub mongo_session-IsConfigured :
      (session : S)
      → mongo_session host opts ≡ some session
      → (url : U) × (info : DialInfo U K C) × (host.parse_url opts.uri ≡ ok url)
        × (host.dial_with_info info ≡ ok session)
        × (info.direct ≡ true)
        × (info.username ≡ unless_empty opts.user_name (host.url_username url))
        × (info.mechanism ≡ unless_empty opts.auth_mechanism (host.url_mechanism url))
        × IsConfigured url info.dial_server
  unfolding mongo_session configure_dial_info_if_required
  mongo_session-IsConfigured session h =
      let (url, e1, e2) =
        bind-ok (host.parse_url opts.uri)
          (λ url.
            configure_dial_info_if_required host opts (parsed_info host opts url)
            >>= host.dial_with_info)
          (from_outcome _ session h) in
      let (info, e3, e4) =
        bind-ok (configure_dial_info_if_required host opts (parsed_info host opts url))
          host.dial_with_info e2 in
      let (config, e5, e6) =
        bind-ok (tls_config host opts)
          (λ config. ok (record (parsed_info host opts url) {
            mechanism = unless_empty opts.auth_mechanism (host.url_mechanism url);
            dial_server = dialer_of host (before url) config;
          }))
          e3 in
      let same = sym (ok_inj e6) in
      (
        url,
        info,
        e1,
        e4,
        ap (λ (i : DialInfo U K C). i.direct) same,
        ap (λ (i : DialInfo U K C). i.username) same,
        ap (λ (i : DialInfo U K C). i.mechanism) same,
        subst (IsConfigured url) (ap (λ (i : DialInfo U K C). i.dial_server) (ok_inj e6))
            (dialer_of-IsConfigured url config (tls_config-IsConfig config e5)),
      )
