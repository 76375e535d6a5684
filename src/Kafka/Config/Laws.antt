-- ===== src/Kafka/Config/Laws.antt =====
-- A certificate and its key: both, or neither.
use mathlib.Core.Path.{subst}
use exporter_plus.Prelude.{
  String, Bool, true, false, ◌≡◌, ◌≢◌, ◌↔◌, refl, ◌∙◌, ap, sym, Option, some, List, [], arith,
}
use exporter_plus.Prelude.Outcome.{ok, bind-ok, ok_inj}
use exporter_plus.Kafka.Types.{Client, Exporter}
use exporter_plus.Kafka.Config.{
  KafkaOpts, Packages, Config, Tls, can_read_cert_and_key, pair_error, root_cas, certificates,
  with_sasl, with_tls, new_exporter, or_fatal, fatal_error, or_panic, or_err,
}

module _ {V P : Type 0} (packages : Packages V P) where
  -- The answer is true exactly if both files can be opened and false exactly if neither can; if
  -- only one can, it is an error that names the other.
  pub can_read_cert_and_key_lem :
      (cert key : String)
      → ((can_read_cert_and_key packages cert key ≡ ok true)
          ↔ ((packages.can_open cert ≡ true) × (packages.can_open key ≡ true)))
        × ((can_read_cert_and_key packages cert key ≡ ok false)
            ↔ ((packages.can_open cert ≡ false) × (packages.can_open key ≡ false)))
        × (packages.can_open cert ≡ false
            → packages.can_open key ≡ true
            → can_read_cert_and_key packages cert key ≡ pair_error packages cert)
        × (packages.can_open cert ≡ true
            → packages.can_open key ≡ false
            → can_read_cert_and_key packages cert key ≡ pair_error packages key)
  unfolding can_read_cert_and_key
  can_read_cert_and_key_lem cert key = ground arith

  -- What a TLS setting for the options is: a certificate exactly if both of its files can be opened,
  -- and never only one of them.
  abbrev pub IsPaired : KafkaOpts → Option (Tls P) → Type 0
  IsPaired opts tls =
      (t : Tls P) × (tls ≡ some t)
      × (t.insecure_skip_verify ≡ opts.tls_insecure_skip_tls_verify)
      × (packages.can_open opts.tls_cert_file ≡ packages.can_open opts.tls_key_file)
      × ((t.certificates ≢ []) ↔ (packages.can_open opts.tls_cert_file ≡ true))

  certificates_lem :
      (cert key : String) (readable : Bool) (pairs : List P)
      → certificates packages cert key readable ≡ ok pairs
      → (pairs ≢ []) ↔ (readable ≡ true)
  unfolding certificates
  certificates_lem cert key true pairs h =
      let (pair, _, e) = bind-ok (or_fatal packages (packages.load_key_pair cert key)) _ h in
      (λ _. refl, λ _ q. cc (ok_inj e, q))
  certificates_lem cert key false pairs h = (λ ne. absurd (ne (sym (ok_inj h))), λ q. cc q)

  paired :
      (cert key : String) (readable : Bool)
      → fatal_error packages (can_read_cert_and_key packages cert key) ≡ ok readable
      → (packages.can_open cert ≡ packages.can_open key) × (packages.can_open cert ≡ readable)
  unfolding can_read_cert_and_key
  paired cert key readable h = ground arith

  with_tls-IsPaired :
      (opts : KafkaOpts) (config made : Config V P)
      → opts.use_tls ≡ true
      → with_tls packages opts config ≡ ok made
      → IsPaired opts made.tls
  unfolding with_tls
  with_tls-IsPaired opts config made uses h =
      let (roots, _, h') = bind-ok (root_cas packages opts.tls_ca_file) _ (rw uses at h) in
      let (readable, r, h'') =
        bind-ok
          (fatal_error packages
            (can_read_cert_and_key packages opts.tls_cert_file opts.tls_key_file))
          _ h' in
      let (pairs, p, e) =
        bind-ok (certificates packages opts.tls_cert_file opts.tls_key_file readable) _ h'' in
      let (same, is) = paired opts.tls_cert_file opts.tls_key_file readable r in
      let (to, from) = certificates_lem opts.tls_cert_file opts.tls_key_file readable pairs p in
      (
        record {
          root_cas = roots;
          insecure_skip_verify = opts.tls_insecure_skip_tls_verify;
          certificates = pairs;
        },
        ap (λ (c : Config V P). c.tls) (sym (ok_inj e)),
        refl,
        same,
        (λ ne. is ∙ to ne, λ q. from (sym is ∙ q)),
      )

  -- If NewExporter returns an exporter for options that use TLS, then its client has a TLS setting:
  -- with the option's choice on verification, and with a certificate exactly if the certificate's
  -- file can be opened, which is so exactly if the key's file can. Its metadata is refreshed from now
  -- on, at the client's frequency.
  pub new_exporter-IsPaired :
      (opts : KafkaOpts) (topic_filter group_filter : String) (client : Client)
      (config : Config V P) (e : Exporter)
      → opts.use_tls ≡ true
      → new_exporter packages opts topic_filter group_filter ≡ ok (client, (config, e))
      → IsPaired opts config.tls
        × (e.metadata_refresh_interval ≡ config.refresh_frequency)
        × (e.next_metadata_refresh ≡ packages.now)
  unfolding new_exporter
  new_exporter-IsPaired opts topic_filter group_filter client config e uses h =
      let (version, _, h1) =
        bind-ok
          (or_err packages "invalid version" (packages.parse_kafka_version opts.kafka_version)) _
          h in
      let (made, m, h2) =
        bind-ok
          (with_tls packages opts (
            with_sasl packages opts
              (record packages.new_config { client_id = "kafka_exporter"; version = version })))
          _ h1 in
      let (interval, _, h3) =
        bind-ok
          (or_panic packages "invalid duration"
            (packages.parse_duration opts.metadata_refresh_interval))
          _ h2 in
      let (c, _, h4) =
        bind-ok
          (or_panic packages "nil pointer dereference"
            (packages.new_client opts.uri (record made { refresh_frequency = interval })))
          _ h3 in
      let (topics, _, h5) =
        bind-ok (or_panic packages "regexp: Compile" (packages.compile topic_filter)) _ h4 in
      let (groups, _, h6) =
        bind-ok (or_panic packages "regexp: Compile" (packages.compile group_filter)) _ h5 in
      let same = ap (λ (r : Client × (Config V P × Exporter)). r.1) (ok_inj h6) in
      (
        subst (IsPaired opts) (ap (λ (r : Config V P × Exporter). r.0.tls) same)
            (with_tls-IsPaired opts _ made uses m),
        sym (ap (λ (r : Config V P × Exporter). r.1.metadata_refresh_interval) same)
            ∙ ap (λ (r : Config V P × Exporter). r.0.refresh_frequency) same,
        sym (ap (λ (r : Config V P × Exporter). r.1.next_metadata_refresh) same),
      )
