-- ===== src/Handlers/Elastic.antt =====
-- The TLS settings of handlers/elasticsearchhandler.go. The files, and what crypto/tls and crypto/x509
-- make of them, are parameters.
use exporter_plus.Prelude.{
  String, true, false, not, ◌&&◌, Option, none, some, List, [], ◌∷◌, ◌≡◌, sym, ◌∙◌, Bool-cases, inl,
  inr, if◌then◌else◌,
}
use exporter_plus.Prelude.Text.{is_empty}
use exporter_plus.Prelude.Outcome.{Outcome, ok, err, panic, ◌>>=◌, bind-ok, ok_inj}

-- The fields of the tls.Config that are set.
pub record ClientTls (K C : Type 0) : Type 0 where
  pub root_cas : C
  pub certificates : List K

pub record PemFiles (K C : Type 0) : Type 0 where
  pub read_file : String → Outcome String
  pub certs_of_pem : String → C
  pub load_x509_key_pair : String → String → Outcome K

-- log.Fatalf on an error
abbrev pub or_fatal : {A : Type 0} → String → Outcome A → Outcome A
or_fatal message (ok a) = ok a
or_fatal message (err e) = panic message
or_fatal message (panic e) = panic e

module _ {K C : Type 0} (files : PemFiles K C) where
  -- loadCertificatesFrom
  unfoldable pub load_roots : String → Outcome C
  load_roots pem_file = files.read_file pem_file >>= (λ ca_cert. ok (files.certs_of_pem ca_cert))

  -- the client's certificate, where both of its files are named
  unfoldable pub client_certificates : String → String → Outcome (List K)
  client_certificates pem_cert_file pem_private_key_file =
      if not (is_empty pem_cert_file) && not (is_empty pem_private_key_file)
      then or_fatal "Couldn't setup client authentication."
          (files.load_x509_key_pair pem_cert_file pem_private_key_file)
        >>= (λ key. ok (key ∷ []))
      else ok []

  -- createTLSConfig; `none` is nil
  unfoldable pub create_tls_config : String → String → String → Outcome (Option (ClientTls K C))
  create_tls_config pem_file pem_cert_file pem_private_key_file =
      if is_empty pem_file
      then ok none
      else or_fatal "Couldn't load root certificate." (load_roots pem_file) >>= (λ roots.
        client_certificates pem_cert_file pem_private_key_file
        >>= (λ keys. ok (some (record { root_cas = roots; certificates = keys }))))

  or_fatal-ok : {A : Type 0} (m : String) (o : Outcome A) (a : A) → or_fatal m o ≡ ok a → o ≡ ok a
  or_fatal-ok m (ok b) a h = h
  or_fatal-ok m (err e) a h = cc
  or_fatal-ok m (panic e) a h = cc

  -- the certificates that a configuration has for the names of the files
  abbrev pub HasClient : String → String → List K → Type 0
  HasClient pem_cert_file pem_private_key_file keys =
      (not (is_empty pem_cert_file) && not (is_empty pem_private_key_file) ≡ true
        → (key : K) × (files.load_x509_key_pair pem_cert_file pem_private_key_file ≡ ok key)
          × (keys ≡ key ∷ []))
      × (not (is_empty pem_cert_file) && not (is_empty pem_private_key_file) ≡ false → keys ≡ [])

  client_certificates-HasClient :
      (cert key : String) (keys : List K)
      → client_certificates cert key ≡ ok keys
      → HasClient cert key keys
  unfolding client_certificates
  client_certificates-HasClient cert key keys e =
      elim (Bool-cases (not (is_empty cert) && not (is_empty key))) [
        | inl p ↦ (
          λ _.
              let (k, e1, e2) =
                bind-ok
                  (or_fatal "Couldn't setup client authentication."
                    (files.load_x509_key_pair cert key))
                  (λ key. ok (key ∷ [])) (rw p at e) in
              (k, or_fatal-ok _ _ k e1, sym (ok_inj e2)),
          λ q. let c : true ≡ false = sym p ∙ q in cc,
        )
        | inr p ↦ (λ q. let c : false ≡ true = sym p ∙ q in cc, λ _. sym (ok_inj (rw p at e)))
      ]

  -- If the configuration is made, there is none where no file of CAs is named; else its roots are those
  -- of the file, and it has a client's certificate exactly if both files of one are named.
  pub create_tls_config_lem :
      (ca cert key : String) (config : Option (ClientTls K C))
      → create_tls_config ca cert key ≡ ok config
      → (is_empty ca ≡ true → config ≡ none)
        × (is_empty ca ≡ false
            → (c : ClientTls K C) × (pem : String) × (config ≡ some c)
              × (files.read_file ca ≡ ok pem)
              × (c.root_cas ≡ files.certs_of_pem pem)
              × HasClient cert key c.certificates)
  unfolding create_tls_config load_roots
  create_tls_config_lem ca cert key config e = elim (Bool-cases (is_empty ca)) [
    | inl p ↦ (λ _. sym (ok_inj (rw p at e)), λ q. let c : true ≡ false = sym p ∙ q in cc)
    | inr p ↦ (
      λ q. let c : false ≡ true = sym p ∙ q in cc,
      λ _.
          let (roots, e1, e2) =
            bind-ok (or_fatal "Couldn't load root certificate." (load_roots ca))
              (λ roots.
                client_certificates cert key
                >>= (λ keys. ok (some (record { root_cas = roots; certificates = keys }))))
              (rw p at e) in
          let (pem, e3, e4) =
            bind-ok (files.read_file ca) (λ ca_cert. ok (files.certs_of_pem ca_cert))
              (or_fatal-ok _ (load_roots ca) roots e1) in
          let (keys, e5, e6) =
            bind-ok (client_certificates cert key)
              (λ (keys : List K). ok (some (record { root_cas = roots; certificates = keys })))
              e2 in
          (
            record { root_cas = roots; certificates = keys },
            pem,
            sym (ok_inj e6),
            e3,
            sym (ok_inj e4),
            client_certificates-HasClient cert key keys e5,
          ),
    )
  ]
