-- ===== src/Handlers/Mysqld/Laws.antt =====
-- Which scrapers a request runs, and what is read from a my.cnf.
use mathlib.Core.Path.{subst}
use mathlib.Core.List.{Memᴰ}
use exporter_plus.Prelude.{
  String, ◌≡◌, ◌≢◌, ◌↔◌, ◌⊎◌, refl, ◌∙◌, ap, sym, Bool, true, false, not, ◌&&◌, ◌||◌, Bool-cases,
  inl, inr, Option, none, some, List, [], ◌∷◌, arith, str_eq, str_eq_iff, if◌then◌else◌,
}
use exporter_plus.Prelude.Text.{append, is_empty}
use exporter_plus.Prelude.Text.Laws.{is_empty_iff, is_empty_ne}
use exporter_plus.Prelude.GoMap.{GoMap, lookup, insert}
use exporter_plus.Prelude.GoMap.Laws.{lookup-insert}
use exporter_plus.Prelude.Outcome.{ok, err, bind-ok, ok_inj}
use exporter_plus.Handlers.Mysqld.{
  Packages, CustomTls, or_error, certificate_pairs, customize_tls, plain_dsn, mycnf_dsn,
  parse_mycnf, filters_of, or_false, filter_scrapers, filtered_scrapers,
}

lookup-insert_flag :
    (param k : String) (filters : GoMap Bool)
    → (or_false (lookup k (insert param true filters)) ≡ true)
      ↔ ((or_false (lookup k filters) ≡ true) ⊎ (k ≡ param))
lookup-insert_flag param k filters =
    rw (lookup-insert param k true filters) (cases (Bool-cases (str_eq param k)))
  where
    cases :
        ((str_eq param k ≡ true) ⊎ (str_eq param k ≡ false))
        → (or_false (if str_eq param k then some true else lookup k filters) ≡ true)
          ↔ ((or_false (lookup k filters) ≡ true) ⊎ (k ≡ param))
    cases (inl e) = rw e (λ _. inr (sym ((str_eq_iff param k).0 e)), λ _. refl)
    cases (inr e) = rw e (
      λ h. inl h,
      λ o. elim o [ inl h ↦ h | inr q ↦ absurd (cc ((str_eq_iff param k).1 (sym q), e)) ],
    )

-- A key is set in the filters if it was, or if it is one of the parameters.
lookup-filters_of :
    (params : List String) (filters : GoMap Bool) (k : String)
    → (or_false (lookup k (filters_of params filters)) ≡ true)
      ↔ ((or_false (lookup k filters) ≡ true) ⊎ Memᴰ k params)
unfolding filters_of
lookup-filters_of [] filters k = (λ h. inl h, λ o. elim o [ inl h ↦ h | inr m ↦ elim m [ ] ])
lookup-filters_of (param ∷ params) filters k =
    let (to, from) = lookup-filters_of params (insert param true filters) k in
    let (set, unset) = lookup-insert_flag param k filters in
    (
      λ h. elim (to h) [
        | inl a ↦ elim (set a) [ inl b ↦ inl b | inr e ↦ inr (Memᴰ.head e) ]
        | inr m ↦ inr (Memᴰ.tail m)
      ],
      λ o. elim o [
        | inl b ↦ from (inl (unset (inl b)))
        | inr (Memᴰ.head e) ↦ from (inl (unset (inr e)))
        | inr (Memᴰ.tail m) ↦ from (inr m)
      ],
    )

module _ {S : Type 0} (name : S → String) where
  Mem-filter_scrapers :
      (filters : GoMap Bool) (s : S) (scrapers : List S)
      → Memᴰ s (filter_scrapers name filters scrapers)
        ↔ (Memᴰ s scrapers × (or_false (lookup (name s) filters) ≡ true))
  unfolding filter_scrapers
  Mem-filter_scrapers filters s [] = (λ m. elim m [ ], λ (m, h). elim m [ ])
  Mem-filter_scrapers filters s (t ∷ scrapers) =
      let (to, from) = Mem-filter_scrapers filters s scrapers in
      elim (Bool-cases (or_false (lookup (name t) filters))) [
        | inl e ↦ rw e (
          λ m. elim m [
            | Memᴰ.head q ↦ (Memᴰ.head q, ap (λ u. or_false (lookup (name u) filters)) q ∙ e)
            | Memᴰ.tail m' ↦ (Memᴰ.tail (to m').0, (to m').1)
          ],
          λ (m, h). elim m [ Memᴰ.head q ↦ Memᴰ.head q | Memᴰ.tail m' ↦ Memᴰ.tail (from (m', h)) ],
        )
        | inr e ↦ rw e (
          λ m. (Memᴰ.tail (to m).0, (to m).1),
          λ (m, h). elim m [
            | Memᴰ.head q ↦
                absurd (cc (sym (ap (λ u. or_false (lookup (name u) filters)) q ∙ e) ∙ h))
            | Memᴰ.tail m' ↦ from (m', h)
          ],
        )
      ]

  -- A request runs a scraper exactly if it is enabled and, where the request has collect[]
  -- parameters, its name is one of them.
  pub Mem-filtered_scrapers :
      (params : List String) (scrapers : List S) (s : S)
      → Memᴰ s (filtered_scrapers name params scrapers)
        ↔ (Memᴰ s scrapers × ((params ≡ []) ⊎ Memᴰ (name s) params))
  unfolding filtered_scrapers lookup
  Mem-filtered_scrapers [] scrapers s = (λ m. (m, inl refl), λ (m, _). m)
  Mem-filtered_scrapers (param ∷ params) scrapers s =
      let filters = filters_of (param ∷ params) [] in
      let (to, from) = Mem-filter_scrapers filters s scrapers in
      let (named, set) = lookup-filters_of (param ∷ params) [] (name s) in
      (
        λ m. ((to m).0, elim (named (to m).1) [ inl h ↦ cc h | inr k ↦ inr k ]),
        λ (m, o). from (m, elim o [ inl e ↦ cc e | inr k ↦ set (inr k) ]),
      )

module _ {P : Type 0} (packages : Packages P) where
  -- A certificate was registered exactly if certificate and key are given.
  abbrev pub IsRegistered : (String → String) → String → Option (CustomTls P) → Type 0
  IsRegistered key dsn none = (key "ssl-ca" ≡ "") × (dsn ≡ plain_dsn packages key)
  IsRegistered key dsn (some tls) =
      (key "ssl-ca" ≢ "")
      × (dsn ≡ append (plain_dsn packages key) "?tls=custom")
      × (packages.is_pem tls.root_ca ≡ true)
      × ((tls.certificates ≢ []) ↔ ((key "ssl-cert" ≢ "") × (key "ssl-key" ≢ "")))

  certificate_pairs_lem :
      (cert key : String) (pairs : List P)
      → certificate_pairs packages cert key ≡ ok pairs
      → (pairs ≢ []) ↔ ((cert ≢ "") × (key ≢ ""))
  unfolding certificate_pairs
  certificate_pairs_lem cert key pairs h =
      elim (Bool-cases (not (is_empty cert) && not (is_empty key))) [
        | inl e ↦
            let (pair, _, q) =
              bind-ok
                (or_error packages "failed to parse pem-encoded SSL cert"
                  (packages.load_key_pair cert key))
                _ (rw e at h) in
            (λ _. ground (arith, is_empty_iff cert, is_empty_iff key), λ _ n. cc (ok_inj q, n))
        | inr e ↦
            let none_made = ok_inj (rw e at h) in
            (
              λ ne. absurd (ne (sym none_made)),
              λ (c, k). absurd (ground (arith, is_empty_ne cert c, is_empty_ne key k)),
            )
      ]

  pem_root :
      (pem root : String)
      → (if packages.is_pem pem then ok pem else err "failed parse pem-encoded CA certificates")
        ≡ ok root
      → packages.is_pem root ≡ true
  pem_root pem root h = elim (Bool-cases (packages.is_pem pem)) [
    | inl e ↦ ap packages.is_pem (sym (ok_inj (rw e at h))) ∙ e
    | inr e ↦ cc (rw e at h)
  ]

  customize_tls_lem :
      (ca cert key : String) (tls : CustomTls P)
      → customize_tls packages ca cert key ≡ ok tls
      → (packages.is_pem tls.root_ca ≡ true)
        × ((tls.certificates ≢ []) ↔ ((cert ≢ "") × (key ≢ "")))
  unfolding customize_tls
  customize_tls_lem ca cert key tls h =
      let (pem, _, h1) =
        bind-ok (or_error packages "cannot read the file" (packages.read_file ca)) _ h in
      let (root, r, h2) =
        bind-ok
          (if packages.is_pem pem then ok pem else err "failed parse pem-encoded CA certificates") _
          h1 in
      let (pairs, p, q) = bind-ok (certificate_pairs packages cert key) _ h2 in
      subst
        (λ (t : CustomTls P).
          (packages.is_pem t.root_ca ≡ true) × ((t.certificates ≢ []) ↔ ((cert ≢ "") × (key ≢ ""))))
        (ok_inj q) (pem_root pem root r, certificate_pairs_lem cert key pairs p)

  registered :
      (key : String → String) (dsn : String) (tls : Option (CustomTls P))
      → mycnf_dsn packages key ≡ ok (dsn, tls)
      → (key "user" ≢ "") × (key "password" ≢ "") × IsRegistered key dsn tls
  unfolding mycnf_dsn
  registered key dsn tls h =
      elim (Bool-cases (is_empty (key "user") || is_empty (key "password"))) [
        | inl e ↦ cc (rw e at h)
        | inr e ↦ (
          λ q. ground (arith, (is_empty_iff (key "user")).1 q),
          λ q. ground (arith, (is_empty_iff (key "password")).1 q),
          elim (Bool-cases (is_empty (key "ssl-ca"))) [
            | inl none_given ↦
                subst (λ (r : String × Option (CustomTls P)). IsRegistered key r.0 r.1)
                  (ok_inj (rw (e, none_given) at h))
                  ((is_empty_iff (key "ssl-ca")).0 none_given, refl)
            | inr given ↦
                let (t, made, q) =
                  bind-ok (customize_tls packages (key "ssl-ca") (key "ssl-cert") (key "ssl-key")) _
                    (rw (e, given) at h) in
                let (pem, pair) =
                  customize_tls_lem (key "ssl-ca") (key "ssl-cert") (key "ssl-key") t made in
                subst (λ (r : String × Option (CustomTls P)). IsRegistered key r.0 r.1) (ok_inj q)
                  (λ n. ground (arith, (is_empty_iff (key "ssl-ca")).1 n), refl, pem, pair)
          ],
        )
      ]

  -- If ParseMycnf reads a data source from a client section, the user and the password are not
  -- empty. Without ssl-ca the data source is the plain one and no TLS configuration is registered;
  -- with it, the data source asks for the one that is registered, whose CA is PEM-encoded and which
  -- has a certificate exactly if both ssl-cert and ssl-key are given.
  pub parse_mycnf_lem :
      (key : String → String) (dsn : String) (tls : Option (CustomTls P))
      → packages.client_section ≡ some key
      → parse_mycnf packages ≡ ok (dsn, tls)
      → (key "user" ≢ "") × (key "password" ≢ "") × IsRegistered key dsn tls
  unfolding parse_mycnf
  parse_mycnf_lem key dsn tls section h = registered key dsn tls (rw section at h)
