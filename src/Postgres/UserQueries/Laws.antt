-- ===== src/Postgres/UserQueries/Laws.antt =====
-- A file of user queries leaves the namespaces alone that it does not name.
use mathlib.Core.Path.{subst}
use exporter_plus.Prelude.{
  String, ◌≡◌, ◌≢◌, refl, ◌∙◌, ap, sym, Bool-cases, inl, inr, none, [], ◌∷◌, str_eq, str_eq_iff,
  str_eq_of_ne,
}
use exporter_plus.Prelude.GoMap.{GoMap, lookup, insert, range_insert}
use exporter_plus.Prelude.GoMap.Laws.{lookup-insert}
use exporter_plus.Prelude.Outcome.{Outcome, ok, bind-ok, ok_inj}
use exporter_plus.Prelude.Float.{Float64}
use exporter_plus.Postgres.Types.{ColumnMapping}
use exporter_plus.Postgres.DescMap.{make_desc_map, make_namespace}
use exporter_plus.Postgres.UserQueries.{
  Yaml, Items, nil, cons, Entries, end, entry, as_string, as_sequence, as_mapping, Loaded,
  zero_mapping, attributes, or_empty, columns, metrics, one_spec, specs, load, Maps, add_queries,
}

lookup-range_insert_absent :
    {V W : Type 0} (f : String → V → W) (j : String) (m : GoMap V) (n : GoMap W)
    → lookup j m ≡ none
    → lookup j (range_insert f m n) ≡ lookup j n
unfolding lookup range_insert
lookup-range_insert_absent f j [] n h = refl
lookup-range_insert_absent f j ((k, v) ∷ m) n h = elim (Bool-cases (str_eq k j)) [
  | inl e ↦ cc (rw e at h)
  | inr e ↦
      lookup-range_insert_absent f j m (insert k (f k v) n) (rw e at h)
      ∙ lookup-insert k j (f k v) n
      ∙ rw e
]

lookup-insert_other :
    {W : Type 0} (ns metric : String) (v : W) (m : GoMap W)
    → metric ≢ ns
    → lookup ns (insert metric v m) ≡ lookup ns m
lookup-insert_other ns metric v m other =
    lookup-insert metric ns v m ∙ rw (str_eq_of_ne metric ns other)

module _ {V F : Type 0} (ns : String) where
  -- Both maps have for the namespace what they had.
  abbrev Keeps : Loaded V F → Loaded V F → Type 0
  Keeps a b =
      (lookup ns b.metric_maps ≡ lookup ns a.metric_maps)
      × (lookup ns b.overrides ≡ lookup ns a.overrides)

  module _ (metric : String) (other : metric ≢ ns) where
    lookup-columns :
        (entries : Entries) (maps maps' : GoMap (GoMap (ColumnMapping V F)))
        → columns metric entries maps ≡ ok maps'
        → lookup ns maps' ≡ lookup ns maps
    unfolding columns
    lookup-columns end maps maps' h = ap (lookup ns) (sym (ok_inj h))
    lookup-columns (entry n a rest) maps maps' h =
        let (name, _, h1) = bind-ok (as_string n) _ h in
        let (attrs, _, h2) = bind-ok (as_mapping a) _ h1 in
        let (c, _, h3) = bind-ok (attributes {V = V} {F = F} attrs zero_mapping) _ h2 in
        let inserted = insert name c (or_empty (lookup metric maps)) in
        lookup-columns rest (insert metric inserted maps) maps' h3
        ∙ lookup-insert_other ns metric inserted maps other

    lookup-metrics :
        (items : Items) (maps maps' : GoMap (GoMap (ColumnMapping V F)))
        → metrics metric items maps ≡ ok maps'
        → lookup ns maps' ≡ lookup ns maps
    unfolding metrics
    lookup-metrics nil maps maps' h = ap (lookup ns) (sym (ok_inj h))
    lookup-metrics (cons item rest) maps maps' h =
        let (column, _, h1) = bind-ok (as_mapping item) _ h in
        let (maps1, e, h2) = bind-ok (columns metric column maps) _ h1 in
        lookup-metrics rest maps1 maps' h2 ∙ lookup-columns column maps maps1 e

    one_spec-Keeps :
        (key : String) (value : Yaml) (l l' : Loaded V F)
        → one_spec metric key value l ≡ ok l'
        → Keeps l l'
    unfolding one_spec
    one_spec-Keeps key value l l' h = elim (Bool-cases (str_eq key "query")) [
      | inl q ↦
          let (query, _, e) = bind-ok (as_string value) _ (rw q at h) in
          subst (Keeps l) (ok_inj e) (refl, lookup-insert_other ns metric query l.overrides other)
      | inr q ↦ elim (Bool-cases (str_eq key "metrics")) [
        | inl m ↦
            let (items, _, h1) = bind-ok (as_sequence value) _ (rw (q, m) at h) in
            let (maps, e, h2) = bind-ok (metrics metric items l.metric_maps) _ h1 in
            subst (Keeps l) (ok_inj h2) (lookup-metrics items l.metric_maps maps e, refl)
        | inr m ↦ subst (Keeps l) (ok_inj (rw (q, m) at h)) (refl, refl)
      ]
    ]

    specs-Keeps :
        (entries : Entries) (l l' : Loaded V F) → specs metric entries l ≡ ok l' → Keeps l l'
    unfolding specs
    specs-Keeps end l l' h = subst (Keeps l) (ok_inj h) (refl, refl)
    specs-Keeps (entry k value rest) l l' h =
        let (key, _, h1) = bind-ok (as_string k) _ h in
        let (l1, e, h2) = bind-ok (one_spec metric key value l) _ h1 in
        let (maps, overrides) = one_spec-Keeps key value l l1 e in
        let (maps', overrides') = specs-Keeps rest l1 l' h2 in
        (maps' ∙ maps, overrides' ∙ overrides)

  load-Keeps :
      (extra : GoMap Yaml) (l l' : Loaded V F)
      → lookup ns extra ≡ none
      → load extra l ≡ ok l'
      → Keeps l l'
  unfolding load lookup
  load-Keeps [] l l' absent h = subst (Keeps l) (ok_inj h) (refl, refl)
  load-Keeps ((metric, value) ∷ rest) l l' absent h = elim (Bool-cases (str_eq metric ns)) [
    | inl e ↦ cc (rw e at absent)
    | inr e ↦
        let other : metric ≢ ns = λ q. cc ((str_eq_iff metric ns).1 q, e) in
        let (entries, _, h1) = bind-ok (as_mapping value) _ h in
        let (l1, s, h2) = bind-ok (specs metric entries l) _ h1 in
        let (maps, overrides) = specs-Keeps metric other entries l l1 s in
        let (maps', overrides') = load-Keeps rest l1 l' (rw e at absent) h2 in
        (maps' ∙ maps, overrides' ∙ overrides)
  ]

module _ {V F : Type 0} (fl : Float64 F) (unmarshal : String → Outcome (GoMap Yaml)) (version : V)
    (server_labels : GoMap String) where
  -- If addQueries succeeds on a file, then every namespace that the file does not name keeps its
  -- metrics and its query.
  pub add_queries_lem :
      (content ns : String) (extra : GoMap Yaml) (maps maps' : Maps F)
      → unmarshal content ≡ ok extra
      → lookup ns extra ≡ none
      → add_queries fl unmarshal version server_labels content maps ≡ ok maps'
      → (lookup ns maps'.metric_map ≡ lookup ns maps.metric_map)
        × (lookup ns maps'.query_overrides ≡ lookup ns maps.query_overrides)
  unfolding add_queries
  add_queries_lem content ns extra maps maps' read absent h =
      let start : Loaded V F = record { metric_maps = []; overrides = [] } in
      let (l, e, q) = bind-ok (load extra start) _ (rw read at h) in
      let (tables, overrides) = load-Keeps ns extra start l absent e in
      let descs = make_desc_map fl version server_labels l.metric_maps in
      let no_desc : lookup ns descs ≡ none =
        unfold make_desc_map lookup in
        lookup-range_insert_absent (make_namespace fl version server_labels) ns l.metric_maps []
          tables in
      subst
        (λ (m : Maps F).
          (lookup ns m.metric_map ≡ lookup ns maps.metric_map)
          × (lookup ns m.query_overrides ≡ lookup ns maps.query_overrides))
        (ok_inj q)
        (
          lookup-range_insert_absent (λ k v. v) ns descs maps.metric_map no_desc,
          lookup-range_insert_absent (λ k v. v) ns l.overrides maps.query_overrides
              (unfold lookup in overrides),
        )
