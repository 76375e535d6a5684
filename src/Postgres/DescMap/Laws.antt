-- ===== src/Postgres/DescMap/Laws.antt =====
-- What makeDescMap builds: a namespace for each namespace, a metric for each column.
use exporter_plus.Prelude.{
  String, ◌≡◌, refl, ◌↔◌, ◌⊎◌, ◌≢◌, inl, inr, Bool, true, false, Option, none, some, List, [], ◌∷◌,
  arith, Bool-cases, str_eq, some_inj, ap, sym, ◌∙◌,
}
use mathlib.Core.Path.{subst}
use mathlib.Core.List.{Memᴰ}
use mathlib.Core.List.Memᴰ
use exporter_plus.Prelude.GoMap.{GoMap, lookup}
use exporter_plus.Prelude.GoMap.Laws.{IsMap, image, lookup-range_map}
use exporter_plus.Prelude.Float.{Float64}
use exporter_plus.Postgres.Types.{
  ColumnUsage, discard, label, ColumnMapping, Desc, MetricMap, MetricMapNamespace,
}
use exporter_plus.Postgres.DescMap.{
  is_label, variable_labels, loop_variable, supported, metric_of_usage, column_metric,
  make_namespace, make_desc_map,
}

-- A table of column mappings is a Go map of Go maps.
abbrev pub IsTable : {V F : Type 0} → GoMap (GoMap (ColumnMapping V F)) → Type 0
IsTable [] = Unit
IsTable ((k, cols) ∷ rest) = (lookup k rest ≡ none) × IsMap cols × IsTable rest

IsTable-cols :
    {V F : Type 0} (ns : String) (tables : GoMap (GoMap (ColumnMapping V F)))
    (cols : GoMap (ColumnMapping V F))
    → IsTable tables
    → lookup ns tables ≡ some cols
    → IsMap cols
unfolding lookup
IsTable-cols ns [] cols h found = cc
IsTable-cols ns ((k, c) ∷ rest) cols (_, h, hs) found = elim (Bool-cases (str_eq k ns)) [
  | inl e ↦ subst IsMap (some_inj (rw e at found)) h
  | inr e ↦ IsTable-cols ns rest cols hs (rw e at found)
]

-- A column counts as a metric if its usage is one of the four metric usages and its range of
-- versions, where it has one, has the server's.
abbrev pub IsExported : {V F : Type 0} → V → ColumnMapping V F → Type 0
IsExported version c =
    (c.usage ≢ discard)
    × (c.usage ≢ label)
    × ((c.supported_versions ≡ none)
        ⊎ ((range : _ → Bool) × (c.supported_versions ≡ some range) × (range version ≡ true)))

supported_iff :
    {V : Type 0} (o : Option (V → Bool)) (version : V)
    → (supported o version ≡ true)
      ↔ ((o ≡ none) ⊎ ((range : V → Bool) × (o ≡ some range) × (range version ≡ true)))
supported_iff none version = (λ _. inl refl, λ _. refl)
supported_iff (some range) version = (
  λ e. inr (range, refl, e),
  λ h. elim h [
    | inl q ↦ cc q
    | inr (other, same, e) ↦ ap (λ (r : _ → Bool). r version) (some_inj same) ∙ e
  ],
)

-- The names of the LABEL columns, and no other.
abbrev pub IsLabels : {V F : Type 0} → List String → GoMap (ColumnMapping V F) → Type 0
IsLabels {V} {F} labels cols =
    (name : String)
    → Memᴰ name labels ↔ ((c : ColumnMapping V F) × Memᴰ (name, c) cols × (c.usage ≡ label))

module _ {V F : Type 0} where
  is_label_iff : (c : ColumnMapping V F) → (is_label c.usage ≡ true) ↔ (c.usage ≡ label)
  is_label_iff c = usage_iff c.usage
    where
      usage_iff : (u : ColumnUsage) → (is_label u ≡ true) ↔ (u ≡ label)
      usage_iff label = (λ _. refl, λ _. refl)
      usage_iff _ = (λ e. cc, λ e. cc)

  variable_labels-IsLabels :
      (cols : GoMap (ColumnMapping V F)) → IsLabels (variable_labels cols) cols
  unfolding variable_labels
  variable_labels-IsLabels [] name =
      (λ m. absurd (Memᴰ.not-nil m), λ (c, m, u). absurd (Memᴰ.not-nil m))
  variable_labels-IsLabels ((key, c) ∷ cols) name =
      let (there, back) = variable_labels-IsLabels cols name in
      elim (Bool-cases (is_label c.usage)) [
        | inl e ↦ rw e (
          λ m. elim (Memᴰ.cases_cons m) [
            | inl same ↦ (c, Memᴰ.head (ap (λ k. (k, c)) same), (is_label_iff c).0 e)
            | inr later ↦ let (d, at, u) = there later in (d, Memᴰ.tail at, u)
          ],
          λ (d, m, u). elim (Memᴰ.cases_cons m) [
            | inl same ↦ Memᴰ.head (ap (λ (p : String × ColumnMapping V F). p.0) same)
            | inr later ↦ Memᴰ.tail (back (d, later, u))
          ],
        )
        | inr e ↦ rw e (
          λ m. let (d, at, u) = there m in (d, Memᴰ.tail at, u),
          λ (d, m, u). elim (Memᴰ.cases_cons m) [
            | inl same ↦
                let usage : c.usage ≡ label =
                  ap (λ (p : String × ColumnMapping V F). p.1.usage) (sym same) ∙ u in
                let c : false ≡ true = sym e ∙ (is_label_iff c).1 usage in cc
            | inr later ↦ back (d, later, u)
          ],
        )
      ]

-- The metric is discarded, or has a descriptor with these labels and these constant labels.
abbrev pub HasLabels : {F : Type 0} → GoMap String → List String → MetricMap F → Type 0
HasLabels server_labels labels m =
    (m.discarded ≡ true)
    ⊎ ((d : Desc) × (m.desc ≡ some d)
        × (d.variable_labels ≡ labels)
        × (d.const_labels ≡ server_labels))

module _ {V F : Type 0} (fl : Float64 F) (version : V) (server_labels : GoMap String) where
  pub lookup-make_namespace :
      (ns name : String) (cols : GoMap (ColumnMapping V F))
      → IsMap cols
      → lookup name (make_namespace fl version server_labels ns cols).column_mappings
        ≡ image
            (column_metric fl version server_labels ns
              (variable_labels cols)
              (loop_variable [] cols)
              name)
            (lookup name cols)
  unfolding make_namespace
  lookup-make_namespace ns name cols h = lookup-range_map _ name cols h

  metric_of_usage-HasLabels :
      (u : ColumnUsage) (ns : String) (labels : List String) (captured : GoMap F)
      (name help : String)
      → HasLabels server_labels labels
          (metric_of_usage fl version server_labels u ns labels captured name help)
  unfolding metric_of_usage
  metric_of_usage-HasLabels discard ns labels captured name help = inl refl
  metric_of_usage-HasLabels label ns labels captured name help = inl refl
  metric_of_usage-HasLabels _ ns labels captured name help = inr (_, refl, refl, refl)

  pub column_metric-HasLabels :
      (ns name : String) (labels : List String) (captured : GoMap F) (c : ColumnMapping V F)
      → HasLabels server_labels labels
          (column_metric fl version server_labels ns labels captured name c)
  unfolding column_metric
  column_metric-HasLabels ns name labels captured c =
      elim (Bool-cases (supported c.supported_versions version)) [
        | inl e ↦ rw e (metric_of_usage-HasLabels c.usage ns labels captured name c.description)
        | inr e ↦ rw e (inl refl)
      ]

  -- A column is discarded exactly if it is not to be exported on this version.
  pub column_metric-discarded_iff :
      (ns name : String) (labels : List String) (captured : GoMap F) (c : ColumnMapping V F)
      → ((column_metric fl version server_labels ns labels captured name c).discarded ≡ false)
        ↔ IsExported version c
  unfolding column_metric
  column_metric-discarded_iff ns name labels captured c =
      let versions = supported_iff c.supported_versions version in ground (arith, versions)

  -- The entries of every namespace are well formed.
  pub make_namespace-HasLabels :
      (ns name : String) (cols : GoMap (ColumnMapping V F)) (m : MetricMap F)
      → IsMap cols
      → lookup name (make_namespace fl version server_labels ns cols).column_mappings ≡ some m
      → HasLabels server_labels (make_namespace fl version server_labels ns cols).labels m
  unfolding make_namespace
  make_namespace-HasLabels ns name cols m h e =
      from_image (lookup name cols) (sym (lookup-make_namespace ns name cols h) ∙ e)
    where
      from_image :
          (o : Option (ColumnMapping V F))
          → image
              (column_metric fl version server_labels ns
                (variable_labels cols)
                (loop_variable [] cols)
                name)
              o
            ≡ some m
          → HasLabels server_labels (variable_labels cols) m
      from_image none q = cc
      from_image (some c) q =
          subst (HasLabels server_labels (variable_labels cols)) (some_inj q)
            (column_metric-HasLabels ns name (variable_labels cols) (loop_variable [] cols) c)

  IsTable-IsMap : (tables : GoMap (GoMap (ColumnMapping V F))) → IsTable tables → IsMap tables
  IsTable-IsMap [] h = h
  IsTable-IsMap ((k, cols) ∷ rest) (fresh, h, hs) = (fresh, IsTable-IsMap rest hs)

  -- makeDescMap has the namespaces of the table, each built from its columns, and no other.
  pub lookup-make_desc_map :
      (ns : String) (tables : GoMap (GoMap (ColumnMapping V F)))
      → IsTable tables
      → lookup ns (make_desc_map fl version server_labels tables)
        ≡ image (make_namespace fl version server_labels ns) (lookup ns tables)
  unfolding make_desc_map
  lookup-make_desc_map ns tables h = lookup-range_map _ ns tables (IsTable-IsMap tables h)

  -- For a table whose keys are distinct and a column of one of its namespaces, makeDescMap has the
  -- namespace, whose labels are the names of its LABEL columns on every version, and binds the column
  -- to a metric that is discarded unless the usage is a metric's and the column's range of versions,
  -- where it has one, has the server's; a metric that is not discarded has a descriptor with just
  -- these labels and the server's constant labels.
  pub make_desc_map_column :
      (ns name : String) (tables : GoMap (GoMap (ColumnMapping V F)))
      (cols : GoMap (ColumnMapping V F)) (c : ColumnMapping V F)
      → IsTable tables
      → lookup ns tables ≡ some cols
      → lookup name cols ≡ some c
      → (n : MetricMapNamespace F) × (m : MetricMap F) × (lookup ns
            (make_desc_map fl version server_labels tables)
          ≡ some n)
        × IsLabels n.labels cols
        × (lookup name n.column_mappings ≡ some m)
        × ((m.discarded ≡ false) ↔ IsExported version c)
        × HasLabels server_labels n.labels m
  make_desc_map_column ns name tables cols c h found bound =
      let k = IsTable-cols ns tables cols h found in
      let labels = variable_labels cols in
      let captured = loop_variable [] cols in
      (
        make_namespace fl version server_labels ns cols,
        column_metric fl version server_labels ns labels captured name c,
        lookup-make_desc_map ns tables h
            ∙ ap (image (make_namespace fl version server_labels ns)) found,
        unfold make_namespace in variable_labels-IsLabels cols,
        lookup-make_namespace ns name cols k
            ∙ ap (image (column_metric fl version server_labels ns labels captured name)) bound,
        column_metric-discarded_iff ns name labels captured c,
        unfold make_namespace in column_metric-HasLabels ns name labels captured c,
      )
