-- ===== src/Postgres/Namespace/Laws.antt =====
-- Reading the rows of a namespace: every column accounted for, unless a metric is refused.
use mathlib.Core.List.{Memᴰ}
use exporter_plus.Prelude.{
  ℕ, suc, ◌+◌, ◌<◌, String, ◌≡◌, ◌⊎◌, refl, inl, inr, ◌==◌, Bool, true, false, Option, none, some,
  List, [], ◌∷◌, arith, ltb, length, All, Bool-cases, if◌then◌else◌, ap, sym, ◌∙◌,
}
use exporter_plus.Prelude.GoMap.{GoMap, lookup, insert}
use exporter_plus.Prelude.GoMap.Laws.{lookup-insert}
use exporter_plus.Prelude.Outcome.{Outcome, ok, panic}
use exporter_plus.Prelude.Float.{Float64}
use exporter_plus.Postgres.Types.{
  DbValue, ValueType, untyped_value, Desc, Metric, MetricMap, MetricMapNamespace, refusal,
  must_new_const_metric,
}
use exporter_plus.Postgres.Convert.{db_to_float64, db_to_string}
use exporter_plus.Postgres.DescMap.Laws.{HasLabels}
use exporter_plus.Postgres.Namespace.{
  Row, Sent, RowRun, column_indices, or_zero, column_index, column_value, label_values,
  known_column, unknown_column, send, unknown_desc, parsing_column, unparseable_column, one_column,
  row_columns, row_metrics,
}

-- Every index that the map holds is below n.
abbrev Below : ℕ → GoMap ℕ → Type 0
Below n idx = (name : String) (i : ℕ) → lookup name idx ≡ some i → i < n

column_indices-Below :
    (names : List String) (i : ℕ) (idx : GoMap ℕ)
    → Below i idx
    → Below (i + length names) (column_indices names i idx)
unfolding column_indices
column_indices-Below [] i idx h name k e = omega (arith, h name k e)
column_indices-Below (n ∷ names) i idx h name k e =
    let step : Below (suc i) (insert n i idx) =
      λ m j f. ground (arith, lookup-insert n m i idx, h m j) in
    omega (arith, column_indices-Below names (suc i) (insert n i idx) step name k e)

-- The index of a label is one of a column, unless there are none.
pub column_index-lt :
    (names : List String) (name : String)
    → 0 < length names
    → column_index names name < length names
unfolding column_index lookup
column_index-lt names name h = go (lookup name (column_indices names 0 [])) refl
  where
    go : (o : Option ℕ) → lookup name (column_indices names 0 []) ≡ o → or_zero o < length names
    go none e = h
    go (some k) e = omega (arith, column_indices-Below names 0 [] (λ m j f. cc f) name k e)

module _ {F : Type 0} (fl : Float64 F) where
  -- A row of at least one column has a value for every label.
  pub label_values-length :
      (names : List String) (row : Row F) (labels : List String)
      → 0 < length names
      → (values : List String) × (label_values fl names row labels ≡ ok values)
        × (length values ≡ length labels)
  unfolding label_values column_value
  label_values-length names row [] h = ([], refl, refl)
  label_values-length names row (label ∷ labels) h =
      let (values, e, same) = label_values-length names row labels h in
      let inside : ltb (column_index names label) (length names) ≡ true =
        ground (arith, column_index-lt names label h) in
      ((db_to_string fl (row (column_index names label))).0 ∷ values, rw (inside, e), ap suc same)

-- The metric has a value for each label of its descriptor.
abbrev pub LabelsFit : {F : Type 0} → Metric F → Type 0
LabelsFit m = length m.label_values ≡ length m.desc.variable_labels

-- Does the loop pass over the column?
abbrev pub passed_over : {F : Type 0} → Option (MetricMap F) → Bool
passed_over none = false
passed_over (some m) = m.discarded

-- How many of the columns are not passed over.
unfoldable pub kept : {F : Type 0} → GoMap (MetricMap F) → List String → ℕ
kept mappings [] = 0
kept mappings (name ∷ names) =
    if passed_over (lookup name mappings) then kept mappings names else suc (kept mappings names)

-- What was sent has so many metrics and errors together, and its metrics have their labels.
abbrev pub Accounts : {F : Type 0} → ℕ → Sent F → Type 0
Accounts n s = (length s.metrics + length s.errors ≡ n) × All LabelsFit s.metrics

module _ {F : Type 0} (fl : Float64 F) (server_labels : GoMap String) (ns : String)
    (mapping : MetricMapNamespace F) where
  -- Every metric of the namespace is discarded or has the namespace's labels.
  abbrev pub IsWellFormed : Type 0
  IsWellFormed =
      (name : String) (m : MetricMap F)
      → lookup name mapping.column_mappings ≡ some m
      → HasLabels server_labels mapping.labels m

  -- the descriptor that a column is sent with
  abbrev pub HasDesc : Option (MetricMap F) → String → Desc → Type 0
  HasDesc none name d = d ≡ unknown_desc fl ns name mapping.labels server_labels
  HasDesc (some m) name d = (m.discarded ≡ false) × (m.desc ≡ some d)

  -- The package prometheus refuses the descriptor of one of these columns, or these label values.
  abbrev pub IsRefused : List String → List String → Type 0
  IsRefused names values =
      (name : String) × (d : Desc) × Memᴰ name names
      × HasDesc (lookup name mapping.column_mappings) name d
      × (fl.accepts d values ≡ false)

  -- A row has sent metrics with their labels, and so many metrics and errors together, unless a metric
  -- was refused, in which case it panics.
  abbrev pub IsRead : List String → List String → RowRun F → Type 0
  IsRead names values run =
      All LabelsFit run.sent.metrics
      × (((run.ending ≡ ok tt)
            × (length run.sent.metrics + length run.sent.errors
                ≡ kept mapping.column_mappings names))
          ⊎ ((run.ending ≡ panic refusal) × IsRefused names values))

  module _ (labels : List String) (fits : length labels ≡ length mapping.labels) where
    -- a column that is sent with one of these descriptors
    abbrev Done : (Desc → Type 0) → ℕ → Outcome (Sent F) → Type 0
    Done P n o =
        ((s : Sent F) × (o ≡ ok s) × Accounts n s)
        ⊎ ((o ≡ panic refusal) × (d : Desc) × P d × (fl.accepts d labels ≡ false))

    send-Done :
        (d : Desc) (vtype : ValueType) (value : F) (rest : Sent F) (n : ℕ)
        → d.variable_labels ≡ mapping.labels
        → Accounts n rest
        → Done (λ c. c ≡ d) (suc n) (send fl d vtype value labels rest)
    unfolding send must_new_const_metric
    send-Done d vtype value rest n same (count, all) =
        let e : length labels ≡ length d.variable_labels = fits ∙ ap length (sym same) in
        let counted : (length labels == length d.variable_labels) ≡ true = ground arith in
        elim (Bool-cases (fl.accepts d labels)) [
          | inl good ↦ inl (
            record rest {
              metrics =
                  record { desc = d; vtype = vtype; value = value; label_values = labels }
                  ∷ rest.metrics;
            },
            rw (counted, good),
            (omega (arith, count), (e, all)),
          )
          | inr bad ↦ inr (rw (counted, bad), d, refl, bad)
        ]

    known_column-Done :
        (name : String) (m : MetricMap F) (v : DbValue F) (rest : Sent F) (n : ℕ)
        → HasLabels server_labels mapping.labels m
        → Accounts n rest
        → Done
            (HasDesc (some m) name)
            (if m.discarded then n else suc n)
            (known_column fl ns name m labels v rest)
    unfolding known_column
    known_column-Done name m v rest n has h = elim (Bool-cases m.discarded) [
      | inl gone ↦ inl (rest, rw gone, rw gone h)
      | inr stays ↦ elim has [
        | inl gone ↦ cc
        | inr (d, is, same, _) ↦ elim (Bool-cases (db_to_float64 fl v).1) [
          | inl good ↦ elim (send-Done d m.vtype (db_to_float64 fl v).0 rest n same h) [
            | inl (s, q, a) ↦ inl (s, rw (stays, good, is) q, rw stays a)
            | inr (q, c, eq, bad) ↦
                inr (rw (stays, good, is) q, c, (stays, is ∙ ap some (sym eq)), bad)
          ]
          | inr bad ↦ inl (
            record rest { errors = parsing_column ns name ∷ rest.errors },
            rw (stays, bad),
            rw stays (omega (arith, h.0), h.1),
          )
        ]
      ]
    ]

    unknown_column-Done :
        (name : String) (v : DbValue F) (rest : Sent F) (n : ℕ)
        → Accounts n rest
        → Done
            (HasDesc none name)
            (suc n)
            (unknown_column fl ns name mapping.labels server_labels labels v rest)
    unfolding unknown_column
    unknown_column-Done name v rest n h = elim (Bool-cases (db_to_float64 fl v).1) [
      | inl good ↦ rw good (
          send-Done (unknown_desc fl ns name mapping.labels server_labels) untyped_value
            (db_to_float64 fl v).0 rest n refl h)
      | inr bad ↦ rw bad (
          inl (
            record rest { errors = unparseable_column ns name ∷ rest.errors },
            refl,
            (omega (arith, h.0), h.1),
          ))
    ]

    one_column-Done :
        (o : Option (MetricMap F)) (name : String) (v : DbValue F) (rest : Sent F) (n : ℕ)
        → ((m : MetricMap F) → o ≡ some m → HasLabels server_labels mapping.labels m)
        → Accounts n rest
        → Done
            (HasDesc o name)
            (if passed_over o then n else suc n)
            (one_column fl server_labels ns mapping o name labels v rest)
    unfolding one_column
    one_column-Done none name v rest n wf h = unknown_column-Done name v rest n h
    one_column-Done (some m) name v rest n wf h = known_column-Done name m v rest n (wf m refl) h

    row_columns-IsRead :
        (names : List String) (i : ℕ) (row : Row F)
        → IsWellFormed
        → IsRead names labels (row_columns fl server_labels ns mapping names i labels row)
    unfolding row_columns kept
    row_columns-IsRead [] i row wf = (tt, inl (refl, refl))
    row_columns-IsRead (name ∷ names) i row wf =
        let rest = row_columns fl server_labels ns mapping names (suc i) labels row in
        let (fit, ends) = row_columns-IsRead names (suc i) row wf in
        elim (one_column-Done (lookup name mapping.column_mappings) name (row i) rest.sent
          (length rest.sent.metrics + length rest.sent.errors) (wf name) (refl, fit)) [
            | inl (s, q, (count, all)) ↦ rw q (
              all,
              elim ends [
                | inl (e, c) ↦ inl (e, rw (← c) count)
                | inr (p, (other, d, at, has, bad)) ↦ inr (p, (other, d, Memᴰ.tail at, has, bad))
              ],
            )
            | inr (q, d, has, bad) ↦ rw q (tt, inr (refl, (name, d, Memᴰ.head refl, has, bad)))
          ]

  -- A row of a query with at least one column, read by a mapping as makeDescMap makes it, has its label
  -- values, and every metric that it sends has as many label values as its descriptor has labels. It
  -- sends a metric or notes an error for every column that is not discarded, or else it panics since the
  -- package prometheus refuses the descriptor of one of these columns, or the label values.
  pub row_metrics-IsRead :
      (names : List String) (row : Row F)
      → 0 < length names
      → IsWellFormed
      → (values : List String) × (label_values fl names row mapping.labels ≡ ok values)
        × IsRead names values (row_metrics fl server_labels ns mapping names row)
  unfolding row_metrics
  row_metrics-IsRead names row h wf =
      let (values, read, fits) = label_values-length fl names row mapping.labels h in
      (values, read, rw read (row_columns-IsRead values fits names 0 row wf))
