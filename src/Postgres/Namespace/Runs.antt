-- ===== src/Postgres/Namespace/Runs.antt =====
-- The whole query of a namespace: every row accounted for, unless a metric is refused.
use mathlib.Core.Path.{subst}
use mathlib.Core.List.{Memᴰ}
use exporter_plus.Prelude.{
  ℕ, ◌+◌, ◌*◌, ◌<◌, String, ◌≡◌, refl, Option, none, some, Option-cases, Bool-cases, inl, inr, List,
  [], ◌∷◌, arith, length, length-append, All, All-append, if◌then◌else◌,
}
use exporter_plus.Prelude.Text.{append, is_empty}
use exporter_plus.Prelude.GoMap.{GoMap}
use exporter_plus.Prelude.Outcome.{ok, panic, ok_inj}
use exporter_plus.Prelude.Float.{Float64}
use exporter_plus.Postgres.Types.{MetricMapNamespace, refusal}
use exporter_plus.Postgres.Namespace.{
  Row, Rows, Sent, row_metrics, label_values, Problem, NamespaceRun, also, nothing, all_rows,
  answer, query_namespace_mapping,
}
use exporter_plus.Postgres.Namespace.Laws.{
  LabelsFit, kept, IsWellFormed, IsRefused, row_metrics-IsRead,
}

module _ {F : Type 0} (fl : Float64 F) (server_labels : GoMap String) (ns : String)
    (mapping : MetricMapNamespace F) (wf : IsWellFormed fl server_labels ns mapping) where
  -- The package prometheus refuses the descriptor of one of the columns, or the label values of one of
  -- the rows.
  abbrev pub RefusedIn : List String → List (Option (Row F)) → Type 0
  RefusedIn names scans =
      (row : Row F) × (values : List String) × Memᴰ (some row) scans
      × (label_values fl names row mapping.labels ≡ ok values)
      × IsRefused fl server_labels ns mapping names values

  -- Metrics with their labels, and n metrics and errors if the run succeeds. It panics only where a
  -- metric of the answer's rows is refused.
  pub record IsSound (names : List String) (scans : List (Option (Row F))) (n : ℕ)
      (run : NamespaceRun F) : Type 0 where
    pub panics : (e : String) → run.result ≡ panic e → (e ≡ refusal) × RefusedIn names scans
    pub fit : All LabelsFit run.metrics
    pub count : (ps : List Problem) → run.result ≡ ok ps → length run.metrics + length ps ≡ n

  all_rows-IsSound :
      (names : List String) (sent : Sent F) (scans : List (Option (Row F)))
      → 0 < length names
      → All LabelsFit sent.metrics
      → IsSound names scans
          (length sent.metrics
            + length sent.errors
            + length scans * kept mapping.column_mappings names)
          (all_rows fl server_labels ns mapping names sent scans)
  unfolding all_rows
  all_rows-IsSound names sent [] h fit = record {
    panics = λ e p. cc p;
    fit = fit;
    count = λ ps q. rw (← ok_inj q) (omega arith);
  }
  all_rows-IsSound names sent (none ∷ scans) h fit = record {
    panics = λ e p. cc p;
    fit = fit;
    count = λ ps q. cc q;
  }
  all_rows-IsSound names sent (some row ∷ scans) h fit =
      let (values, read, (fits, ends)) =
        row_metrics-IsRead fl server_labels ns mapping names row h wf in
      let s = (row_metrics fl server_labels ns mapping names row).sent in
      let all = All-append LabelsFit sent.metrics s.metrics fit fits in
      elim ends [
        | inl (e, accounts) ↦
            let rest = all_rows-IsSound names (also sent s) scans h all in
            rw (e, all_rows)
              (record {
                panics = λ m p.
                    let (same, (row, values, at, read, refused)) = rest.panics m p in
                    (same, (row, values, Memᴰ.tail at, read, refused));
                fit = rest.fit;
                count = λ ps q. omega (
                  arith,
                  rest.count ps q,
                  length-append sent.metrics s.metrics,
                  length-append sent.errors s.errors,
                  accounts,
                );
              })
        | inr (e, refused) ↦
            rw (e, all_rows)
              (record {
                panics = λ m p. (cc p, (row, values, Memᴰ.head refl, read, refused));
                fit = all;
                count = λ ps q. cc q;
              })
      ]

  IsSound-eq :
      {names : List String} {scans : List (Option (Row F))} {n m : ℕ} {run : NamespaceRun F}
      → n ≡ m
      → IsSound names scans n run
      → IsSound names scans m run
  IsSound-eq {names} {scans} {run} e h = subst (λ k. IsSound names scans k run) e h

  -- How many values are to be accounted for: those of the answer's rows in columns that are not
  -- discarded.
  abbrev pub expected : Option (Rows F) → ℕ
  expected none = 0
  expected (some rows) = elim rows.columns [
    | none ↦ 0
    | some names ↦ length rows.scans * kept mapping.column_mappings names
  ]

  -- the columns of an answer
  abbrev pub columns_of : Option (Rows F) → List String
  columns_of none = []
  columns_of (some rows) = elim rows.columns [ none ↦ [] | some names ↦ names ]

  abbrev pub scans_of : Option (Rows F) → List (Option (Row F))
  scans_of none = []
  scans_of (some rows) = rows.scans

  -- the answer that is read
  abbrev pub answer_of : (String → Option (Rows F)) → Option String → Option (Rows F)
  answer_of query none = query (append "SELECT * FROM " (append ns ";"))
  answer_of query (some override) = query override

  abbrev pub expected_of : (String → Option (Rows F)) → Option String → ℕ
  expected_of query none = expected (query (append "SELECT * FROM " (append ns ";")))
  expected_of query (some override) = if is_empty override then 0 else expected (query override)

  -- An answer with columns has at least one.
  abbrev pub HasColumns : Option (Rows F) → Type 0
  HasColumns answer =
      (rows : Rows F) (names : List String)
      → answer ≡ some rows
      → rows.columns ≡ some names
      → 0 < length names

  answer-IsSound :
      (a : Option (Rows F))
      → HasColumns a
      → IsSound (columns_of a) (scans_of a) (expected a) (answer fl server_labels ns mapping a)
  unfolding answer
  answer-IsSound none h = record { panics = λ e p. cc p; fit = tt; count = λ ps q. cc q }
  answer-IsSound (some rows) h = elim (Option-cases rows.columns) [
    | inl e ↦ rw e (record { panics = λ e p. cc p; fit = tt; count = λ ps q. cc q })
    | inr (names, e) ↦ rw e (
        IsSound-eq (omega arith)
          (all_rows-IsSound names nothing rows.scans (h rows names refl e) tt))
  ]

  -- If every answer with columns has at least one, and the namespace's mapping is well formed, then
  -- the query of the namespace panics only where the package prometheus refuses the descriptor of one
  -- of the answer's columns, or the label values of one of its rows; every metric that it sends has as many label values as
  -- labels, and a run without a fatal error has sent or noted one value for each row and each column
  -- that is not discarded; a namespace that is disabled by an empty override sends nothing.
  pub query_namespace_mapping-IsSound :
      (query : String → Option (Rows F)) (override : Option String)
      → ((q : String) → HasColumns (query q))
      → IsSound
          (columns_of (answer_of query override))
          (scans_of (answer_of query override))
          (expected_of query override)
          (query_namespace_mapping fl server_labels ns mapping query override)
  unfolding query_namespace_mapping
  query_namespace_mapping-IsSound query none h = answer-IsSound (query _) (h _)
  query_namespace_mapping-IsSound query (some override) h = elim (Bool-cases (is_empty override)) [
    | inl e ↦ rw e (record { panics = λ e p. cc p; fit = tt; count = λ ps q. rw (← ok_inj q) })
    | inr e ↦ rw e (answer-IsSound (query override) (h override))
  ]
