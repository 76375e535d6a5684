-- ===== src/Postgres/Namespace.antt =====
-- queryNamespaceMapping and queryNamespaceMappings of collector/postgres/collector.go: from the rows
-- of a query to metrics.
pub mod Laws
pub mod Runs
pub mod Missing
use exporter_plus.Prelude.{
  ℕ, suc, String, Bool, true, false, Option, none, some, List, [], ◌∷◌, ◌++◌, ltb, ◌==◌, length,
  str_eq, if◌then◌else◌,
}
use exporter_plus.Prelude.Text.{append, join_words, is_empty}
use exporter_plus.Prelude.GoMap.{GoMap, lookup, insert}
use exporter_plus.Prelude.Outcome.{Outcome, ok, err, panic, ◌>>=◌}
use exporter_plus.Prelude.Float.{Float64}
use exporter_plus.Postgres.Types.{
  DbValue, Desc, Metric, MetricMap, MetricMapNamespace, ValueType, untyped_value,
  must_new_const_metric,
}
use exporter_plus.Postgres.Convert.{db_to_float64, db_to_string}

-- A row that was scanned: the value of each column, by its index.
abbrev pub Row : Type 0 → Type 0
Row F = ℕ → DbValue F

-- The answer to a query: the column names (or the error of rows.Columns), then for each rows.Next
-- the row, or the error of rows.Scan.
pub record Rows (F : Type 0) : Type 0 where
  pub columns : Option (List String)
  pub scans : List (Option (Row F))

-- A column whose value is no number: the two kinds of non-fatal errors.
pub data Problem : Type 0 where
  parsing_column : String → String → Problem
  unparseable_column : String → String → Problem

-- What has gone out while rows were read: the metrics sent, and the errors that were collected.
pub record Sent (F : Type 0) : Type 0 where
  pub metrics : List (Metric F)
  pub errors : List Problem

abbrev pub nothing : {F : Type 0} → Sent F
nothing = record { metrics = []; errors = [] }

abbrev pub also : {F : Type 0} → Sent F → Sent F → Sent F
also a b = record { metrics = a.metrics ++ b.metrics; errors = a.errors ++ b.errors }

-- What a row leaves: what went out, a panic or not.
pub record RowRun (F : Type 0) : Type 0 where
  pub sent : Sent F
  pub ending : Outcome (Unit {0})

-- How the query of a namespace ends: with the non-fatal errors, with a fatal one, or in a panic.
pub record NamespaceRun (F : Type 0) : Type 0 where
  pub metrics : List (Metric F)
  pub result : Outcome (List Problem)

-- the lookup map of the column indices: a later column of the same name wins
column_indices : List String → ℕ → GoMap ℕ → GoMap ℕ
column_indices [] i idx = idx
column_indices (n ∷ names) i idx = column_indices names (suc i) (insert n i idx)

abbrev or_zero : Option ℕ → ℕ
or_zero none = 0
or_zero (some i) = i

-- columnIdx[label]: 0 where there is no such column
unfoldable pub column_index : List String → String → ℕ
unfolding column_indices
column_index names name = or_zero (lookup name (column_indices names 0 []))

module _ {F : Type 0} (fl : Float64 F) where
  -- columnData[i]
  unfoldable pub column_value : List String → Row F → ℕ → Outcome (DbValue F)
  column_value names row i = if ltb i (length names) then ok (row i) else panic "index out of range"

  -- the label values of a row
  unfoldable pub label_values : List String → Row F → List String → Outcome (List String)
  unfolding column_value column_index
  label_values names row [] = ok []
  label_values names row (label ∷ labels) = do
    value ← column_value names row (column_index names label)
    rest ← label_values names row labels
    ok ((db_to_string fl value).0 ∷ rest)

  abbrev unwrap_desc : Option Desc → Outcome Desc
  unwrap_desc none = panic "nil pointer dereference"
  unwrap_desc (some d) = ok d

  -- the metric, which may panic, and the send
  unfoldable pub send : Desc → ValueType → F → List String → Sent F → Outcome (Sent F)
  unfolding must_new_const_metric
  send desc vtype value labels rest =
      must_new_const_metric fl
        (record { desc = desc; vtype = vtype; value = value; label_values = labels })
      >>= (λ m. ok (record rest { metrics = m ∷ rest.metrics }))

  abbrev pub send_known : Outcome Desc → ValueType → F → List String → Sent F → Outcome (Sent F)
  send_known d vtype value labels rest = do desc ← d; send desc vtype value labels rest

  abbrev note : Problem → Sent F → Outcome (Sent F)
  note e rest = ok (record rest { errors = e ∷ rest.errors })

  abbrev unknown_desc : String → String → List String → GoMap String → Desc
  unknown_desc ns name labels server_labels = record {
    fq_name = join_words ns name;
    help = append "Unknown metric from " ns;
    variable_labels = labels;
    const_labels = server_labels;
  }

  -- a column that the mapping knows
  unfoldable pub known_column :
      String → String → MetricMap F → List String → DbValue F → Sent F → Outcome (Sent F)
  unfolding send
  known_column ns name m labels v rest =
      if m.discarded
      then ok rest
      else (let (value, good) = db_to_float64 fl v in
          if good
          then send_known (unwrap_desc m.desc) m.vtype value labels rest
          else note (parsing_column ns name) rest)

  -- a column that it does not know: an untyped metric, if the value is a number
  unfoldable pub unknown_column :
      String
      → String
      → List String
      → GoMap String
      → List String
      → DbValue F
      → Sent F
      → Outcome (Sent F)
  unfolding send
  unknown_column ns name mapping_labels server_labels labels v rest =
      let (value, good) = db_to_float64 fl v in
      if good
      then send (unknown_desc ns name mapping_labels server_labels) untyped_value value labels rest
      else note (unparseable_column ns name) rest

module _ {F : Type 0} (fl : Float64 F) (server_labels : GoMap String) (ns : String)
    (mapping : MetricMapNamespace F) where
  unfoldable pub one_column :
      Option (MetricMap F) → String → List String → DbValue F → Sent F → Outcome (Sent F)
  unfolding known_column unknown_column
  one_column (some m) name labels v rest = known_column fl ns name m labels v rest
  one_column none name labels v rest =
      unknown_column fl ns name mapping.labels server_labels labels v rest

  -- A column, before what the columns after it leave: these are not reached if it panics.
  abbrev pub after_column : Outcome (Sent F) → Outcome (Unit {0}) → RowRun F
  after_column (ok s) ending = record { sent = s; ending = ending }
  after_column (err e) ending = record { sent = nothing; ending = err e }
  after_column (panic e) ending = record { sent = nothing; ending = panic e }

  -- the loop over the columns, from column i on
  unfoldable pub row_columns : List String → ℕ → List String → Row F → RowRun F
  unfolding one_column
  row_columns [] i labels row = record { sent = nothing; ending = ok tt }
  row_columns (name ∷ names) i labels row =
      let rest = row_columns names (suc i) labels row in
      after_column (one_column (lookup name mapping.column_mappings) name labels (row i) rest.sent)
        rest.ending

  abbrev pub with_labels : List String → Row F → Outcome (List String) → RowRun F
  with_labels names row (ok labels) = row_columns names 0 labels row
  with_labels names row (err e) = record { sent = nothing; ending = err e }
  with_labels names row (panic e) = record { sent = nothing; ending = panic e }

  -- one row
  unfoldable pub row_metrics : List String → Row F → RowRun F
  unfolding row_columns label_values
  row_metrics names row = with_labels names row (label_values fl names row mapping.labels)

  abbrev ended : Sent F → Outcome (List Problem) → NamespaceRun F
  ended sent result = record { metrics = sent.metrics; result = result }

  -- the loop over the rows, with what has been sent before
  unfoldable pub all_rows : List String → Sent F → List (Option (Row F)) → NamespaceRun F
  unfolding row_metrics
  all_rows names sent [] = ended sent (ok sent.errors)
  all_rows names sent (none ∷ scans) = ended sent (err "Error retrieving rows:")
  all_rows names sent (some row ∷ scans) =
      let run = row_metrics names row in
      let all = also sent run.sent in
      elim run.ending [
        | ok _ ↦ all_rows names all scans
        | err e ↦ ended all (err e)
        | panic e ↦ ended all (panic e)
      ]

  -- the rows of a query's answer
  unfoldable pub answer : Option (Rows F) → NamespaceRun F
  unfolding all_rows
  answer none = ended nothing (err "Error running query on database")
  answer (some rows) = elim rows.columns [
    | none ↦ ended nothing (err "Error retrieving column list for: ")
    | some names ↦ all_rows names nothing rows.scans
  ]

  -- queryNamespaceMapping, with the override for the namespace, if there is one
  unfoldable pub query_namespace_mapping :
      (String → Option (Rows F)) → Option String → NamespaceRun F
  unfolding answer
  query_namespace_mapping query none = answer (query (append "SELECT * FROM " (append ns ";")))
  query_namespace_mapping query (some override) =
      if is_empty override then ended nothing (ok []) else answer (query override)

-- What queryNamespaceMappings leaves: the metrics sent, and the map of the errors or a panic.
pub record MappingsRun (F : Type 0) : Type 0 where
  pub metrics : List (Metric F)
  pub result : Outcome (GoMap String)

module _ {F : Type 0} (fl : Float64 F) (server_labels : GoMap String)
    (query : String → Option (Rows F)) (overrides : GoMap String) where
  abbrev next_mapping : String → NamespaceRun F → MappingsRun F → MappingsRun F
  next_mapping ns run rest = elim run.result [
    | ok problems ↦ record rest { metrics = run.metrics ++ rest.metrics }
    | err e ↦ record {
      metrics = run.metrics ++ rest.metrics;
      result = do
        errors ← rest.result
        ok ((ns, e) ∷ errors);
    }
    | panic e ↦ record { metrics = run.metrics; result = panic e }
  ]

  -- the loop of queryNamespaceMappings; the errors of a map's distinct namespaces are distinct
  unfoldable pub query_namespace_mappings : GoMap (MetricMapNamespace F) → MappingsRun F
  unfolding query_namespace_mapping
  query_namespace_mappings [] = record { metrics = []; result = ok [] }
  query_namespace_mappings ((ns, mapping) ∷ rest) =
      next_mapping ns
        (query_namespace_mapping fl server_labels ns mapping query (lookup ns overrides))
        (query_namespace_mappings rest)
