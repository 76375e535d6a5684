-- ===== src/Postgres/Namespace/Missing.antt =====
-- Where a label's value comes from: the label's column, or the first one if there is no such column.
use exporter_plus.Prelude.{
  ℕ, zero, suc, ◌+◌, ◌<◌, String, ◌≡◌, ◌≢◌, refl, ◌∙◌, ap, true, false, Option, none, some, List,
  [], ◌∷◌, arith, length, get_elem?, All, Bool-cases, inl, inr, str_eq, str_eq_iff, str_eq_of_ne,
  str_eq_refl, ltb, if◌then◌else◌, some_inj,
}
use exporter_plus.Prelude.GoMap.{GoMap, lookup, insert}
use exporter_plus.Prelude.GoMap.Laws.{lookup-insert}
use exporter_plus.Prelude.Outcome.{ok, ok_inj, bind-ok}
use exporter_plus.Prelude.Float.{Float64}
use exporter_plus.Postgres.Types.{DbValue}
use exporter_plus.Postgres.Convert.{db_to_string}
use exporter_plus.Postgres.Namespace.{
  Row, column_indices, or_zero, column_index, column_value, label_values,
}

-- No column has the name.
abbrev pub Absent : String → List String → Type 0
Absent name = All (λ n. n ≢ name)

-- The column names are distinct.
abbrev pub IsDistinct : List String → Type 0
IsDistinct [] = Unit
IsDistinct (n ∷ names) = Absent n names × IsDistinct names

lookup-column_indices-Absent :
    (names : List String) (i : ℕ) (idx : GoMap ℕ) (name : String)
    → Absent name names
    → lookup name (column_indices names i idx) ≡ lookup name idx
unfolding column_indices
lookup-column_indices-Absent [] i idx name h = refl
lookup-column_indices-Absent (n ∷ names) i idx name (h, hs) =
    lookup-column_indices-Absent names (suc i) (insert n i idx) name hs
    ∙ rw (lookup-insert n name i idx, str_eq_of_ne n name h)

Absent-ne :
    (names : List String) (k : ℕ) (n name : String)
    → Absent n names
    → get_elem? names k ≡ some name
    → n ≢ name
Absent-ne [] k n name h e = cc
Absent-ne (m ∷ names) zero n name (h, hs) e = λ q. h (some_inj e ∙ exporter_plus.Prelude.sym q)
Absent-ne (m ∷ names) (suc k) n name (h, hs) e = Absent-ne names k n name hs e

lookup-column_indices :
    (names : List String) (i : ℕ) (idx : GoMap ℕ) (k : ℕ) (name : String)
    → IsDistinct names
    → get_elem? names k ≡ some name
    → lookup name (column_indices names i idx) ≡ some (i + k)
unfolding column_indices
lookup-column_indices [] i idx k name d e = cc
lookup-column_indices (n ∷ names) i idx zero name (h, d) e = rw (← some_inj e) (
    lookup-column_indices-Absent names (suc i) (insert n i idx) n h
    ∙ rw (lookup-insert n n i idx, str_eq_refl n) (ap some (omega arith)))
lookup-column_indices (n ∷ names) i idx (suc k) name (h, d) e =
    lookup-column_indices names (suc i) (insert n i idx) k name d e ∙ ap some (omega arith)

pub column_index-Absent :
    (names : List String) (name : String) → Absent name names → column_index names name ≡ 0
unfolding column_index lookup
column_index-Absent names name h = ap or_zero (lookup-column_indices-Absent names 0 [] name h)

pub column_index-present :
    (names : List String) (k : ℕ) (name : String)
    → IsDistinct names
    → get_elem? names k ≡ some name
    → column_index names name ≡ k
unfolding column_index
column_index-present names k name d e =
    ap or_zero (lookup-column_indices names 0 [] k name d e) ∙ (omega arith)

module _ {F : Type 0} (fl : Float64 F) where
  column_value-ok :
      (names : List String) (row : Row F) (k : ℕ) (v : DbValue F)
      → column_value fl names row k ≡ ok v
      → row k ≡ v
  unfolding column_value
  column_value-ok names row k v h = ground arith

  label_values-get :
      (names : List String) (row : Row F) (labels values : List String) (i : ℕ) (label : String)
      → label_values fl names row labels ≡ ok values
      → get_elem? labels i ≡ some label
      → get_elem? values i ≡ some (db_to_string fl (row (column_index names label))).0
  unfolding label_values column_value
  label_values-get names row [] values i label e h = cc
  label_values-get names row (l ∷ labels) values zero label e h =
      let (v, read, e') = bind-ok (column_value fl names row (column_index names l)) _ e in
      let (rest, _, e'') = bind-ok (label_values fl names row labels) _ e' in
      rw (← ok_inj e'', ← some_inj h, column_value-ok names row (column_index names l) v read)
  label_values-get names row (l ∷ labels) values (suc i) label e h =
      let (v, read, e') = bind-ok (column_value fl names row (column_index names l)) _ e in
      let (rest, others, e'') = bind-ok (label_values fl names row labels) _ e' in
      rw (← ok_inj e'') (label_values-get names row labels rest i label others h)

  -- If the label values of a row are read and the column names are distinct, then the value of a
  -- label is that of its column, as a text. If no column has the label's name, it is the value of
  -- the row's first column.
  pub label_values_lem :
      (names : List String) (row : Row F) (labels values : List String) (i : ℕ) (label : String)
      → label_values fl names row labels ≡ ok values
      → get_elem? labels i ≡ some label
      → ((k : ℕ)
          → IsDistinct names
          → get_elem? names k ≡ some label
          → get_elem? values i ≡ some (db_to_string fl (row k)).0)
        × (Absent label names → get_elem? values i ≡ some (db_to_string fl (row 0)).0)
  label_values_lem names row labels values i label e h = (
    λ k d q.
        label_values-get names row labels values i label e h
        ∙ ap (λ (j : ℕ). some (db_to_string fl (row j)).0) (column_index-present names k label d q),
    λ a.
        label_values-get names row labels values i label e h
        ∙ ap (λ (j : ℕ). some (db_to_string fl (row j)).0) (column_index-Absent names label a),
  )
