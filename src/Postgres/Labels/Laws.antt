-- ===== src/Postgres/Labels/Laws.antt =====
-- What parseConstLabels accepts: clean keys and values, and it reads back what is printed.
use Prim.Native.Char.{Char}
use Prim.Native.String.{◌∷◌ as cons}
use exporter_plus.Prelude.{
  String, ◌≡◌, ◌≢◌, refl, ◌∙◌, ap, false, Bool-cases, inl, inr, List, [], ◌∷◌, ◌||◌, arith, All,
  map,
}
use exporter_plus.Prelude.Text.{append, split, join, trim_space, is_empty, is_space}
use exporter_plus.Prelude.Text.Laws.{
  Lacks, Lacks-append, split-keeps_Lacks, split-Lacks, Lacks-trim_space, split-append,
  split_of_Lacks, split-join, NoSpace, NoSpace-append, NoSpace-join, trim_space_of_NoSpace,
  is_empty_iff, is_empty-append,
}
use exporter_plus.Prelude.GoMap.{GoMap, insert, range_insert}
use exporter_plus.Prelude.GoMap.Laws.{AllEntries, AllEntries-insert}
use exporter_plus.Postgres.Labels.{set_label, add_pair, add_parts, parse_const_labels}

-- Neither is empty, and neither has a comma or an equals sign.
abbrev pub IsLabel : String → String → Type 0
IsLabel key value =
    (key ≢ "")
    × (value ≢ "")
    × (Lacks b',' key × Lacks b'=' key)
    × (Lacks b',' value × Lacks b'=' value)

set_label-IsLabel :
    (key value : String) (labels : GoMap String)
    → Lacks b',' key × Lacks b'=' key
    → Lacks b',' value × Lacks b'=' value
    → AllEntries IsLabel labels
    → AllEntries IsLabel (set_label key value labels)
unfolding set_label
set_label-IsLabel key value labels k v h = elim (Bool-cases (is_empty key || is_empty value)) [
  | inl e ↦ rw e h
  | inr e ↦ rw e (
      AllEntries-insert IsLabel key value labels
        (
          λ q. ground (arith, (is_empty_iff key).1 q),
          λ q. ground (arith, (is_empty_iff value).1 q),
          k,
          v,
        )
        h)
]

add_pair-IsLabel :
    (parts : List String) (labels : GoMap String)
    → All (Lacks b',') parts
    → All (Lacks b'=') parts
    → AllEntries IsLabel labels
    → AllEntries IsLabel (add_pair parts labels)
unfolding add_pair
add_pair-IsLabel (key ∷ value ∷ []) labels (a, (b, _)) (c, (d, _)) h =
    set_label-IsLabel (trim_space key) (trim_space value) labels
      (Lacks-trim_space b',' key a, Lacks-trim_space b'=' key c)
      (Lacks-trim_space b',' value b, Lacks-trim_space b'=' value d) h
add_pair-IsLabel [] labels _ _ h = h
add_pair-IsLabel _ labels _ _ h = h

add_parts-IsLabel :
    (parts : List String) (labels : GoMap String)
    → All (Lacks b',') parts
    → AllEntries IsLabel labels
    → AllEntries IsLabel (add_parts parts labels)
unfolding add_parts
add_parts-IsLabel [] labels _ h = h
add_parts-IsLabel (p ∷ ps) labels (k, ks) h =
    let parts = split b'=' (trim_space p) in
    add_parts-IsLabel ps (add_pair parts labels) ks (
      add_pair-IsLabel parts labels
        (split-keeps_Lacks b',' b'=' (trim_space p) (Lacks-trim_space b',' p k))
        (split-Lacks b'=' (trim_space p)) h)

-- Whatever the text, every constant label that is read has a key and a value that are not empty
-- and hold neither a comma nor an equals sign.
pub parse_const_labels-IsLabel : (s : String) → AllEntries IsLabel (parse_const_labels s)
unfolding parse_const_labels
parse_const_labels-IsLabel s = elim (Bool-cases (is_empty (trim_space s))) [
  | inl e ↦ rw e tt
  | inr e ↦
      rw e (add_parts-IsLabel (split b',' (trim_space s)) [] (split-Lacks b',' (trim_space s)) tt)
]

abbrev equals_sign : Char
equals_sign = "="

abbrev comma : Char
comma = ","

abbrev pub print_label : String × String → String
print_label (key, value) = append key (cons equals_sign value)

-- The labels as the flag spells them: "key=value,key=value".
abbrev pub print_labels : GoMap String → String
print_labels labels = join (cons comma "") (map print_label labels)

-- A label that can be written in the flag: without white space too.
abbrev pub IsPrintable : String → String → Type 0
IsPrintable key value = IsLabel key value × NoSpace key × NoSpace value

add_pair_two :
    (key value : String) (labels : GoMap String)
    → add_pair (key ∷ value ∷ []) labels ≡ set_label (trim_space key) (trim_space value) labels
unfolding add_pair
add_pair_two key value labels = refl

module _ (key value : String) (printable : IsPrintable key value) where
  print_label-NoSpace : NoSpace (print_label (key, value))
  unfolding is_space
  print_label-NoSpace = NoSpace-append key (cons equals_sign value) printable.1 (refl, printable.2)

  print_label-Lacks : Lacks b',' (print_label (key, value))
  print_label-Lacks =
      Lacks-append b',' key (cons equals_sign value) printable.0.2.0 (omega arith, printable.0.3.0)

  set_label_lem : (labels : GoMap String) → set_label key value labels ≡ insert key value labels
  unfolding set_label
  set_label_lem labels =
      ground (arith, is_empty_iff key, is_empty_iff value, printable.0.0, printable.0.1)

  add_pair-print_label :
      (labels : GoMap String)
      → add_pair (split b'=' (trim_space (print_label (key, value)))) labels
        ≡ insert key value labels
  add_pair-print_label labels =
      rw
        (
          trim_space_of_NoSpace (print_label (key, value)) print_label-NoSpace,
          split-append b'=' key equals_sign value printable.0.2.1 refl,
          split_of_Lacks b'=' value printable.0.3.1,
        )
        (add_pair_two key value labels
          ∙ rw (trim_space_of_NoSpace key printable.1, trim_space_of_NoSpace value printable.2)
              (set_label_lem labels))

add_parts-print :
    (m labels : GoMap String)
    → AllEntries IsPrintable m
    → add_parts (map print_label m) labels ≡ range_insert (λ k v. v) m labels
unfolding add_parts range_insert
add_parts-print [] labels _ = refl
add_parts-print ((key, value) ∷ m) labels (p, ps) =
    ap (add_parts (map print_label m)) (add_pair-print_label key value p labels)
    ∙ add_parts-print m (insert key value labels) ps

All-print :
    (m : GoMap String)
    → AllEntries IsPrintable m
    → All NoSpace (map print_label m) × All (Lacks b',') (map print_label m)
All-print [] _ = (tt, tt)
All-print ((key, value) ∷ m) (p, ps) = (
  (print_label-NoSpace key value p, (All-print m ps).0),
  (print_label-Lacks key value p, (All-print m ps).1),
)

print_labels-ne-empty :
    (key value : String) (m : GoMap String)
    → key ≢ ""
    → is_empty (print_labels ((key, value) ∷ m)) ≡ false
unfolding join
print_labels-ne-empty key value [] h = is_empty-append key _ h
print_labels-ne-empty key value (e ∷ m) h = is_empty-append (print_label (key, value)) _ (λ q.
    cc (
      is_empty-append key (cons equals_sign value) h,
      (is_empty_iff (print_label (key, value))).1 q,
    ))

parse_trimmed :
    (s : String)
    → trim_space s ≡ s
    → is_empty s ≡ false
    → parse_const_labels s ≡ add_parts (split b',' s) []
unfolding parse_const_labels
parse_trimmed s t e = rw (t, e)

-- Labels without white space, commas and equals signs, printed as "key=value,key=value", are read
-- back as they were, a later one of the same key replacing an earlier one.
pub parse-print_labels :
    (m : GoMap String)
    → AllEntries IsPrintable m
    → parse_const_labels (print_labels m) ≡ range_insert (λ k v. v) m []
parse-print_labels [] _ = unfold parse_const_labels join trim_space range_insert in refl
parse-print_labels ((key, value) ∷ m) (p, ps) =
    let labels = (key, value) ∷ m in
    let (clean, lack) = All-print labels (p, ps) in
    parse_trimmed (print_labels labels)
      (trim_space_of_NoSpace (print_labels labels)
        (NoSpace-join comma (map print_label labels) (unfold is_space in refl) clean))
      (print_labels-ne-empty key value m p.0.0)
    ∙ ap (λ (parts : List String). add_parts parts [])
        (split-join comma (map print_label labels) (cc) lack)
    ∙ add_parts-print labels [] (p, ps)
