-- ===== src/Kafka/Descs/Laws.antt =====
-- The labels of the flag kafka.labels, read back as they were printed.
use Prim.Native.Char.{Char}
use Prim.Native.String.{◌∷◌ as cons}
use exporter_plus.Prelude.{String, ◌≡◌, refl, ◌∙◌, ap, false, List, [], ◌∷◌, arith, All, map}
use exporter_plus.Prelude.Text.{append, split, join, is_empty}
use exporter_plus.Prelude.Text.Laws.{
  Lacks, Lacks-append, split-append, split_of_Lacks, split-join, is_empty_iff, is_empty-append,
  is_empty-append_cons,
}
use exporter_plus.Prelude.GoMap.{GoMap, insert, range_insert}
use exporter_plus.Prelude.GoMap.Laws.{AllEntries}
use exporter_plus.Kafka.Descs.{add_label, add_labels, kafka_labels}

abbrev equals_sign : Char
equals_sign = "="

abbrev comma : Char
comma = ","

-- No comma and no equals sign. The value, unlike those of the Postgres flag, may be empty.
abbrev pub IsPlain : String → String → Type 0
IsPlain key value = (Lacks b',' key × Lacks b'=' key) × (Lacks b',' value × Lacks b'=' value)

abbrev pub print_label : String × String → String
print_label (key, value) = append key (cons equals_sign value)

-- The flag "key=value,key=value".
abbrev pub print_labels : GoMap String → String
print_labels labels = join (cons comma "") (map print_label labels)

add_label-print :
    (key value : String) (labels : GoMap String)
    → IsPlain key value
    → add_label (split b'=' (print_label (key, value))) labels ≡ insert key value labels
unfolding add_label
add_label-print key value labels p =
    rw (split-append b'=' key equals_sign value p.0.1 refl, split_of_Lacks b'=' value p.1.1)

add_labels-print :
    (m labels : GoMap String)
    → AllEntries IsPlain m
    → add_labels (map print_label m) labels ≡ range_insert (λ k v. v) m labels
unfolding add_labels range_insert
add_labels-print [] labels _ = refl
add_labels-print ((key, value) ∷ m) labels (p, ps) =
    ap (add_labels (map print_label m)) (add_label-print key value labels p)
    ∙ add_labels-print m (insert key value labels) ps

All-print : (m : GoMap String) → AllEntries IsPlain m → All (Lacks b',') (map print_label m)
All-print [] _ = tt
All-print ((key, value) ∷ m) (p, ps) =
    (Lacks-append b',' key (cons equals_sign value) p.0.0 (omega arith, p.1.0), All-print m ps)

print_labels-ne-empty :
    (key value : String) (m : GoMap String) → is_empty (print_labels ((key, value) ∷ m)) ≡ false
unfolding join
print_labels-ne-empty key value [] = is_empty-append_cons key equals_sign value
print_labels-ne-empty key value (e ∷ m) = is_empty-append (print_label (key, value)) _ (λ q.
    cc (is_empty-append_cons key equals_sign value, (is_empty_iff (print_label (key, value))).1 q))

of_parts : (s : String) → is_empty s ≡ false → kafka_labels s ≡ add_labels (split b',' s) []
unfolding kafka_labels
of_parts s h = rw h

-- Labels without commas and equals signs, printed as "key=value,key=value", are read back as they
-- were, a later one of the same key replacing an earlier one.
pub kafka_labels-print_labels :
    (m : GoMap String)
    → AllEntries IsPlain m
    → kafka_labels (print_labels m) ≡ range_insert (λ k v. v) m []
kafka_labels-print_labels [] _ = unfold kafka_labels join range_insert in refl
kafka_labels-print_labels ((key, value) ∷ m) (p, ps) =
    let labels = (key, value) ∷ m in
    of_parts (print_labels labels) (print_labels-ne-empty key value m)
    ∙ ap (λ (parts : List String). add_labels parts [])
        (split-join comma (map print_label labels) (cc) (All-print labels (p, ps)))
    ∙ add_labels-print labels [] (p, ps)
