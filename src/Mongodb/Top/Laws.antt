-- ===== src/Mongodb/Top/Laws.antt =====
-- The labels "database" and "collection" of collector/mongodb/top_counters.go.
use Prim.Native.Char.{Char, code}
use Prim.Native.String.{[], ◌∷◌}
use mathlib.Core.List.{List}
use text.Mathlib.TextLemmas.{nil-append, cons-append}
use text.Mathlib.TextEquality.{Char-path}
use exporter_plus.Prelude.{String, ◌≡◌, ◌≢◌, refl, ap, ◌∙◌, sym, arith, Bool-cases, inl, inr, ◌==◌}
use exporter_plus.Prelude.Text.{append, split, join, push_head}
use exporter_plus.Prelude.Text.Laws.{Lacks, split-append, split_of_Lacks, split-ne-nil}
use exporter_plus.Mongodb.Top.{top_labels}

abbrev pub dot : Char
dot = "."

join_cons_head :
    (c : Char) (sep : String) (ps : List String)
    → ps ≢ List.[]
    → join sep (push_head c ps) ≡ c ∷ join sep ps
unfolding join
join_cons_head c sep List.[] h = absurd (h refl)
join_cons_head c sep (List.◌∷◌ p List.[]) h = refl
join_cons_head c sep (List.◌∷◌ p (List.◌∷◌ q ps)) h = cons-append c p _

join_nil_head :
    (sep : String) (ps : List String)
    → ps ≢ List.[]
    → join sep (List.◌∷◌ [] ps) ≡ append sep (join sep ps)
unfolding join
join_nil_head sep List.[] h = absurd (h refl)
join_nil_head sep (List.◌∷◌ q ps) h = nil-append _

-- What was split is joined to what it was.
join-split : (s : String) → join "." (split b'.' s) ≡ s
unfolding split
join-split [] = unfold join in refl
join-split (c ∷ s) = elim (Bool-cases (code c == b'.')) [
  | inl e ↦ rw e (
      join_nil_head "." (split b'.' s) (split-ne-nil b'.' s)
      ∙ ap (append ".") (join-split s)
      ∙ cons-append dot [] s
      ∙ ap (λ t. dot ∷ t) (nil-append s)
      ∙ ap (λ d. d ∷ s) (sym (Char-path c dot (ground arith))))
  | inr e ↦
      rw e
        (join_cons_head c "." (split b'.' s) (split-ne-nil b'.' s) ∙ ap (λ t. c ∷ t) (join-split s))
]

-- A namespace of a database without dots, a dot and a collection, dots or none, has the database and
-- the collection for its labels; one without a dot has itself and an empty collection.
pub top_labels_lem :
    (database collection : String)
    → Lacks b'.' database
    → (top_labels (append database (dot ∷ collection)) ≡ (database, collection))
      × (top_labels database ≡ (database, ""))
unfolding top_labels
top_labels_lem database collection h = (
  rw (split-append b'.' database dot collection h refl, join-split collection) refl,
  rw (split_of_Lacks b'.' database h) (unfold join in refl),
)
