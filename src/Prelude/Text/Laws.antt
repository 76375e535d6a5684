-- ===== src/Prelude/Text/Laws.antt =====
-- What splitting, trimming and replacing do, for every text.
use Prim.Native.Char.{Char, code}
use Prim.Native.String.{String, [], ◌∷◌}
use mathlib.Core.List.{List}
use mathlib.Core.Path.{◌≡◌, refl, ap, ◌∙◌}
use mathlib.Core.Bool.{true, false}
use mathlib.Core.Logic.{◌≢◌, ◌↔◌, inl, inr}
use Prim.Native.Nat.{ℕ}
use native.Mathlib.Omega.{arith}
use text.Mathlib.TextLemmas.{nil-append, cons-append}
use exporter_plus.Prelude.Tests.{Bool-cases, ◌==◌}
use exporter_plus.Prelude.Lists.{All}
use exporter_plus.Prelude.Text.{
  append, split, join, is_empty, is_space, trim_left, trim_right, trim_space, replace, push_head,
}

-- No character of the text is `c`.
abbrev pub Lacks : ℕ → String → Type 0
Lacks c [] = Unit
Lacks c (d ∷ s) = (code d ≢ c) × Lacks c s

All-Lacks-push_head :
    (sep : ℕ) (c : Char) (ps : List String)
    → code c ≢ sep
    → All (Lacks sep) ps
    → All (Lacks sep) (push_head c ps)
All-Lacks-push_head sep c List.[] h k = ((h, tt), tt)
All-Lacks-push_head sep c (List.◌∷◌ p ps) h (k, ks) = ((h, k), ks)

pub split-Lacks : (sep : ℕ) (s : String) → All (Lacks sep) (split sep s)
unfolding split
split-Lacks sep [] = (tt, tt)
split-Lacks sep (c ∷ s) = elim (Bool-cases (code c == sep)) [
  | inl e ↦ rw e (tt, split-Lacks sep s)
  | inr e ↦ rw e (All-Lacks-push_head sep c (split sep s) (ground arith) (split-Lacks sep s))
]

pub split-ne-nil : (sep : ℕ) (s : String) → split sep s ≢ List.[]
unfolding split
split-ne-nil sep [] = cc
split-ne-nil sep (c ∷ s) = ground (arith, split-ne-nil sep s)

-- A text without the separator is one part.
pub split_of_Lacks : (sep : ℕ) (s : String) → Lacks sep s → split sep s ≡ List.◌∷◌ s List.[]
unfolding split
split_of_Lacks sep [] h = refl
split_of_Lacks sep (c ∷ s) (h, hs) = ground (arith, split_of_Lacks sep s hs)

split_at :
    (sep : ℕ) (d : Char) (s : String) → code d ≡ sep → split sep (d ∷ s) ≡ List.◌∷◌ [] (split sep s)
unfolding split
split_at sep d s e = ground arith

split_past :
    (sep : ℕ) (c : Char) (s : String) → code c ≢ sep → split sep (c ∷ s) ≡ push_head c (split sep s)
unfolding split
split_past sep c s e = ground arith

-- A part that lacks the separator, the separator and a rest: the part, and the parts of the rest.
pub split-append :
    (sep : ℕ) (p : String) (d : Char) (s : String)
    → Lacks sep p
    → code d ≡ sep
    → split sep (append p (d ∷ s)) ≡ List.◌∷◌ p (split sep s)
split-append sep [] d s h e = rw nil-append (split_at sep d s e)
split-append sep (c ∷ p) d s (h, hs) e =
    rw (cons-append, split_past sep c _ h, split-append sep p d s hs e) refl

pub Lacks-append : (c : ℕ) (s t : String) → Lacks c s → Lacks c t → Lacks c (append s t)
Lacks-append c [] t _ k = rw nil-append k
Lacks-append c (d ∷ s) t (h, hs) k = rw cons-append (h, Lacks-append c s t hs k)

-- After a replacement by a text that lacks `old` there is no `old` left.
pub replace-Lacks : (old : ℕ) (new s : String) → Lacks old new → Lacks old (replace old new s)
unfolding replace
replace-Lacks old new [] h = tt
replace-Lacks old new (c ∷ s) h = elim (Bool-cases (code c == old)) [
  | inl e ↦ rw e (Lacks-append old new (replace old new s) h (replace-Lacks old new s h))
  | inr e ↦ rw e (ground arith, replace-Lacks old new s h)
]

pub Lacks-trim_left : (c : ℕ) (s : String) → Lacks c s → Lacks c (trim_left s)
unfolding trim_left
Lacks-trim_left c [] h = tt
Lacks-trim_left c (d ∷ s) (h, hs) = elim (Bool-cases (is_space (code d))) [
  | inl e ↦ rw e (Lacks-trim_left c s hs)
  | inr e ↦ rw e (h, hs)
]

pub Lacks-trim_right : (c : ℕ) (s : String) → Lacks c s → Lacks c (trim_right s)
unfolding trim_right
Lacks-trim_right c [] h = tt
Lacks-trim_right c (d ∷ s) (h, hs) = ground (arith, Lacks-trim_right c s hs)

pub Lacks-trim_space : (c : ℕ) (s : String) → Lacks c s → Lacks c (trim_space s)
unfolding trim_space
Lacks-trim_space c s h = Lacks-trim_right c (trim_left s) (Lacks-trim_left c s h)

join_cons :
    (sep : Char) (p q : String) (ps : List String)
    → join (sep ∷ []) (List.◌∷◌ p (List.◌∷◌ q ps))
      ≡ append p (sep ∷ join (sep ∷ []) (List.◌∷◌ q ps))
unfolding join
join_cons sep p q ps = ap (append p) (rw (cons-append, nil-append))

join_step :
    (sep : Char) (p q : String) (ps : List String)
    → Lacks (code sep) p
    → split (code sep) (join (sep ∷ []) (List.◌∷◌ q ps)) ≡ List.◌∷◌ q ps
    → split (code sep) (join (sep ∷ []) (List.◌∷◌ p (List.◌∷◌ q ps))) ≡ List.◌∷◌ p (List.◌∷◌ q ps)
join_step sep p q ps k ih =
    ap (split (code sep)) (join_cons sep p q ps)
    ∙ split-append (code sep) p sep (join (sep ∷ []) (List.◌∷◌ q ps)) k refl
    ∙ ap (List.◌∷◌ p) ih

-- Joining parts that lack the separator and splitting again gives the parts back.
pub split-join :
    (sep : Char) (ps : List String)
    → ps ≢ List.[]
    → All (Lacks (code sep)) ps
    → split (code sep) (join (sep ∷ []) ps) ≡ ps
split-join sep List.[] h _ = absurd (h refl)
split-join sep (List.◌∷◌ p List.[]) h (k, _) = unfold join in split_of_Lacks (code sep) p k
split-join sep (List.◌∷◌ p (List.◌∷◌ q ps)) h (k, ks) =
    join_step sep p q ps k (split-join sep (List.◌∷◌ q ps) (cc) ks)

-- The text has no white space.
abbrev pub NoSpace : String → Type 0
NoSpace [] = Unit
NoSpace (c ∷ s) = (is_space (code c) ≡ false) × NoSpace s

trim_left_of_NoSpace : (s : String) → NoSpace s → trim_left s ≡ s
unfolding trim_left
trim_left_of_NoSpace [] h = refl
trim_left_of_NoSpace (c ∷ s) (h, hs) = rw h

trim_right_of_NoSpace : (s : String) → NoSpace s → trim_right s ≡ s
unfolding trim_right
trim_right_of_NoSpace [] h = refl
trim_right_of_NoSpace (c ∷ s) (h, hs) = rw (h, trim_right_of_NoSpace s hs) refl

-- A text without white space is not trimmed.
pub trim_space_of_NoSpace : (s : String) → NoSpace s → trim_space s ≡ s
unfolding trim_space
trim_space_of_NoSpace s h = ap trim_right (trim_left_of_NoSpace s h) ∙ trim_right_of_NoSpace s h

pub NoSpace-append : (s t : String) → NoSpace s → NoSpace t → NoSpace (append s t)
NoSpace-append [] t _ k = rw nil-append k
NoSpace-append (c ∷ s) t (h, hs) k = rw cons-append (h, NoSpace-append s t hs k)

pub NoSpace-join :
    (sep : Char) (ps : List String)
    → is_space (code sep) ≡ false
    → All NoSpace ps
    → NoSpace (join (sep ∷ []) ps)
unfolding join
NoSpace-join sep List.[] h _ = tt
NoSpace-join sep (List.◌∷◌ p List.[]) h (k, _) = k
NoSpace-join sep (List.◌∷◌ p (List.◌∷◌ q ps)) h (k, ks) = NoSpace-append p _ k (
    NoSpace-append (sep ∷ []) (join (sep ∷ []) (List.◌∷◌ q ps)) (h, tt)
      (NoSpace-join sep (List.◌∷◌ q ps) h ks))

pub is_empty_iff : (s : String) → (is_empty s ≡ true) ↔ (s ≡ [])
is_empty_iff [] = (λ e. refl, λ e. refl)
is_empty_iff (c ∷ s) = (λ e. cc e, λ e. cc e)

pub is_empty-append : (s t : String) → s ≢ [] → is_empty (append s t) ≡ false
is_empty-append [] t h = absurd (h refl)
is_empty-append (c ∷ s) t h = rw cons-append

pub is_empty-append_cons :
    (s : String) (c : Char) (t : String) → is_empty (append s (c ∷ t)) ≡ false
is_empty-append_cons [] c t = rw nil-append
is_empty-append_cons (d ∷ s) c t = rw cons-append

-- The parts of a text have no character that the text lacks.
pub split-keeps_Lacks : (c sep : ℕ) (s : String) → Lacks c s → All (Lacks c) (split sep s)
unfolding split
split-keeps_Lacks c sep [] h = (tt, tt)
split-keeps_Lacks c sep (d ∷ s) (h, hs) = elim (Bool-cases (code d == sep)) [
  | inl e ↦ rw e (tt, split-keeps_Lacks c sep s hs)
  | inr e ↦ rw e (All-Lacks-push_head c d (split sep s) h (split-keeps_Lacks c sep s hs))
]

pub is_empty_ne : (s : String) → s ≢ [] → is_empty s ≡ false
is_empty_ne s h = ground (arith, is_empty_iff s)
