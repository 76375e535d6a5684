-- ===== src/Mongodb/Tail/Laws.antt =====
-- What the loop of collector/mongodb/oplog_tail.go counts, in whatever order it takes what is sent.
use exporter_plus.Prelude.{
  ℕ, zero, suc, ◌+◌, String, Bool, true, false, List, [], ◌∷◌, ◌++◌, length, length-append, ◌≡◌,
  ◌≢◌, refl, sym, ap, ◌∙◌, arith, str_eq_iff, str_eq_refl, if◌then◌else◌, Bool-cases, inl, inr,
}
use mathlib.Core.Path.{subst}
use exporter_plus.Mongodb.Tail.{
  Op, same_op, Counts, count_of, add_one, TailState, Round, take_error, take_op, Event, failed,
  entry, arrive, Reached, start, sent, took, Tailer, get_oplog_tail_stats,
}

same_op-eq : (a b : Op) → same_op a b ≡ true → a ≡ b
same_op-eq a b h =
    ground (arith, str_eq_iff a.namespace b.namespace, str_eq_iff a.operation b.operation)

same_op_refl : (a : Op) → same_op a a ≡ true
same_op_refl a = ground (arith, str_eq_refl a.namespace, str_eq_refl a.operation)

abbrev pub bit : Bool → ℕ
bit b = if b then 1 else 0

-- how often an entry's namespace and operation stand in a list
abbrev pub times : Op → List Op → ℕ
times op [] = 0
times op (o ∷ ops) = bit (same_op o op) + times op ops

times-append : (op : Op) (xs ys : List Op) → times op (xs ++ ys) ≡ times op xs + times op ys
times-append op [] ys = omega arith
times-append op (x ∷ xs) ys = omega (arith, times-append op xs ys)

-- of the events that were sent, the entries of a namespace and operation, and the errors
abbrev pub entries_of : Op → List Event → ℕ
entries_of op [] = 0
entries_of op (failed e ∷ es) = entries_of op es
entries_of op (entry o ∷ es) = bit (same_op o op) + entries_of op es

abbrev pub failures : List Event → ℕ
failures [] = 0
failures (failed e ∷ es) = suc (failures es)
failures (entry o ∷ es) = failures es

not_both : (k o op : Op) → same_op k o ≡ false → same_op k op ≡ true → same_op o op ≡ false
not_both k o op e h = elim (Bool-cases (same_op o op)) [
  | inl p ↦
      let q : false ≡ true =
        sym e
        ∙ ap (λ x. same_op x o) (same_op-eq k op h ∙ sym (same_op-eq o op p))
        ∙ same_op_refl o in
      cc
  | inr p ↦ p
]

count_of-add_one :
    (op o : Op) (counts : Counts)
    → count_of op (add_one o counts) ≡ count_of op counts + bit (same_op o op)
unfolding add_one
count_of-add_one op o [] = ground arith
count_of-add_one op o ((k, n) ∷ counts) = elim (Bool-cases (same_op k o)) [
  | inl e ↦ rw e (rw (same_op-eq k o e) (ground arith))
  | inr e ↦ rw e (elim (Bool-cases (same_op k op)) [
    | inl h ↦ rw (h, not_both k o op e h) (omega arith)
    | inr h ↦ rw h (count_of-add_one op o counts)
  ])
]

-- What was counted and what waits make up what was sent.
pub record Accounts (es : List Event) (s : TailState) : Type 0 where
  pub entries : (op : Op) → count_of op s.entry_count + times op s.ops ≡ entries_of op es
  pub errors : s.tail_error + length s.errors ≡ failures es

arrive-Accounts :
    (es : List Event) (s : TailState) (e : Event) → Accounts es s → Accounts (e ∷ es) (arrive e s)
unfolding arrive
arrive-Accounts es s (failed e) a = record {
  entries = a.entries;
  errors = omega (arith, a.errors, length-append s.errors (e ∷ []));
}
arrive-Accounts es s (entry o) a = record {
  entries = λ op. omega (arith, a.entries op, times-append op s.ops (o ∷ []));
  errors = a.errors;
}

Round-Accounts : (es : List Event) (s t : TailState) → Round s t → Accounts es s → Accounts es t
Round-Accounts es s t (take_error e rest p q) a =
    subst (Accounts es) (sym q)
      (record { entries = a.entries; errors = omega (arith, a.errors, ap length p) })
Round-Accounts es s t (take_op o rest p q) a = subst (Accounts es) (sym q) (record {
  entries = λ op. omega (arith, a.entries op, ap (times op) p, count_of-add_one op o s.entry_count);
  errors = a.errors;
})

-- In every state that the loop can reach, the count of a namespace and operation and its entries that
-- wait are together the entries of it that were sent, and so are the errors.
pub Reached-Accounts : (es : List Event) (s : TailState) → Reached es s → Accounts es s
Reached-Accounts es s start = record { entries = λ op. omega arith; errors = omega arith }
Reached-Accounts es s (sent e r) = arrive-Accounts _ _ e (Reached-Accounts _ _ r)
Reached-Accounts es s (took r m) = Round-Accounts es _ s m (Reached-Accounts es _ r)

-- Rounds one after another, while nothing is sent.
pub data Rounds : ℕ → TailState → TailState → Type 0 where
  done : {s : TailState} → Rounds 0 s s
  more : {n : ℕ} {s t u : TailState} → Round s t → Rounds n t u → Rounds (suc n) s u

abbrev pub waiting : TailState → ℕ
waiting s = length s.errors + length s.ops

-- The loop is stuck only where nothing waits.
can_take : (s : TailState) → waiting s ≢ 0 → (t : TailState) × Round s t
can_take s h = from s.errors s.ops refl refl
  where
    from :
        (errors : List String) (ops : List Op)
        → s.errors ≡ errors
        → s.ops ≡ ops
        → (t : TailState) × Round s t
    from (e ∷ es) ops p q = (_, take_error e es p refl)
    from [] (op ∷ rest) p q = (_, take_op op rest q refl)
    from [] [] p q = absurd (h (omega (arith, ap length p, ap length q)))

Round-waiting : (s t : TailState) → Round s t → waiting s ≡ suc (waiting t)
Round-waiting s t (take_error e rest p q) =
    subst (λ (u : TailState). waiting s ≡ suc (waiting u)) (sym q) (omega (arith, ap length p))
Round-waiting s t (take_op o rest p q) =
    subst (λ (u : TailState). waiting s ≡ suc (waiting u)) (sym q) (omega (arith, ap length p))

Rounds-waiting : (n : ℕ) (s t : TailState) → Rounds n s t → waiting s ≡ n + waiting t
Rounds-waiting n s t done = omega arith
Rounds-waiting n s t (more m r) = omega (arith, Round-waiting s _ m, Rounds-waiting _ _ t r)

Rounds-Reached :
    (n : ℕ) (es : List Event) (s t : TailState) → Rounds n s t → Reached es s → Reached es t
Rounds-Reached n es s t done h = h
Rounds-Reached n es s t (more m r) h = Rounds-Reached _ es _ t r (took h m)

times_of_empty : (op : Op) (ops : List Op) → length ops ≡ 0 → times op ops ≡ 0
times_of_empty op [] h = refl
times_of_empty op (o ∷ ops) h = absurd (omega arith)

-- While something waits the loop can take it; and after as many rounds as there was waiting, in
-- whatever order, each entry that was sent is counted once, under its namespace and operation, and
-- each error once.
pub all_counted :
    (es : List Event) (s : TailState)
    → Reached es s
    → (waiting s ≢ 0 → (t : TailState) × Round s t)
      × ((t : TailState)
          → Rounds (waiting s) s t
          → ((op : Op) → count_of op t.entry_count ≡ entries_of op es)
            × (t.tail_error ≡ failures es))
all_counted es s h = (
  can_take s,
  λ t r. counted t (Rounds-waiting _ s t r) (Reached-Accounts es t (Rounds-Reached _ es s t r h)),
)
  where
    counted :
        (t : TailState)
        → waiting s ≡ waiting s + waiting t
        → Accounts es t
        → ((op : Op) → count_of op t.entry_count ≡ entries_of op es) × (t.tail_error ≡ failures es)
    counted t w a = (
      λ op. omega (arith, a.entries op, times_of_empty op t.ops (omega (arith, w))),
      omega (arith, w, a.errors),
    )

-- The calls of GetOplogTailStats, however many.
abbrev pub asked : ℕ → Tailer → Tailer
asked zero t = t
asked (suc n) t = asked n (get_oplog_tail_stats t)

once_set : (n : ℕ) (t : Tailer) → t.is_set ≡ true → (asked n t).starts ≡ t.starts
unfolding get_oplog_tail_stats
once_set zero t h = refl
once_set (suc n) t h = simp h (once_set n t h)

-- However often the statistics are asked for, the first call starts one tailer and the later ones none.
pub one_tailer : (n : ℕ) → (asked (suc n) (record { is_set = false; starts = 0 })).starts ≡ 1
unfolding get_oplog_tail_stats
one_tailer n = once_set n (record { is_set = true; starts = 1 }) refl
