-- ===== src/Mongodb/Calls/Fits.antt =====
-- WithLabelValues panics unless it has one value for each label. A trace fits if all of its calls,
-- those before a panic included, have as many as their vectors ask for.
use exporter_plus.Prelude.{
  Bool, true, ◌&&◌, Option, none, some, List, [], ◌∷◌, ◌++◌, ◌==◌, length, All, each, map, ◌≡◌,
  refl, arith,
}
use exporter_plus.Mongodb.Calls.{
  Call, set, observe, collect, reset, Trace, ok, panic, and_then, sequence, when, deref,
}

module _ {F : Type 0} where
  abbrev pub fits : Call F → Bool
  fits (set v ls x) = length v.labels == length ls
  fits (observe v ls x) = length v.labels == length ls
  fits (collect v) = true
  fits (reset v) = true

  abbrev pub all_fit : List (Call F) → Bool
  all_fit [] = true
  all_fit (c ∷ cs) = fits c && all_fit cs

  abbrev trace_fits : Trace F → Bool
  trace_fits (ok cs) = all_fit cs
  trace_fits (panic cs e) = all_fit cs

  abbrev pub IsFit : Trace F → Type 0
  IsFit t = trace_fits t ≡ true

  pub all_fit-append :
      (cs ds : List (Call F)) → all_fit cs ≡ true → all_fit ds ≡ true → all_fit (cs ++ ds) ≡ true
  all_fit-append [] ds hc hd = hd
  all_fit-append (c ∷ cs) ds hc hd = ground (arith, all_fit-append cs ds)

  pub when-IsFit :
      {A : Type 0} (o : Option A) (f : A → Trace F) → ((a : A) → IsFit (f a)) → IsFit (when o f)
  when-IsFit none f h = refl
  when-IsFit (some a) f h = h a

  pub deref-IsFit :
      {A : Type 0} (o : Option A) (f : A → Trace F) → ((a : A) → IsFit (f a)) → IsFit (deref o f)
  deref-IsFit none f h = refl
  deref-IsFit (some a) f h = h a

  both-IsFit : (t u : Trace F) → IsFit t → IsFit u → IsFit (and_then t u)
  both-IsFit (ok cs) (ok ds) ht hu = all_fit-append cs ds ht hu
  both-IsFit (ok cs) (panic ds e) ht hu = all_fit-append cs ds ht hu
  both-IsFit (panic cs e) u ht hu = ht

  pub sequence-IsFit : (ts : List (Trace F)) → All IsFit ts → IsFit (sequence ts)
  unfolding sequence
  sequence-IsFit [] h = refl
  sequence-IsFit (t ∷ ts) (ht, hs) = both-IsFit t (sequence ts) ht (sequence-IsFit ts hs)

module _ {F A : Type 0} where
  pub all_fit-each :
      (f : A → List (Call F))
      → ((a : A) → all_fit (f a) ≡ true)
      → (xs : List A) → all_fit (each f xs) ≡ true
  all_fit-each f h [] = refl
  all_fit-each f h (x ∷ xs) = all_fit-append (f x) (each f xs) (h x) (all_fit-each f h xs)

  pub All-IsFit-map :
      (f : A → Trace F) → ((a : A) → IsFit (f a)) → (xs : List A) → All IsFit (map f xs)
  All-IsFit-map f h [] = tt
  All-IsFit-map f h (x ∷ xs) = (h x, All-IsFit-map f h xs)
