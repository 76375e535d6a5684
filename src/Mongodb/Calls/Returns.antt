-- ===== src/Mongodb/Calls/Returns.antt =====
-- Whether a trace returns, or panics for a nil pointer.
use exporter_plus.Prelude.{
  Bool, true, false, ◌&&◌, Option, none, some, List, [], ◌∷◌, map, ◌≡◌, refl, ◌∙◌, arith,
}
use exporter_plus.Mongodb.Calls.{Call, Trace, ok, panic, and_then, sequence, when, deref}

-- p == nil || f(*p)
abbrev pub if_any : {A : Type 0} → Option A → (A → Bool) → Bool
if_any none f = true
if_any (some a) f = f a

-- p != nil && f(*p)
abbrev pub has_with : {A : Type 0} → Option A → (A → Bool) → Bool
has_with none f = false
has_with (some a) f = f a

-- p != nil
abbrev pub has : {A : Type 0} → Option A → Bool
has o = has_with o (λ _. true)

module _ {F : Type 0} where
  abbrev pub returns : Trace F → Bool
  returns (ok cs) = true
  returns (panic cs e) = false

  abbrev pub all_return : List (Trace F) → Bool
  all_return [] = true
  all_return (t ∷ ts) = returns t && all_return ts

  both_return : (t u : Trace F) → returns (and_then t u) ≡ (returns t && returns u)
  both_return (ok cs) (ok ds) = refl
  both_return (ok cs) (panic ds e) = refl
  both_return (panic cs e) u = refl

  pub returns-sequence : (ts : List (Trace F)) → returns (sequence ts) ≡ all_return ts
  unfolding sequence
  returns-sequence [] = refl
  returns-sequence (t ∷ ts) = rw (both_return t (sequence ts), returns-sequence ts) refl

  pub returns-when :
      {A : Type 0} (o : Option A) (f : A → Trace F) (g : A → Bool)
      → ((a : A) → returns (f a) ≡ g a)
      → returns (when o f) ≡ if_any o g
  returns-when none f g h = refl
  returns-when (some a) f g h = h a

  pub returns-deref :
      {A : Type 0} (o : Option A) (f : A → Trace F) (g : A → Bool)
      → ((a : A) → returns (f a) ≡ g a)
      → returns (deref o f) ≡ has_with o g
  returns-deref none f g h = refl
  returns-deref (some a) f g h = h a

  -- an export that never panics
  pub returns-when_always :
      {A : Type 0} (o : Option A) (f : A → Trace F)
      → ((a : A) → returns (f a) ≡ true)
      → returns (when o f) ≡ true
  returns-when_always none f h = refl
  returns-when_always (some a) f h = h a

  -- calls, and then those of a section that is not tested
  pub returns-then_deref :
      {A : Type 0} (cs : List (Call F)) (o : Option A) (f : A → Trace F)
      → ((a : A) → returns (f a) ≡ true)
      → returns (sequence (ok cs ∷ deref o f ∷ [])) ≡ has o
  returns-then_deref cs o f h = returns-sequence _ ∙ ground (arith, returns-deref o f (λ _. true) h)

  pub returns-both_deref :
      {A B : Type 0} (o : Option A) (p : Option B) (f : A → Trace F) (g : B → Trace F)
      → ((a : A) → returns (f a) ≡ true)
      → ((b : B) → returns (g b) ≡ true)
      → returns (sequence (deref o f ∷ deref p g ∷ [])) ≡ (has o && has p)
  returns-both_deref o p f g h k =
      returns-sequence _
      ∙ ground (arith, returns-deref o f (λ _. true) h, returns-deref p g (λ _. true) k)

  pub returns-within_deref :
      {A B : Type 0} (o : Option A) (p : Option B) (cs : A → List (Call F)) (f : A → B → Trace F)
      → ((a : A) (b : B) → returns (f a b) ≡ true)
      → returns (deref o (λ a. sequence (ok (cs a) ∷ deref p (f a) ∷ []))) ≡ (has o && has p)
  returns-within_deref none p cs f h = refl
  returns-within_deref (some a) p cs f h = returns-then_deref (cs a) p (f a) (h a)

module _ {A : Type 0} where
  abbrev pub every : (A → Bool) → List A → Bool
  every g [] = true
  every g (x ∷ xs) = g x && every g xs

  every-true : (xs : List A) → every (λ _. true) xs ≡ true
  every-true [] = refl
  every-true (x ∷ xs) = every-true xs

module _ {F A : Type 0} where
  all_return-map :
      (f : A → Trace F) (g : A → Bool)
      → ((a : A) → returns (f a) ≡ g a)
      → (xs : List A) → all_return (map f xs) ≡ every g xs
  all_return-map f g h [] = refl
  all_return-map f g h (x ∷ xs) = rw (h x, all_return-map f g h xs) refl

  -- a loop of exports
  pub returns-map :
      (f : A → Trace F) (g : A → Bool)
      → ((a : A) → returns (f a) ≡ g a)
      → (xs : List A) → returns (sequence (map f xs)) ≡ every g xs
  returns-map f g h xs = returns-sequence (map f xs) ∙ all_return-map f g h xs

  pub returns-map_always :
      (f : A → Trace F)
      → ((a : A) → returns (f a) ≡ true)
      → (xs : List A) → returns (sequence (map f xs)) ≡ true
  returns-map_always f h xs = returns-map f (λ _. true) h xs ∙ every-true xs
