-- ===== src/Prelude/Outcome.antt =====
-- How a Go function ends: with a value, with an error value (its message), or in a panic.
use Prim.Native.String.{String}
use mathlib.Core.Logic.{◌⊎◌, inl, inr}
use mathlib.Core.Path.{◌≡◌, refl}

pub data Outcome {ℓ} (A : Type ℓ) : Type ℓ where
  ok : A → Outcome A
  err : String → Outcome A
  panic : String → Outcome A

infixl 5 ◌>>=◌
abbrev pub ◌>>=◌ {ℓ κ} : {A : Type ℓ} {B : Type κ} → Outcome A → (A → Outcome B) → Outcome B
ok a >>= f = f a
err e >>= f = err e
panic e >>= f = panic e

module _ {ℓ κ} {A : Type ℓ} {B : Type κ} where
  -- Inversion of a successful bind.
  pub bind-ok :
      (o : Outcome A) (next : A → Outcome B) {result : B}
      → (o >>= next) ≡ ok result
      → (v : A) × (o ≡ ok v) × (next v ≡ ok result)
  bind-ok (ok v) next e = (v, refl, e)
  bind-ok (err message) next e = cc
  bind-ok (panic message) next e = cc

pub ok_inj {ℓ} : {A : Type ℓ} {a b : A} → ok a ≡ ok b → a ≡ b
ok_inj h = cc

-- To split on a computed outcome and keep the equation.
pub Outcome-cases {ℓ} :
    {A : Type ℓ} (o : Outcome A)
    → ((a : A) × (o ≡ ok a)) ⊎ ((e : String) × (o ≡ err e)) ⊎ ((e : String) × (o ≡ panic e))
Outcome-cases (ok a) = inl (a, refl)
Outcome-cases (err e) = inr (inl (e, refl))
Outcome-cases (panic e) = inr (inr (e, refl))
