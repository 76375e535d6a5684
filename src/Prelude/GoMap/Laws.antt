-- ===== src/Prelude/GoMap/Laws.antt =====
-- The laws of Go maps.
use Prim.Native.String.{String}
use mathlib.Core.Path.{◌≡◌, refl, ◌∙◌, ap}
use mathlib.Core.Option.{Option, none, some}
use mathlib.Core.List.{[], ◌∷◌}
use mathlib.Core.Logic.{inl, inr}
use native.Mathlib.Omega.{arith}
use Prim.Native.Nat.{suc}
use exporter_plus.Prelude.Lists.{length}
use exporter_plus.Prelude.Tests.{
  str_eq, str_eq_iff, str_eq_refl, str_eq_cases, Bool-cases, str_eq_comm, if◌then◌else◌,
}
use exporter_plus.Prelude.GoMap.{GoMap, lookup, insert, delete, range_insert}

module _ {ℓ} {V : Type ℓ} where
  pub lookup-insert :
      (k j : String) (v : V) (m : GoMap V)
      → lookup j (insert k v m) ≡ (if str_eq k j then some v else lookup j m)
  unfolding lookup insert
  lookup-insert k j v [] = refl
  lookup-insert k j v ((i, w) ∷ m) =
      ground (arith, str_eq_iff k j, str_eq_iff i k, str_eq_iff i j, lookup-insert k j v m)

  pub lookup-insert_self : (k : String) (v : V) (m : GoMap V) → lookup k (insert k v m) ≡ some v
  lookup-insert_self k v m = rw (lookup-insert k k v m, str_eq_refl k)

  pub lookup-delete :
      (k j : String) (m : GoMap V)
      → lookup j (delete k m) ≡ (if str_eq k j then none else lookup j m)
  unfolding lookup delete
  lookup-delete k j [] = ground arith
  lookup-delete k j ((i, w) ∷ m) =
      ground (arith, str_eq_iff k j, str_eq_iff i k, str_eq_iff i j, lookup-delete k j m)

  -- The keys of the map are distinct, as a Go map's are.
  abbrev pub IsMap : GoMap V → Type ℓ
  IsMap [] = Unit
  IsMap ((k, v) ∷ m) = (lookup k m ≡ none) × IsMap m

  abbrev pub or_else : Option V → Option V → Option V
  or_else none b = b
  or_else (some a) b = some a

  or_else-none : (o : Option V) → or_else o none ≡ o
  or_else-none none = refl
  or_else-none (some a) = refl

module _ {ℓ κ} {V : Type ℓ} {W : Type κ} where
  abbrev pub image : (V → W) → Option V → Option W
  image f none = none
  image f (some v) = some (f v)

  range_step :
      (f : String → V → W) (j k : String) (v : V) (src : GoMap V) (dst : GoMap W)
      → lookup k src ≡ none
      → or_else (image (f j) (lookup j src)) (if str_eq k j then some (f k v) else lookup j dst)
        ≡ or_else (image (f j) (lookup j ((k, v) ∷ src))) (lookup j dst)
  unfolding lookup
  range_step f j k v src dst fresh = elim (str_eq_cases k j) [
    | inl e ↦ rw (← e, fresh, str_eq_refl k)
    | inr e ↦ rw e
  ]

  -- What a range loop of assignments binds: the image of the source's entry, or else what the
  -- target had.
  pub lookup-range_insert :
      (f : String → V → W) (j : String) (src : GoMap V) (dst : GoMap W)
      → IsMap src
      → lookup j (range_insert f src dst) ≡ or_else (image (f j) (lookup j src)) (lookup j dst)
  unfolding range_insert
  lookup-range_insert f j [] dst h = unfold lookup in refl
  lookup-range_insert f j ((k, v) ∷ src) dst (fresh, h) =
      rw (lookup-range_insert f j src (insert k (f k v) dst) h, lookup-insert k j (f k v) dst)
        (range_step f j k v src dst fresh)

  -- The same loop into an empty map.
  pub lookup-range_map :
      (f : String → V → W) (j : String) (src : GoMap V)
      → IsMap src
      → lookup j (range_insert f src []) ≡ image (f j) (lookup j src)
  lookup-range_map f j src h =
      lookup-range_insert f j src [] h
      ∙ (unfold lookup in or_else-none (image (f j) (lookup j src)))

module _ {ℓ κ} {V : Type ℓ} (P : String → V → Type κ) where
  -- Every entry of the map satisfies P.
  abbrev pub AllEntries : GoMap V → Type κ
  AllEntries [] = Unit
  AllEntries ((k, v) ∷ m) = P k v × AllEntries m

  pub AllEntries-insert :
      (k : String) (v : V) (m : GoMap V) → P k v → AllEntries m → AllEntries (insert k v m)
  unfolding insert
  AllEntries-insert k v [] p _ = (p, tt)
  AllEntries-insert k v ((j, w) ∷ m) p (q, h) = elim (Bool-cases (str_eq j k)) [
    | inl e ↦ rw e (p, h)
    | inr e ↦ rw e (q, AllEntries-insert k v m p h)
  ]

module _ {ℓ} {V : Type ℓ} where
  pub IsMap-insert : (k : String) (v : V) (m : GoMap V) → IsMap m → IsMap (insert k v m)
  unfolding insert
  IsMap-insert k v [] h = (unfold lookup in refl, tt)
  IsMap-insert k v ((j, w) ∷ m) (fresh, h) = elim (str_eq_cases j k) [
    | inl e ↦ rw (e, str_eq_refl k) (rw e at fresh, h)
    | inr e ↦ rw e (lookup-insert k j v m ∙ rw (str_eq_comm k j, e) fresh, IsMap-insert k v m h)
  ]

  pub IsMap-delete : (k : String) (m : GoMap V) → IsMap m → IsMap (delete k m)
  unfolding delete
  IsMap-delete k [] h = tt
  IsMap-delete k ((j, v) ∷ m) (fresh, h) = elim (Bool-cases (str_eq j k)) [
    | inl e ↦ rw e (IsMap-delete k m h)
    | inr e ↦ rw e (lookup-delete k j m ∙ rw (str_eq_comm k j, e) fresh, IsMap-delete k m h)
  ]

  pub length-insert_new :
      (k : String) (v : V) (m : GoMap V)
      → lookup k m ≡ none
      → length (insert k v m) ≡ suc (length m)
  unfolding insert lookup
  length-insert_new k v [] h = refl
  length-insert_new k v ((j, w) ∷ m) h = ground (arith, length-insert_new k v m)

  pub delete_absent : (k : String) (m : GoMap V) → lookup k m ≡ none → delete k m ≡ m
  unfolding delete lookup
  delete_absent k [] h = refl
  delete_absent k ((j, v) ∷ m) h = ground (arith, delete_absent k m)

  pub length-delete_bound :
      (k : String) (v : V) (m : GoMap V)
      → IsMap m
      → lookup k m ≡ some v
      → suc (length (delete k m)) ≡ length m
  unfolding delete lookup
  length-delete_bound k v [] h e = cc
  length-delete_bound k v ((j, w) ∷ m) (fresh, h) e = elim (str_eq_cases j k) [
    | inl q ↦ rw (q, str_eq_refl k, delete_absent k m (rw q at fresh))
    | inr q ↦ rw q (ap suc (length-delete_bound k v m h (rw q at e)))
  ]
