-- ===== src/Prelude/GoMap.antt =====
-- Go maps with string keys: association lists. The order of the list stands for the order in which
-- a `range` loop meets the entries, which Go leaves open; the theorems hold for every order.
pub mod Laws
use Prim.Native.String.{String}
use mathlib.Core.Path.{◌≡◌}
use mathlib.Core.Bool.{Bool, true, false}
use mathlib.Core.Option.{Option, none, some}
use mathlib.Core.List.{List, [], ◌∷◌, map}
use exporter_plus.Prelude.Tests.{str_eq, if◌then◌else◌}

abbrev pub GoMap {ℓ} : Type ℓ → Type ℓ
GoMap V = List (String × V)

module _ {ℓ} {V : Type ℓ} where
  -- v, ok := m[k]
  unfoldable pub lookup : String → GoMap V → Option V
  lookup k [] = none
  lookup k ((j, v) ∷ m) = if str_eq j k then some v else lookup k m

  -- m[k] = v
  unfoldable pub insert : String → V → GoMap V → GoMap V
  insert k v [] = (k, v) ∷ []
  insert k v ((j, w) ∷ m) = if str_eq j k then (k, v) ∷ m else (j, w) ∷ insert k v m

  -- delete(m, k)
  unfoldable pub delete : String → GoMap V → GoMap V
  delete k [] = []
  delete k ((j, v) ∷ m) = let rest = delete k m in if str_eq j k then rest else (j, v) ∷ rest

  -- `len(m[k]) > 0` and such: is the key bound?
  abbrev pub member : String → GoMap V → Bool
  member k m = elim (lookup k m) [ none ↦ false | some _ ↦ true ]

  abbrev pub keys : GoMap V → List String
  keys [] = []
  keys ((k, v) ∷ m) = k ∷ keys m

module _ {ℓ κ} {V : Type ℓ} {W : Type κ} where
  -- for k, v := range src { dst[k] = f(k, v) }
  unfoldable pub range_insert : (String → V → W) → GoMap V → GoMap W → GoMap W
  range_insert f [] dst = dst
  range_insert f ((k, v) ∷ src) dst = range_insert f src (insert k (f k v) dst)
