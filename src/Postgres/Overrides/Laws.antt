-- ===== src/Postgres/Overrides/Laws.antt =====
-- Which query makeQueryOverrideMap takes.
use mathlib.Core.List.{Memᴰ}
use exporter_plus.Prelude.{
  ℕ, suc, String, ◌≡◌, ◌≢◌, refl, true, List, [], ◌∷◌, arith, if◌then◌else◌, Bool-cases, All, inl,
  inr,
}
use exporter_plus.Prelude.GoMap.{GoMap, lookup}
use exporter_plus.Prelude.GoMap.Laws.{IsMap, image, lookup-range_map}
use exporter_plus.Postgres.Types.{OverrideQuery}
use exporter_plus.Postgres.Overrides.{matching_query, make_query_override_map}

module _ {V : Type 0} (version : V) where
  -- How many of the ranges hold the version?
  unfoldable pub matches : List (OverrideQuery V) → ℕ
  matches [] = 0
  matches (def ∷ defs) = if def.version_range version then suc (matches defs) else matches defs

  matching_query-none :
      (defs : List (OverrideQuery V)) → matches defs ≡ 0 → matching_query version defs ≡ ""
  unfolding matches matching_query
  matching_query-none [] h = refl
  matching_query-none (def ∷ defs) h = ground (arith, matching_query-none defs)

  no_match :
      (def : OverrideQuery V) (defs : List (OverrideQuery V))
      → Memᴰ def defs
      → def.version_range version ≡ true
      → matches defs ≢ 0
  unfolding matches
  no_match def [] m h = elim m [ ]
  no_match def (d ∷ defs) (Memᴰ.head e) h = rw (← e, h) (cc)
  no_match def (d ∷ defs) (Memᴰ.tail m) h = ground (arith, no_match def defs m h)

  -- If exactly one range holds the version, the query is that range's, wherever it stands.
  pub matching_query_unique :
      (def : OverrideQuery V) (defs : List (OverrideQuery V))
      → Memᴰ def defs
      → def.version_range version ≡ true
      → matches defs ≡ 1
      → matching_query version defs ≡ def.query
  unfolding matches matching_query
  matching_query_unique def [] m h one = elim m [ ]
  matching_query_unique def (d ∷ defs) (Memᴰ.head e) h one = rw (← e, h)
  matching_query_unique def (d ∷ defs) (Memᴰ.tail m) h one =
      ground (arith, no_match def defs m h, matching_query_unique def defs m h)

  -- Where a range holds the version and no query is empty, the namespace is not disabled.
  pub matching_query-ne-empty :
      (defs : List (OverrideQuery V))
      → All (λ def. def.query ≢ "") defs
      → matches defs ≢ 0
      → matching_query version defs ≢ ""
  unfolding matches matching_query
  matching_query-ne-empty [] _ h = absurd (h refl)
  matching_query-ne-empty (def ∷ defs) (p, ps) h = elim (Bool-cases (def.version_range version)) [
    | inl e ↦ rw e p
    | inr e ↦ rw e (matching_query-ne-empty defs ps (rw e at h))
  ]

  -- The map has an entry for each namespace with overrides, and no other: the query of the first
  -- range that holds the version.
  pub lookup-make_query_override_map :
      (name : String) (overrides : GoMap (List (OverrideQuery V)))
      → IsMap overrides
      → lookup name (make_query_override_map version overrides)
        ≡ image (matching_query version) (lookup name overrides)
  unfolding make_query_override_map
  lookup-make_query_override_map name overrides h = lookup-range_map _ name overrides h
