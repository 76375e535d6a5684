-- ===== src/Postgres/Overrides.antt =====
-- makeQueryOverrideMap of collector/postgres/collector.go: the query of each namespace for a version.
pub mod Laws
use exporter_plus.Prelude.{String, List, [], ◌∷◌, if◌then◌else◌}
use exporter_plus.Prelude.GoMap.{GoMap, range_insert}
use exporter_plus.Postgres.Types.{OverrideQuery}

module _ {V : Type 0} (version : V) where
  -- the inner loop: the query of the first range that holds the version, or "", which disables the
  -- namespace
  unfoldable pub matching_query : List (OverrideQuery V) → String
  matching_query [] = ""
  matching_query (def ∷ defs) = if def.version_range version then def.query else matching_query defs

  unfoldable pub make_query_override_map : GoMap (List (OverrideQuery V)) → GoMap String
  unfolding matching_query
  make_query_override_map overrides = range_insert (λ name. matching_query) overrides []
