-- ===== src/Postgres/BuiltinQueries/Laws.antt =====
-- The ranges of the built-in overrides are a closed set: each namespace has one query a version.
use exporter_plus.Prelude.{
  String, ◌≡◌, ◌≢◌, refl, ◌∙◌, true, not, ◌&&◌, some, List, arith, str_eq, ne_of_str_eq, ap,
}
use exporter_plus.Prelude.GoMap.{lookup}
use exporter_plus.Prelude.GoMap.Laws.{IsMap, image}
use exporter_plus.Postgres.Types.{OverrideQuery, Semver}
use exporter_plus.Postgres.Overrides.{matching_query, make_query_override_map}
use exporter_plus.Postgres.Overrides.Laws.{
  matches, matching_query-ne-empty, lookup-make_query_override_map,
}
use exporter_plus.Postgres.BuiltinQueries.{
  pg_locks_overrides, pg_stat_replication_overrides, pg_stat_activity_overrides, query_overrides,
}

-- What the package semver documents of the ranges that are used: a range is the comparison, or the
-- two comparisons, that it spells, and the order of versions is transitive with 9.2.0 below 10.0.0.
pub record RangeLaws {V : Type 0} (sv : Semver V) : Type 0 where
  pub above_0 : (v : V) → sv.must_parse_range ">0.0.0" v ≡ sv.lt (sv.must_parse "0.0.0") v
  pub from_10 : (v : V) → sv.must_parse_range ">=10.0.0" v ≡ not (sv.lt v (sv.must_parse "10.0.0"))
  pub from_9_2 : (v : V) → sv.must_parse_range ">=9.2.0" v ≡ not (sv.lt v (sv.must_parse "9.2.0"))
  pub below_9_2 : (v : V) → sv.must_parse_range "<9.2.0" v ≡ sv.lt v (sv.must_parse "9.2.0")
  pub between :
      (v : V)
      → sv.must_parse_range ">=9.2.0 <10.0.0" v
        ≡ (not (sv.lt v (sv.must_parse "9.2.0")) && sv.lt v (sv.must_parse "10.0.0"))
  pub lt_trans : (a b c : V) → sv.lt a b ≡ true → sv.lt b c ≡ true → sv.lt a c ≡ true
  pub ordered : sv.lt (sv.must_parse "9.2.0") (sv.must_parse "10.0.0") ≡ true

module _ {V : Type 0} (sv : Semver V) (laws : RangeLaws sv) (v : V) where
  open laws use {above_0, from_10, from_9_2, below_9_2, between, lt_trans, ordered}

  replication_matches : matches v (pg_stat_replication_overrides sv) ≡ 1
  unfolding matches pg_stat_replication_overrides
  replication_matches = ground (
    arith,
    from_10 v,
    between v,
    below_9_2 v,
    ordered,
    lt_trans v (sv.must_parse "9.2.0") (sv.must_parse "10.0.0"),
  )

  activity_matches : matches v (pg_stat_activity_overrides sv) ≡ 1
  unfolding matches pg_stat_activity_overrides
  activity_matches = ground (arith, from_9_2 v, below_9_2 v)

  -- Exactly one query of pg_stat_replication and exactly one of pg_stat_activity is for the version:
  -- the ranges have no gap and no overlap. The one query of pg_locks is for every version above 0.0.0.
  pub builtin_ranges_closed :
      (matches v (pg_stat_replication_overrides sv) ≡ 1)
      × (matches v (pg_stat_activity_overrides sv) ≡ 1)
      × (sv.lt (sv.must_parse "0.0.0") v ≡ true → matches v (pg_locks_overrides sv) ≡ 1)
  unfolding matches pg_locks_overrides
  builtin_ranges_closed = (replication_matches, activity_matches, λ h. ground (arith, above_0 v))

  query_overrides-IsMap : IsMap (query_overrides sv)
  unfolding query_overrides lookup str_eq
  query_overrides-IsMap = (refl, (refl, (refl, tt)))

  entry :
      (name : String) (defs : List (OverrideQuery V))
      → lookup name (query_overrides sv) ≡ some defs
      → lookup name (make_query_override_map v (query_overrides sv)) ≡ some (matching_query v defs)
  entry name defs e =
      lookup-make_query_override_map v name (query_overrides sv) query_overrides-IsMap
      ∙ ap (image (matching_query v)) e

  replication_query : matching_query v (pg_stat_replication_overrides sv) ≢ ""
  unfolding pg_stat_replication_overrides str_eq
  replication_query =
      matching_query-ne-empty v (pg_stat_replication_overrides sv)
        (ne_of_str_eq _ _ refl, (ne_of_str_eq _ _ refl, (ne_of_str_eq _ _ refl, tt)))
        (omega (arith, replication_matches))

  activity_query : matching_query v (pg_stat_activity_overrides sv) ≢ ""
  unfolding pg_stat_activity_overrides str_eq
  activity_query =
      matching_query-ne-empty v (pg_stat_activity_overrides sv)
        (ne_of_str_eq _ _ refl, (ne_of_str_eq _ _ refl, tt)) (omega (arith, activity_matches))

  -- Neither view is ever disabled: the override map binds both, on every version, to a query that
  -- is not empty.
  pub builtin_never_disabled :
      (q : String) × (r : String) × (lookup "pg_stat_replication"
          (make_query_override_map v (query_overrides sv))
        ≡ some q)
      × (lookup "pg_stat_activity" (make_query_override_map v (query_overrides sv)) ≡ some r)
      × (q ≢ "")
      × (r ≢ "")
  builtin_never_disabled = (
    matching_query v (pg_stat_replication_overrides sv),
    matching_query v (pg_stat_activity_overrides sv),
    entry "pg_stat_replication" (pg_stat_replication_overrides sv)
        (unfold query_overrides lookup str_eq in refl),
    entry "pg_stat_activity" (pg_stat_activity_overrides sv)
        (unfold query_overrides lookup str_eq in refl),
    replication_query,
    activity_query,
  )
