-- ===== src/Postgres/Tests/Queries.antt =====
-- A file of user queries with one namespace.
use exporter_plus.Prelude.{String, ◌≡◌, refl, [], ◌∷◌, str_eq}
use exporter_plus.Prelude.Int.{ℤ, pos}
use exporter_plus.Prelude.GoMap.{GoMap, lookup}
use exporter_plus.Prelude.Outcome.{Outcome, ok}
use exporter_plus.Prelude.Float.{concrete}
use exporter_plus.Postgres.Types.{MetricMapNamespace}
use exporter_plus.Postgres.Convert.{string_to_column_usage}
use exporter_plus.Postgres.UserQueries.{
  Yaml, str, sequence, mapping, nil, cons, end, entry, Maps, add_queries,
}
use exporter_plus.Postgres.UserQueries.Laws.{add_queries_lem}

-- pg_mine: a query, and a gauge "size".
abbrev file : GoMap Yaml
file =
    (
      "pg_mine",
      mapping (
          entry (str "query") (str "SELECT 1 AS size") (
            entry (str "metrics")
              (sequence (
                cons
                  (mapping
                    (entry (str "size") (mapping (entry (str "usage") (str "GAUGE") end)) end))
                  nil))
              end)),
    )
    ∷ []

abbrev other : MetricMapNamespace ℤ
other = record { labels = "datname" ∷ []; column_mappings = [] }

abbrev before : Maps ℤ
before = record {
  metric_map = ("pg_other", other) ∷ [];
  query_overrides = ("pg_other", "SELECT 2") ∷ [];
}

abbrev content : String
content = "pg_mine: ..."

abbrev after : Outcome (Maps ℤ)
after = add_queries {V = ℤ} concrete (λ s. ok file) (pos 0) [] content before

abbrev from : Outcome (Maps ℤ) → Maps ℤ
from (ok m) = m
from _ = before

after-ok : after ≡ ok (from after)
unfolding add_queries str_eq string_to_column_usage
after-ok = refl

add_queries_lem_example :
    (lookup "pg_other" (from after).metric_map ≡ lookup "pg_other" before.metric_map)
    × (lookup "pg_other" (from after).query_overrides ≡ lookup "pg_other" before.query_overrides)
add_queries_lem_example =
    add_queries_lem concrete (λ s. ok file) (pos 0) [] content "pg_other" file before (from after)
      refl (unfold lookup str_eq in refl) after-ok
