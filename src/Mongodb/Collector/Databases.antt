-- ===== src/Mongodb/Collector/Databases.antt =====
-- The databases "admin" and "test", which the sections that list the databases pass over.
use exporter_plus.Prelude.{
  Bool, str_eq, ◌||◌, String, false, Option, none, List, map, ◌≡◌, refl, ap, Bool-cases, inl, inr,
  if◌then◌else◌,
}
use mathlib.Core.Path.{fun_ext}
use exporter_plus.Mongodb.Calls.{Trace, sequence, when}
use exporter_plus.Mongodb.Collector.{
  MongodbCollectorOpts, Session, is_skipped, database_calls, for_databases, collect_database_status,
  collect_collections_of, collect_collection_status, collect_profile_of, collect_profile_status,
  collect_repl_set_status, collect_session,
}

abbrev pub is_hidden : String → Bool
is_hidden db = str_eq db "admin" || str_eq db "test"

-- The session, where "admin" and "test" have no statistics, no collections and no slow queries.
abbrev pub without_skipped : {F : Type 0} → Session F → Session F
without_skipped s = record s {
  db_stats = λ db. if is_hidden db then none else s.db_stats db;
  collection_names = λ db. if is_hidden db then none else s.collection_names db;
  coll_stats = λ db name. if is_hidden db then none else s.coll_stats db name;
  slow_queries = λ db. if is_hidden db then none else s.slow_queries db;
}

module _ {F : Type 0} where
  database_calls-agree :
      (f g : String → Trace F)
      → ((db : String) → is_skipped db ≡ false → f db ≡ g db)
      → (db : String) → database_calls f db ≡ database_calls g db
  database_calls-agree f g h db = elim (Bool-cases (is_skipped db)) [
    | inl e ↦ rw e refl
    | inr e ↦ rw e (h db e)
  ]

  for_databases-agree :
      (names : Option (List String)) (f g : String → Trace F)
      → ((db : String) → is_skipped db ≡ false → f db ≡ g db)
      → for_databases names f ≡ for_databases names g
  for_databases-agree names f g h =
      ap (λ (calls : String → Trace F). when names (λ all. sequence (map calls all)))
        (fun_ext (database_calls-agree f g h))

module _ {F : Type 0} (s : Session F) where
  collect_database_status-without :
      collect_database_status s ≡ collect_database_status (without_skipped s)
  unfolding collect_database_status
  collect_database_status-without = for_databases-agree _ _ _ (λ db e. rw e refl)

  collect_collection_status-without :
      collect_collection_status s ≡ collect_collection_status (without_skipped s)
  unfolding collect_collection_status collect_collections_of
  collect_collection_status-without = for_databases-agree _ _ _ (λ db e. rw e refl)

  collect_profile_status-without :
      collect_profile_status s ≡ collect_profile_status (without_skipped s)
  unfolding collect_profile_status collect_profile_of
  collect_profile_status-without = for_databases-agree _ _ _ (λ db e. rw e refl)

-- Whatever the server has in the databases "admin" and "test", a collection makes the calls that it
-- would make if these had no statistics, no collections and no slow queries.
pub collect_session-without :
    {F : Type 0} (s : Session F) (opts : MongodbCollectorOpts)
    → collect_session s opts ≡ collect_session (without_skipped s) opts
unfolding collect_session collect_repl_set_status
collect_session-without s opts =
    rw
      (
        collect_database_status-without s,
        collect_collection_status-without s,
        collect_profile_status-without s,
      )
      refl
