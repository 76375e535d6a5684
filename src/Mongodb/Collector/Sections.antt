-- ===== src/Mongodb/Collector/Sections.antt =====
-- When the sections of a MongoDB collection panic.
use exporter_plus.Prelude.{
  String, Bool, true, false, ◌||◌, Option, none, some, List, [], ◌∷◌, map, ◌≡◌, refl, sym, ◌∙◌,
  arith, Bool-cases, inl, inr,
}
use exporter_plus.Mongodb.Calls.{Trace}
use exporter_plus.Mongodb.Calls.Returns.{
  has, if_any, every, returns, returns-sequence, returns-when, returns-deref, returns-when_always,
  returns-map,
}
use exporter_plus.Mongodb.Oplog.{OplogStatus}
use exporter_plus.Mongodb.Oplog.Calls.{oplog_calls}
use exporter_plus.Mongodb.Pools.{
  ConnPoolStats, HostConnPoolStats, export_host_conn_pool_stats, host_calls, export_conn_pool_stats,
}
use exporter_plus.Mongodb.Databases.{
  RawStatus, DatabaseStatus, shard_calls, status_calls, export_database_status,
}
use exporter_plus.Mongodb.Collections.{
  CollWiredTigerStats, CollectionStatus, export_coll_wt_block_manager_stats,
  export_coll_wt_cache_stats, export_coll_wt_transaction_stats, export_coll_wt_session_stats,
  export_coll_wired_tiger_stats, export_collection_status,
}
use exporter_plus.Mongodb.Collector.{is_skipped, enabled, database_calls, for_databases}

abbrev pub has_shards : DatabaseStatus → Bool
has_shards d = every (λ (shard : String × Option RawStatus). has shard.1) d.shards

abbrev pub has_hosts : {F : Type 0} → ConnPoolStats F → Bool
has_hosts p = every (λ (host : String × Option (HostConnPoolStats _)). has host.1) p.hosts

-- what a loop over the databases needs of each of them
abbrev pub every_database : (String → Bool) → List String → Bool
every_database g = every (λ db. is_skipped db || g db)

-- !option || …
abbrev pub if_enabled : Bool → Bool → Bool
if_enabled true b = b
if_enabled false b = true

pub or_true : (b : Bool) → (b || true) ≡ true
or_true true = refl
or_true false = refl

pub every_or_true : (xs : List String) → every_database (λ _. true) xs ≡ true
every_or_true [] = refl
every_or_true (x ∷ xs) = rw (or_true (is_skipped x)) (every_or_true xs)

pub status_returns :
    (F : Type 0) (s : DatabaseStatus) (shards : List (String × Option RawStatus))
    → returns (status_calls {F = F} s shards)
      ≡ every (λ (shard : String × Option RawStatus). has shard.1) shards
status_returns F s [] = refl
status_returns F s (x ∷ xs) =
    returns-map shard_calls (λ (shard : String × Option RawStatus). has shard.1)
      (λ (shard : String × Option RawStatus). returns-deref shard.1 _ (λ _. true) (λ _. refl))
      (x ∷ xs)

pub database_returns :
    (F : Type 0) (s : DatabaseStatus) → returns (export_database_status {F = F} s) ≡ has_shards s
unfolding export_database_status
database_returns F s = returns-sequence _ ∙ ground (arith, status_returns F s s.shards)

pub oplog_returns : {F : Type 0} (o : OplogStatus F) → returns (oplog_calls o) ≡ true
unfolding oplog_calls
oplog_returns o = returns-sequence _

module _ {F : Type 0} where
  pub pools_return : (p : ConnPoolStats F) → returns (export_conn_pool_stats p) ≡ has_hosts p
  unfolding export_conn_pool_stats export_host_conn_pool_stats
  pools_return p =
      returns-sequence _
      ∙ sym (returns-sequence (map host_calls p.hosts))
      ∙ returns-map host_calls (λ (host : String × Option (HostConnPoolStats F)). has host.1)
          (λ (host : String × Option (HostConnPoolStats F)).
            returns-deref host.1 _ (λ _. true) (λ _. refl))
          p.hosts

  pub wired_tiger_returns :
      (w : CollWiredTigerStats F) (name : String)
      → returns (export_coll_wired_tiger_stats w name) ≡ true
  unfolding export_coll_wired_tiger_stats export_coll_wt_block_manager_stats
      export_coll_wt_cache_stats export_coll_wt_transaction_stats export_coll_wt_session_stats
  wired_tiger_returns w name =
      returns-sequence _
      ∙ ground (
        arith,
        returns-when_always w.block_manager (λ stats. export_coll_wt_block_manager_stats stats name)
            (λ _. refl),
        returns-when_always w.cache (λ stats. export_coll_wt_cache_stats stats name) (λ _. refl),
        returns-when_always w.transaction (λ stats. export_coll_wt_transaction_stats stats name)
            (λ _. refl),
        returns-when_always w.session (λ stats. export_coll_wt_session_stats stats name)
            (λ _. refl),
      )

  pub collection_returns : (s : CollectionStatus F) → returns (export_collection_status s) ≡ true
  unfolding export_collection_status
  collection_returns s =
      returns-sequence _
      ∙ ground (
        arith,
        returns-when_always s.wired_tiger (λ stats. export_coll_wired_tiger_stats stats s.name)
            (λ w. wired_tiger_returns w s.name),
      )

  pub database_calls_return :
      (f : String → Trace F) (g : String → Bool)
      → ((db : String) → returns (f db) ≡ g db)
      → (db : String) → returns (database_calls f db) ≡ (is_skipped db || g db)
  database_calls_return f g h db = elim (Bool-cases (is_skipped db)) [
    | inl e ↦ rw e refl
    | inr e ↦ rw e (h db)
  ]

  pub for_databases_return :
      (names : Option (List String)) (f : String → Trace F) (g : String → Bool)
      → ((db : String) → returns (f db) ≡ g db)
      → returns (for_databases names f) ≡ if_any names (every_database g)
  for_databases_return names f g h =
      returns-when names _ (every_database g)
        (returns-map (database_calls f) _ (database_calls_return f g h))

  pub for_databases_always :
      (names : Option (List String)) (f : String → Trace F)
      → ((db : String) → returns (f db) ≡ true)
      → returns (for_databases names f) ≡ true
  for_databases_always none f h = refl
  for_databases_always (some names) f h =
      returns-map (database_calls f) _ (database_calls_return f (λ _. true) h) names
      ∙ every_or_true names

  pub returns-enabled :
      (option : Bool) (t : Trace F) (b : Bool)
      → returns t ≡ b
      → returns (enabled option t) ≡ if_enabled option b
  returns-enabled true t b h = h
  returns-enabled false t b h = refl

  pub returns-enabled_always :
      (option : Bool) (t : Trace F) → returns t ≡ true → returns (enabled option t) ≡ true
  returns-enabled_always true t h = h
  returns-enabled_always false t h = refl
