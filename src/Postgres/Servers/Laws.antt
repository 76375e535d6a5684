-- ===== src/Postgres/Servers/Laws.antt =====
-- GetServer hands out only servers that answer, and loses no connection.
use exporter_plus.Prelude.{
  ℕ, suc, ◌+◌, String, ◌≡◌, ◌≢◌, refl, ◌∙◌, ap, sym, true, Bool-cases, Option-cases, inl, inr, none,
  some, arith, length, str_eq_refl, str_eq_of_ne,
}
use exporter_plus.Prelude.GoMap.{GoMap, lookup, insert}
use exporter_plus.Prelude.GoMap.Laws.{
  IsMap, IsMap-insert, IsMap-delete, lookup-insert_self, lookup-insert, lookup-delete,
  length-insert_new, length-delete_bound,
}
use exporter_plus.Prelude.Outcome.{Outcome, ok, err, panic, ok_inj}
use exporter_plus.Postgres.Servers.{
  Driver, Server, Servers, new_server, checked, opened, get_server,
}

module _ {V D F : Type 0} (driver : Driver D F) (zero_version : V) (constant_labels : GoMap String)
    (dsn : String) where
  -- What holds after GetServer, of its result and the pool: a server that it returns answers, and
  -- is the one that the pool has for the data source; after an error the pool has none for it. The
  -- other data sources keep their servers, and keys stay distinct.
  pub record IsServed (before : Servers V D F) (result : Outcome (Server V D F) × Servers V D F)
      : Type 0 where
    pub served :
        (server : Server V D F)
        → result.0 ≡ ok server
        → (driver.pings server.db ≡ true) × (lookup dsn result.1.servers ≡ some server)
    pub failed : (e : String) → result.0 ≡ err e → lookup dsn result.1.servers ≡ none
    pub others : (j : String) → dsn ≢ j → lookup j result.1.servers ≡ lookup j before.servers
    pub distinct : IsMap result.1.servers

  checked-IsServed :
      (server : Server V D F) (before s : Servers V D F)
      → lookup dsn s.servers ≡ some server
      → IsMap s.servers
      → ((j : String) → dsn ≢ j → lookup j s.servers ≡ lookup j before.servers)
      → IsServed before (checked driver zero_version constant_labels dsn server s)
  unfolding checked
  checked-IsServed server before s has distinct others =
      elim (Bool-cases (driver.pings server.db)) [
        | inl e ↦ rw e (record {
          served = λ t q.
              let same = ok_inj q in
              (ap (λ (x : Server V D F). driver.pings x.db) (sym same) ∙ e, has ∙ ap some same);
          failed = λ m q. cc q;
          others = others;
          distinct = distinct;
        })
        | inr e ↦ rw e (record {
          served = λ t q. cc q;
          failed = λ m q. lookup-delete dsn dsn s.servers ∙ rw (str_eq_refl dsn);
          others = λ j ne. lookup-delete dsn j s.servers ∙ rw (str_eq_of_ne dsn j ne) (others j ne);
          distinct = IsMap-delete dsn s.servers distinct;
        })
      ]

  opened-IsServed :
      (o : Outcome (Server V D F)) (s : Servers V D F)
      → lookup dsn s.servers ≡ none
      → IsMap s.servers
      → IsServed s (opened driver zero_version constant_labels dsn o s)
  opened-IsServed (ok server) s missing distinct =
      checked-IsServed server s (record s { servers = insert dsn server s.servers })
        (lookup-insert_self dsn server s.servers) (IsMap-insert dsn server s.servers distinct)
        (λ j ne. lookup-insert dsn j server s.servers ∙ rw (str_eq_of_ne dsn j ne))
  opened-IsServed (err e) s missing distinct = record {
    served = λ t q. cc q;
    failed = λ m q. missing;
    others = λ j ne. refl;
    distinct = distinct;
  }
  opened-IsServed (panic e) s missing distinct = record {
    served = λ t q. cc q;
    failed = λ m q. missing;
    others = λ j ne. refl;
    distinct = distinct;
  }

  -- From a pool with distinct data sources, GetServer returns only a server that answers a ping and
  -- that the pool then has for the data source; after an error the pool has none for it; and every
  -- other data source keeps its server.
  pub get_server-IsServed :
      (s : Servers V D F)
      → IsMap s.servers
      → IsServed s (get_server driver zero_version constant_labels dsn s)
  unfolding get_server
  get_server-IsServed s distinct = elim (Option-cases (lookup dsn s.servers)) [
    | inl missing ↦
        rw missing
          (opened-IsServed (new_server driver zero_version constant_labels dsn) s missing distinct)
    | inr (server, has) ↦ rw has (checked-IsServed server s s has distinct (λ j ne. refl))
  ]

  -- How many connections the pool has, open or closed.
  abbrev pub total : Servers V D F → ℕ
  total s = length s.servers + length s.closed

  checked-total :
      (server : Server V D F) (s : Servers V D F)
      → lookup dsn s.servers ≡ some server
      → IsMap s.servers
      → total (checked driver zero_version constant_labels dsn server s).1 ≡ total s
  unfolding checked
  checked-total server s has distinct = elim (Bool-cases (driver.pings server.db)) [
    | inl e ↦ rw e
    | inr e ↦ rw e (omega (arith, length-delete_bound dsn server s.servers distinct has))
  ]

  -- No connection is lost: one that leaves the pool has been closed. GetServer for a known data
  -- source keeps the number of connections, open and closed together; for a new one the number
  -- grows by the connection that NewServer made, or stays if it failed.
  pub get_server-total :
      (s : Servers V D F)
      → IsMap s.servers
      → (lookup dsn s.servers ≢ none
          → total (get_server driver zero_version constant_labels dsn s).1 ≡ total s)
        × (lookup dsn s.servers ≡ none
            → (server : Server V D F)
            → new_server driver zero_version constant_labels dsn ≡ ok server
            → total (get_server driver zero_version constant_labels dsn s).1 ≡ suc (total s))
        × (lookup dsn s.servers ≡ none
            → (e : String) → new_server driver zero_version constant_labels dsn ≡ err e
            → (get_server driver zero_version constant_labels dsn s).1 ≡ s)
  unfolding get_server
  get_server-total s distinct = (
    λ known. elim (Option-cases (lookup dsn s.servers)) [
      | inl missing ↦ absurd (known missing)
      | inr (server, has) ↦ rw has (checked-total server s has distinct)
    ],
    λ missing server made.
        rw (missing, made)
          (checked-total server (record s { servers = insert dsn server s.servers })
              (lookup-insert_self dsn server s.servers) (IsMap-insert dsn server s.servers distinct)
            ∙ omega (arith, length-insert_new dsn server s.servers missing)),
    λ missing e failed. rw (missing, failed),
  )
