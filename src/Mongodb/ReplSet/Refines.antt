-- ===== src/Mongodb/ReplSet/Refines.antt =====
-- The calls of ReplSetStatus.Export, on any lawful registry, leave what `export_repl_set` says.
use exporter_plus.Prelude.{length, String, some, List, [], ◌∷◌, ◌≡◌, ◌∙◌, str_eq}
use exporter_plus.Prelude.Int.{pos}
use exporter_plus.Prelude.GoMap.{lookup}
use exporter_plus.Prelude.GoMap.Laws.{image}
use exporter_plus.Mongodb.Calls.{Vec, val, int}
use exporter_plus.Mongodb.Registry.{
  same_vec, same_labels, Registry, IsLawful, run, child-run, last_set,
}
use exporter_plus.Mongodb.ReplSet.{ReplSetStatus, Exported, export_repl_set}
use exporter_plus.Mongodb.ReplSet.Calls.{repl_set_calls}
use exporter_plus.Mongodb.ReplSet.Gauges.{
  my_state, my_replica_lag, master_count, term, number_of_members, heartbeat_interval_millis,
  member_health, member_state, member_uptime, member_optime_date, member_election_date,
  member_last_heartbeat, member_last_heartbeat_recv, member_ping_ms, member_config_version,
}
use exporter_plus.Mongodb.ReplSet.Rounds.{whole, own, own_opt, repl_set_calls-whole}
use exporter_plus.Mongodb.ReplSet.Loops.{
  member_state-Agrees, member_health-Agrees, member_uptime-Agrees, member_optime_date-Agrees,
  member_election_date-Agrees, member_last_heartbeat-Agrees, member_last_heartbeat_recv-Agrees,
  member_ping_ms-Agrees, member_config_version-Agrees, my_state-loop, term-loop,
  number_of_members-loop, heartbeat_interval_millis-loop,
}

module _ {F : Type 0} (r : Registry F) (h : IsLawful r) (s : ReplSetStatus F)
    (state : r.State) where
  abbrev after : r.State
  after = run r (repl_set_calls s) state

  run-whole : (w : Vec) (ms : List String) → r.child w ms after ≡ whole w ms s (r.child w ms state)
  run-whole w ms =
      child-run r h w ms (repl_set_calls s) state ∙ repl_set_calls-whole w ms s (r.child w ms state)

  abbrev spec : Exported F
  spec = export_repl_set s

  -- what the gauges hold after the export, against the specification
  pub record IsShown : Type 0 where
    pub member_state_shown :
        (key : String)
        → r.child member_state (s.set ∷ key ∷ []) after
          ≡ image int (lookup key spec.gauges.member_state)
    pub member_health_shown :
        (key : String)
        → r.child member_health (s.set ∷ key ∷ []) after
          ≡ image int (lookup key spec.gauges.member_health)
    pub member_uptime_shown :
        (key : String)
        → r.child member_uptime (s.set ∷ key ∷ []) after
          ≡ image val (lookup key spec.gauges.member_uptime)
    pub member_optime_date_shown :
        (key : String)
        → r.child member_optime_date (s.set ∷ key ∷ []) after
          ≡ image int (lookup key spec.gauges.member_optime_date)
    pub member_election_date_shown :
        (key : String)
        → r.child member_election_date (s.set ∷ key ∷ []) after
          ≡ image int (lookup key spec.gauges.member_election_date)
    pub member_last_heartbeat_shown :
        (key : String)
        → r.child member_last_heartbeat (s.set ∷ key ∷ []) after
          ≡ image int (lookup key spec.gauges.member_last_heartbeat)
    pub member_last_heartbeat_recv_shown :
        (key : String)
        → r.child member_last_heartbeat_recv (s.set ∷ key ∷ []) after
          ≡ image int (lookup key spec.gauges.member_last_heartbeat_recv)
    pub member_ping_ms_shown :
        (key : String)
        → r.child member_ping_ms (s.set ∷ key ∷ []) after
          ≡ image val (lookup key spec.gauges.member_ping_ms)
    pub member_config_version_shown :
        (key : String)
        → r.child member_config_version (s.set ∷ key ∷ []) after
          ≡ image int (lookup key spec.gauges.member_config_version)
    pub my_state_shown : r.child my_state (s.set ∷ []) after ≡ some (int spec.my_state)
    pub my_replica_lag_shown :
        r.child my_replica_lag (s.set ∷ []) after ≡ some (int spec.my_replica_lag)
    pub term_shown : r.child term (s.set ∷ []) after ≡ image int spec.term
    pub number_of_members_shown :
        r.child number_of_members (s.set ∷ []) after ≡ some (int (pos spec.number_of_members))
    pub heartbeat_interval_millis_shown :
        r.child heartbeat_interval_millis (s.set ∷ []) after
        ≡ image val spec.heartbeat_interval_millis
    pub master_count_shown : r.child master_count [] after ≡ some (int (pos spec.master_count))

  -- The calls of Export leave, in any lawful registry and whatever it held before, exactly the gauges
  -- that the status says: of each member those that it reports and of no other name any, and of the
  -- set its state, its lag, its numbers of members and primaries, and its term and its interval where
  -- it reports them.
  pub repl_set_calls-IsShown : IsShown
  unfolding same_vec same_labels str_eq export_repl_set last_set
  repl_set_calls-IsShown = record {
    member_state_shown =
        λ key. run-whole member_state (s.set ∷ key ∷ []) ∙ member_state-Agrees s key;
    member_health_shown =
        λ key. run-whole member_health (s.set ∷ key ∷ []) ∙ member_health-Agrees s key;
    member_uptime_shown =
        λ key. run-whole member_uptime (s.set ∷ key ∷ []) ∙ member_uptime-Agrees s key;
    member_optime_date_shown =
        λ key. run-whole member_optime_date (s.set ∷ key ∷ []) ∙ member_optime_date-Agrees s key;
    member_election_date_shown = λ key.
        run-whole member_election_date (s.set ∷ key ∷ []) ∙ member_election_date-Agrees s key;
    member_last_heartbeat_shown = λ key.
        run-whole member_last_heartbeat (s.set ∷ key ∷ []) ∙ member_last_heartbeat-Agrees s key;
    member_last_heartbeat_recv_shown = λ key.
        run-whole member_last_heartbeat_recv (s.set ∷ key ∷ [])
        ∙ member_last_heartbeat_recv-Agrees s key;
    member_ping_ms_shown =
        λ key. run-whole member_ping_ms (s.set ∷ key ∷ []) ∙ member_ping_ms-Agrees s key;
    member_config_version_shown = λ key.
        run-whole member_config_version (s.set ∷ key ∷ []) ∙ member_config_version-Agrees s key;
    my_state_shown =
        run-whole my_state (s.set ∷ []) ∙ my_state-loop s _ ∙ own_opt s.set (some (int s.my_state));
    my_replica_lag_shown = run-whole my_replica_lag (s.set ∷ []) ∙ own s.set _ _;
    term_shown = run-whole term (s.set ∷ []) ∙ term-loop s _ ∙ own_opt s.set (image int s.term);
    number_of_members_shown =
        run-whole number_of_members (s.set ∷ [])
        ∙ number_of_members-loop s _
        ∙ own_opt s.set (some (int (pos (length s.members))));
    heartbeat_interval_millis_shown =
        run-whole heartbeat_interval_millis (s.set ∷ [])
        ∙ heartbeat_interval_millis-loop s _
        ∙ own_opt s.set (image val s.heartbeat_interval_millis);
    master_count_shown = run-whole master_count [];
  }
