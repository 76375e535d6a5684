-- ===== src/Mongodb/ReplSet/Calls.antt =====
-- ReplSetStatus.Export and Describe of collector/mongodb/replset_status.go, as the calls that they make.
use exporter_plus.Prelude.{
  String, true, Option, none, some, List, [], ◌∷◌, ◌++◌, map, each, length, ◌≡◌, refl, arith,
}
use exporter_plus.Prelude.Int.{pos}
use exporter_plus.Mongodb.Calls.{ok}
use exporter_plus.Mongodb.Calls.{Vec, Value, val, int, Call, set, collect, reset}
use exporter_plus.Mongodb.Calls.Fits.{IsFit, all_fit, all_fit-append, all_fit-each}
use exporter_plus.Mongodb.ReplSet.{
  Time, Member, ReplSetStatus, Scan, scan_members, start, replica_lag,
}
use exporter_plus.Mongodb.ReplSet.Gauges.{
  my_state, my_replica_lag, master_count, term, number_of_members, heartbeat_interval_millis,
  member_health, member_state, member_uptime, member_optime_date, member_election_date,
  member_last_heartbeat, member_last_heartbeat_recv, member_ping_ms, member_config_version,
}

module _ {F : Type 0} where
  -- if p != nil { vec.With(ls).Set(x(*p)) }
  abbrev pub set_opt : {A : Type 0} → Vec → List String → Option A → (A → Value F) → List (Call F)
  set_opt v ls none x = []
  set_opt v ls (some a) x = set v ls (x a) ∷ []

  abbrev pub seconds : Time → Value F
  seconds t = int t.unix

  -- what a round of the loop sets, apart from its variables; the labels are those of With(ls), in
  -- the order of the vectors
  unfoldable pub member_calls : String → Member F → List (Call F)
  member_calls id m =
      let ls = id ∷ m.name ∷ [] in
      set member_state ls (int m.state)
      ∷ (set_opt member_health ls m.health int
          ++ (set member_uptime ls (val m.uptime)
              ∷ set member_optime_date ls (seconds m.optime_date)
              ∷ (set_opt member_election_date ls m.election_date seconds
                  ++ (set_opt member_last_heartbeat ls m.last_heartbeat seconds
                      ++ (set_opt member_last_heartbeat_recv ls m.last_heartbeat_recv seconds
                          ++ (set_opt member_ping_ms ls m.ping_ms val
                              ++ set_opt member_config_version ls m.config_version int))))))

  -- what is set after the loop, from its variables
  abbrev pub scan_calls : String → Scan F → List (Call F)
  scan_calls id s =
      set my_replica_lag (id ∷ []) (int (replica_lag s.primary_op_time s.my_op_time))
      ∷ set master_count [] (int (pos s.m_count))
      ∷ []

  abbrev pub repl_set_resets : List (Call F)
  repl_set_resets = map reset (
      my_state ∷ my_replica_lag ∷ term ∷ number_of_members ∷ heartbeat_interval_millis
      ∷ member_state ∷ member_health ∷ member_uptime ∷ member_optime_date ∷ member_election_date
      ∷ member_last_heartbeat ∷ member_last_heartbeat_recv ∷ member_ping_ms ∷ member_config_version
      ∷ master_count ∷ [])

  abbrev pub repl_set_collects : List (Call F)
  repl_set_collects = map collect (
      my_state ∷ my_replica_lag ∷ term ∷ number_of_members ∷ heartbeat_interval_millis
      ∷ member_state ∷ master_count ∷ member_health ∷ member_uptime ∷ member_optime_date
      ∷ member_election_date ∷ member_last_heartbeat ∷ member_last_heartbeat_recv ∷ member_ping_ms
      ∷ member_config_version ∷ [])

  unfoldable pub repl_set_calls : ReplSetStatus F → List (Call F)
  repl_set_calls s =
      let id = s.set in
      repl_set_resets
      ++ (set my_state (id ∷ []) (int s.my_state)
          ∷ (set_opt term (id ∷ []) s.term int
              ++ (set number_of_members (id ∷ []) (int (pos (length s.members)))
                  ∷ (set_opt heartbeat_interval_millis (id ∷ []) s.heartbeat_interval_millis val
                      ++ (each (member_calls id) s.members
                          ++ (scan_calls id (scan_members s.members start)
                              ++ repl_set_collects))))))

unfoldable pub describe_repl_set_status : List Vec
describe_repl_set_status =
    my_state ∷ my_replica_lag ∷ term ∷ number_of_members ∷ heartbeat_interval_millis ∷ member_state
    ∷ member_health ∷ member_uptime ∷ member_optime_date ∷ member_election_date
    ∷ member_last_heartbeat_recv ∷ member_ping_ms ∷ member_config_version ∷ []

all_fit-set_opt :
    {F A : Type 0} (v : Vec) (ls : List String) (o : Option A) (x : A → Value F)
    → length v.labels ≡ length ls
    → all_fit (set_opt v ls o x) ≡ true
all_fit-set_opt v ls none x h = refl
all_fit-set_opt v ls (some a) x h = ground (arith)

all_fit-member_calls :
    {F : Type 0} (id : String) (m : Member F) → all_fit (member_calls id m) ≡ true
unfolding member_calls
all_fit-member_calls id m =
    let ls = id ∷ m.name ∷ [] in
    all_fit-append (set_opt member_health ls m.health int) _ (all_fit-set_opt _ ls m.health _ refl)
      (all_fit-append (set_opt member_election_date ls m.election_date seconds) _
        (all_fit-set_opt _ ls m.election_date _ refl)
        (all_fit-append (set_opt member_last_heartbeat ls m.last_heartbeat seconds) _
          (all_fit-set_opt _ ls m.last_heartbeat _ refl)
          (all_fit-append (set_opt member_last_heartbeat_recv ls m.last_heartbeat_recv seconds) _
            (all_fit-set_opt _ ls m.last_heartbeat_recv _ refl)
            (all_fit-append (set_opt member_ping_ms ls m.ping_ms val) _
              (all_fit-set_opt _ ls m.ping_ms _ refl)
              (all_fit-set_opt _ ls m.config_version _ refl)))))

pub repl_set_calls-IsFit : {F : Type 0} (s : ReplSetStatus F) → IsFit (ok (repl_set_calls s))
unfolding repl_set_calls
repl_set_calls-IsFit s =
    let id = s.set in
    all_fit-append (set_opt term (id ∷ []) s.term int) _ (all_fit-set_opt _ (id ∷ []) s.term _ refl)
      (all_fit-append (set_opt heartbeat_interval_millis (id ∷ []) s.heartbeat_interval_millis val)
        _ (all_fit-set_opt _ (id ∷ []) s.heartbeat_interval_millis _ refl)
        (all_fit-append (each (member_calls id) s.members) _
          (all_fit-each (member_calls id) (all_fit-member_calls id) s.members) refl))
