-- ===== src/Mongodb/ReplSet/Rounds.antt =====
-- What the calls of ReplSetStatus.Export do to any one gauge, call by call, and over the loop.
use exporter_plus.Prelude.{
  length, String, Bool, true, false, ◌&&◌, Option, none, some, List, [], ◌∷◌, ◌++◌, each, ◌≡◌, refl,
  ap, ◌∙◌, arith, str_eq, str_eq_refl, Bool-cases, inl, inr,
}
use exporter_plus.Prelude.Int.{pos}
use exporter_plus.Prelude.GoMap.{GoMap, lookup, insert}
use exporter_plus.Prelude.GoMap.Laws.{image, lookup-insert}
use exporter_plus.Mongodb.Calls.{Vec, Value, val, int, Call}
use exporter_plus.Mongodb.Registry.{same_child, last_set, last_set-append}
use exporter_plus.Mongodb.ReplSet.{
  Member, ReplSetStatus, MemberGauges, Scan, set_if, set_member, scan_member, scan_members, start,
  replica_lag,
}
use exporter_plus.Mongodb.ReplSet.Calls.{
  set_opt, seconds, member_calls, repl_set_resets, repl_set_calls,
}
use exporter_plus.Mongodb.ReplSet.Gauges.{
  my_state, my_replica_lag, master_count, term, number_of_members, heartbeat_interval_millis,
  member_health, member_state, member_uptime, member_optime_date, member_election_date,
  member_last_heartbeat, member_last_heartbeat_recv, member_ping_ms, member_config_version,
}

module _ {F : Type 0} where
  abbrev pub or_now : Bool → Option (Value F) → Option (Value F) → Option (Value F)
  or_now true (some x) now = some x
  or_now true none now = now
  or_now false x now = now

  set_opt-one :
      {A : Type 0} (w : Vec) (ms : List String) (v : Vec) (ls : List String) (o : Option A)
      (x : A → Value F) (now : Option (Value F))
      → last_set w ms (set_opt v ls o x) now ≡ or_now (same_child v ls w ms) (image x o) now
  unfolding last_set
  set_opt-one w ms v ls none x now = elim (Bool-cases (same_child v ls w ms)) [
    | inl e ↦ rw e refl
    | inr e ↦ rw e refl
  ]
  set_opt-one w ms v ls (some a) x now = elim (Bool-cases (same_child v ls w ms)) [
    | inl e ↦ rw e refl
    | inr e ↦ rw e refl
  ]

  set_opt-any :
      {A : Type 0} (w : Vec) (ms : List String) (v : Vec) (ls : List String) (o : Option A)
      (x : A → Value F) (cs : List (Call F)) (now : Option (Value F))
      → last_set w ms (set_opt v ls o x ++ cs) now
        ≡ last_set w ms cs (or_now (same_child v ls w ms) (image x o) now)
  set_opt-any w ms v ls o x cs now =
      last_set-append w ms (set_opt v ls o x) cs now
      ∙ ap (last_set w ms cs) (set_opt-one w ms v ls o x now)

  -- what a round of the loop does to any one gauge
  abbrev pub round : Vec → List String → String → Member F → Option (Value F) → Option (Value F)
  round w ms id m now =
      let ls = id ∷ m.name ∷ [] in
      let a = or_now (same_child member_state ls w ms) (some (int m.state)) now in
      let b = or_now (same_child member_health ls w ms) (image int m.health) a in
      let c = or_now (same_child member_uptime ls w ms) (some (val m.uptime)) b in
      let d = or_now (same_child member_optime_date ls w ms) (some (seconds m.optime_date)) c in
      let e = or_now (same_child member_election_date ls w ms) (image seconds m.election_date) d in
      let f =
        or_now (same_child member_last_heartbeat ls w ms) (image seconds m.last_heartbeat) e in
      let g =
        or_now (same_child member_last_heartbeat_recv ls w ms) (image seconds m.last_heartbeat_recv)
          f in
      let h = or_now (same_child member_ping_ms ls w ms) (image val m.ping_ms) g in
      or_now (same_child member_config_version ls w ms) (image int m.config_version) h

  member_calls-round :
      (w : Vec) (ms : List String) (id : String) (m : Member F) (now : Option (Value F))
      → last_set w ms (member_calls id m) now ≡ round w ms id m now
  unfolding member_calls
  member_calls-round w ms id m now =
      let ls = id ∷ m.name ∷ [] in
      set_opt-any w ms member_state ls (some m.state) int _ now
      ∙ set_opt-any w ms member_health ls m.health int _ _
      ∙ set_opt-any w ms member_uptime ls (some m.uptime) val _ _
      ∙ set_opt-any w ms member_optime_date ls (some m.optime_date) seconds _ _
      ∙ set_opt-any w ms member_election_date ls m.election_date seconds _ _
      ∙ set_opt-any w ms member_last_heartbeat ls m.last_heartbeat seconds _ _
      ∙ set_opt-any w ms member_last_heartbeat_recv ls m.last_heartbeat_recv seconds _ _
      ∙ set_opt-any w ms member_ping_ms ls m.ping_ms val _ _
      ∙ set_opt-one w ms member_config_version ls m.config_version int _

  -- the loop, where a round does to the gauge what `set_member` does to the map
  pub loop-agrees :
      (w : Vec) (ms : List String) (id : String) (held : MemberGauges F → Option (Value F))
      → ((m : Member F) (g : MemberGauges F) → round w ms id m (held g) ≡ held (set_member m g))
      → (members : List (Member F)) (s : Scan F)
      → last_set w ms (each (member_calls id) members) (held s.gauges)
        ≡ held (scan_members members s).gauges
  unfolding scan_members scan_member
  loop-agrees w ms id held h [] s = unfold last_set in refl
  loop-agrees w ms id held h (m ∷ members) s =
      last_set-append w ms (member_calls id m) (each (member_calls id) members) (held s.gauges)
      ∙ ap (last_set w ms (each (member_calls id) members))
          (member_calls-round w ms id m (held s.gauges) ∙ h m s.gauges)
      ∙ loop-agrees w ms id held h members (scan_member m s)

  pub own :
      (id : String) (x : Value F) (now : Option (Value F))
      → or_now (str_eq id id && true) (some x) now ≡ some x
  own id x now = rw (str_eq_refl id) refl

  pub own_opt : (id : String) (o : Option (Value F)) → or_now (str_eq id id && true) o none ≡ o
  own_opt id none = rw (str_eq_refl id) refl
  own_opt id (some x) = own id x none

  -- a map of the specification, where the round matches it
  pub insert-agrees :
      {V : Type 0} (x : V → Value F) (id name key : String) (v : V) (g : GoMap V)
      → or_now (str_eq id id && (str_eq name key && true)) (some (x v)) (image x (lookup key g))
        ≡ image x (lookup key (insert name v g))
  insert-agrees x id name key v g = rw (str_eq_refl id, lookup-insert name key v g) (ground arith)

  pub set_if-agrees :
      {A V : Type 0} (x : V → Value F) (f : A → V) (id name key : String) (o : Option A)
      (g : GoMap V)
      → or_now
          (str_eq id id && (str_eq name key && true))
          (image (λ a. x (f a)) o)
          (image x (lookup key g))
        ≡ image x (lookup key (set_if f o name g))
  set_if-agrees x f id name key none g = rw (str_eq_refl id) (ground arith)
  set_if-agrees x f id name key (some a) g = insert-agrees x id name key (f a) g

  -- what all the calls do to any one gauge
  abbrev pub whole : Vec → List String → ReplSetStatus F → Option (Value F) → Option (Value F)
  whole w ms s now =
      let ls = s.set ∷ [] in
      let scan = scan_members s.members start in
      let a = last_set w ms repl_set_resets now in
      let b = or_now (same_child my_state ls w ms) (some (int s.my_state)) a in
      let c = or_now (same_child term ls w ms) (image int s.term) b in
      let d =
        or_now (same_child number_of_members ls w ms) (some (int (pos (length s.members)))) c in
      let e =
        or_now (same_child heartbeat_interval_millis ls w ms)
          (image val s.heartbeat_interval_millis) d in
      let f = last_set w ms (each (member_calls s.set) s.members) e in
      let g =
        or_now (same_child my_replica_lag ls w ms)
          (some (int (replica_lag scan.primary_op_time scan.my_op_time))) f in
      or_now (same_child master_count [] w ms) (some (int (pos scan.m_count))) g

  pub repl_set_calls-whole :
      (w : Vec) (ms : List String) (s : ReplSetStatus F) (now : Option (Value F))
      → last_set w ms (repl_set_calls s) now ≡ whole w ms s now
  unfolding repl_set_calls
  repl_set_calls-whole w ms s now =
      let ls = s.set ∷ [] in
      let scan = scan_members s.members start in
      last_set-append w ms repl_set_resets _ now
      ∙ set_opt-any w ms my_state ls (some s.my_state) int _ _
      ∙ set_opt-any w ms term ls s.term int _ _
      ∙ set_opt-any w ms number_of_members ls (some (pos (length s.members))) int _ _
      ∙ set_opt-any w ms heartbeat_interval_millis ls s.heartbeat_interval_millis val _ _
      ∙ last_set-append w ms (each (member_calls s.set) s.members) _ _
      ∙ set_opt-any w ms my_replica_lag ls (some (replica_lag scan.primary_op_time scan.my_op_time))
          int _ _
      ∙ set_opt-any w ms master_count [] (some (pos scan.m_count)) int _ _
      ∙ unfold last_set in refl
