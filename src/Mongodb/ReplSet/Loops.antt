-- ===== src/Mongodb/ReplSet/Loops.antt =====
-- What the calls of the loop over the members of a replica set leave in each vector.
use exporter_plus.Prelude.{String, Option, none, [], ◌∷◌, each, ◌≡◌, refl, str_eq}
use exporter_plus.Prelude.GoMap.{lookup}
use exporter_plus.Prelude.GoMap.Laws.{image}
use exporter_plus.Mongodb.Calls.{Vec, Value, val, int}
use exporter_plus.Mongodb.Registry.{same_vec, same_labels, last_set}
use exporter_plus.Mongodb.ReplSet.{
  Time, ReplSetStatus, MemberGauges, set_member, scan_members, start,
}
use exporter_plus.Mongodb.ReplSet.Calls.{member_calls}
use exporter_plus.Mongodb.ReplSet.Gauges.{
  my_state, term, number_of_members, heartbeat_interval_millis, member_health, member_state,
  member_uptime, member_optime_date, member_election_date, member_last_heartbeat,
  member_last_heartbeat_recv, member_ping_ms, member_config_version,
}
use exporter_plus.Mongodb.ReplSet.Rounds.{insert-agrees, set_if-agrees, loop-agrees}

module _ {F : Type 0} (s : ReplSetStatus F) where
  abbrev pub Agrees : Vec → String → (MemberGauges F → Option (Value F)) → Type 0
  Agrees w key held =
      last_set w (s.set ∷ key ∷ []) (each (member_calls s.set) s.members) none
      ≡ held (scan_members s.members start).gauges

  pub member_state-Agrees :
      (key : String) → Agrees member_state key (λ g. image int (lookup key g.member_state))
  unfolding same_vec same_labels str_eq set_member lookup
  member_state-Agrees key =
      loop-agrees member_state (s.set ∷ key ∷ []) s.set (λ g. image int (lookup key g.member_state))
        (λ m g. insert-agrees int s.set m.name key m.state g.member_state) s.members start

  pub member_health-Agrees :
      (key : String) → Agrees member_health key (λ g. image int (lookup key g.member_health))
  unfolding same_vec same_labels str_eq set_member lookup
  member_health-Agrees key =
      loop-agrees member_health (s.set ∷ key ∷ []) s.set
        (λ g. image int (lookup key g.member_health))
        (λ m g. set_if-agrees int (λ h. h) s.set m.name key m.health g.member_health) s.members
        start

  pub member_uptime-Agrees :
      (key : String) → Agrees member_uptime key (λ g. image val (lookup key g.member_uptime))
  unfolding same_vec same_labels str_eq set_member lookup
  member_uptime-Agrees key =
      loop-agrees member_uptime (s.set ∷ key ∷ []) s.set
        (λ g. image val (lookup key g.member_uptime))
        (λ m g. insert-agrees val s.set m.name key m.uptime g.member_uptime) s.members start

  pub member_optime_date-Agrees :
      (key : String)
      → Agrees member_optime_date key (λ g. image int (lookup key g.member_optime_date))
  unfolding same_vec same_labels str_eq set_member lookup
  member_optime_date-Agrees key =
      loop-agrees member_optime_date (s.set ∷ key ∷ []) s.set
        (λ g. image int (lookup key g.member_optime_date))
        (λ m g. insert-agrees int s.set m.name key m.optime_date.unix g.member_optime_date)
        s.members start

  pub member_election_date-Agrees :
      (key : String)
      → Agrees member_election_date key (λ g. image int (lookup key g.member_election_date))
  unfolding same_vec same_labels str_eq set_member lookup
  member_election_date-Agrees key =
      loop-agrees member_election_date (s.set ∷ key ∷ []) s.set
        (λ g. image int (lookup key g.member_election_date))
        (λ m g.
          set_if-agrees int (λ (t : Time). t.unix) s.set m.name key m.election_date
            g.member_election_date)
        s.members start

  pub member_last_heartbeat-Agrees :
      (key : String)
      → Agrees member_last_heartbeat key (λ g. image int (lookup key g.member_last_heartbeat))
  unfolding same_vec same_labels str_eq set_member lookup
  member_last_heartbeat-Agrees key =
      loop-agrees member_last_heartbeat (s.set ∷ key ∷ []) s.set
        (λ g. image int (lookup key g.member_last_heartbeat))
        (λ m g.
          set_if-agrees int (λ (t : Time). t.unix) s.set m.name key m.last_heartbeat
            g.member_last_heartbeat)
        s.members start

  pub member_last_heartbeat_recv-Agrees :
      (key : String)
      → Agrees member_last_heartbeat_recv key
          (λ g. image int (lookup key g.member_last_heartbeat_recv))
  unfolding same_vec same_labels str_eq set_member lookup
  member_last_heartbeat_recv-Agrees key =
      loop-agrees member_last_heartbeat_recv (s.set ∷ key ∷ []) s.set
        (λ g. image int (lookup key g.member_last_heartbeat_recv))
        (λ m g.
          set_if-agrees int (λ (t : Time). t.unix) s.set m.name key m.last_heartbeat_recv
            g.member_last_heartbeat_recv)
        s.members start

  pub member_ping_ms-Agrees :
      (key : String) → Agrees member_ping_ms key (λ g. image val (lookup key g.member_ping_ms))
  unfolding same_vec same_labels str_eq set_member lookup
  member_ping_ms-Agrees key =
      loop-agrees member_ping_ms (s.set ∷ key ∷ []) s.set
        (λ g. image val (lookup key g.member_ping_ms))
        (λ m g. set_if-agrees val (λ p. p) s.set m.name key m.ping_ms g.member_ping_ms) s.members
        start

  pub member_config_version-Agrees :
      (key : String)
      → Agrees member_config_version key (λ g. image int (lookup key g.member_config_version))
  unfolding same_vec same_labels str_eq set_member lookup
  member_config_version-Agrees key =
      loop-agrees member_config_version (s.set ∷ key ∷ []) s.set
        (λ g. image int (lookup key g.member_config_version))
        (λ m g.
          set_if-agrees int (λ v. v) s.set m.name key m.config_version g.member_config_version)
        s.members start

  pub my_state-loop :
      (now : Option (Value F))
      → last_set my_state (s.set ∷ []) (each (member_calls s.set) s.members) now ≡ now
  unfolding same_vec same_labels str_eq
  my_state-loop now =
      loop-agrees my_state (s.set ∷ []) s.set (λ _. now) (λ m g. refl) s.members start

  pub term-loop :
      (now : Option (Value F))
      → last_set term (s.set ∷ []) (each (member_calls s.set) s.members) now ≡ now
  unfolding same_vec same_labels str_eq
  term-loop now = loop-agrees term (s.set ∷ []) s.set (λ _. now) (λ m g. refl) s.members start

  pub number_of_members-loop :
      (now : Option (Value F))
      → last_set number_of_members (s.set ∷ []) (each (member_calls s.set) s.members) now ≡ now
  unfolding same_vec same_labels str_eq
  number_of_members-loop now =
      loop-agrees number_of_members (s.set ∷ []) s.set (λ _. now) (λ m g. refl) s.members start

  pub heartbeat_interval_millis-loop :
      (now : Option (Value F))
      → last_set heartbeat_interval_millis (s.set ∷ []) (each (member_calls s.set) s.members) now
        ≡ now
  unfolding same_vec same_labels str_eq
  heartbeat_interval_millis-loop now =
      loop-agrees heartbeat_interval_millis (s.set ∷ []) s.set (λ _. now) (λ m g. refl) s.members
        start
