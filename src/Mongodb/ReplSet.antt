-- ===== src/Mongodb/ReplSet.antt =====
-- ReplSetStatus.Export of collector/mongodb/replset_status.go. Every gauge vector is reset first, so
-- that what an export leaves is a function of the status; the label "set" is the same for all.
pub mod Calls
pub mod Gauges
pub mod Laws
pub mod Loops
pub mod Members
pub mod Refines
pub mod Rounds
use exporter_plus.Prelude.{
  ℕ, suc, String, Bool, true, false, not, ◌&&◌, Option, none, some, List, [], ◌∷◌, length,
  if◌then◌else◌,
}
use exporter_plus.Prelude.Int.{ℤ, pos, negsuc, eqb_ℤ, sub64}
use exporter_plus.Prelude.GoMap.{GoMap, insert}

-- A time.Time: its Unix seconds, and whether it is the zero time.
pub record Time : Type 0 where
  pub unix : ℤ
  pub is_zero : Bool

-- var t time.Time
abbrev pub zero_time : Time
zero_time = record { unix = negsuc 62135596799; is_zero = true }

-- Member, as far as Export reads it
pub record Member (F : Type 0) : Type 0 where
  pub name : String
  pub self : Option Bool
  pub health : Option ℤ
  pub state : ℤ
  pub uptime : F
  pub optime_date : Time
  pub election_date : Option Time
  pub last_heartbeat : Option Time
  pub last_heartbeat_recv : Option Time
  pub ping_ms : Option F
  pub config_version : Option ℤ

-- ReplSetStatus
pub record ReplSetStatus (F : Type 0) : Type 0 where
  pub set : String
  pub my_state : ℤ
  pub term : Option ℤ
  pub heartbeat_interval_millis : Option F
  pub members : List (Member F)

-- The gauge vectors with the labels "set" and "name", by the name. Integers are what float64()
-- converts.
pub record MemberGauges (F : Type 0) : Type 0 where
  pub member_state : GoMap ℤ
  pub member_health : GoMap ℤ
  pub member_uptime : GoMap F
  pub member_optime_date : GoMap ℤ
  pub member_election_date : GoMap ℤ
  pub member_last_heartbeat : GoMap ℤ
  pub member_last_heartbeat_recv : GoMap ℤ
  pub member_ping_ms : GoMap F
  pub member_config_version : GoMap ℤ

-- The variables of the loop.
pub record Scan (F : Type 0) : Type 0 where
  pub primary_op_time : Time
  pub my_op_time : Time
  pub m_count : ℕ
  pub gauges : MemberGauges F

-- What is collected.
pub record Exported (F : Type 0) : Type 0 where
  pub my_state : ℤ
  pub my_replica_lag : ℤ
  pub term : Option ℤ
  pub number_of_members : ℕ
  pub heartbeat_interval_millis : Option F
  pub master_count : ℕ
  pub gauges : MemberGauges F

abbrev pub is_primary : {F : Type 0} → Member F → Bool
is_primary m = eqb_ℤ m.state (pos 1)

abbrev is_true : Option Bool → Bool
is_true none = false
is_true (some b) = b

-- member.Self != nil && *member.Self
abbrev pub is_self : {F : Type 0} → Member F → Bool
is_self m = is_true m.self

abbrev pub set_if : {A V : Type 0} → (A → V) → Option A → String → GoMap V → GoMap V
set_if f none name gauges = gauges
set_if f (some a) name gauges = insert name (f a) gauges

-- the gauges of one member
unfoldable pub set_member : {F : Type 0} → Member F → MemberGauges F → MemberGauges F
set_member m g = record {
  member_state = insert m.name m.state g.member_state;
  member_health = set_if (λ h. h) m.health m.name g.member_health;
  member_uptime = insert m.name m.uptime g.member_uptime;
  member_optime_date = insert m.name m.optime_date.unix g.member_optime_date;
  member_election_date =
      set_if (λ (t : Time). t.unix) m.election_date m.name g.member_election_date;
  member_last_heartbeat =
      set_if (λ (t : Time). t.unix) m.last_heartbeat m.name g.member_last_heartbeat;
  member_last_heartbeat_recv =
      set_if (λ (t : Time). t.unix) m.last_heartbeat_recv m.name g.member_last_heartbeat_recv;
  member_ping_ms = set_if (λ p. p) m.ping_ms m.name g.member_ping_ms;
  member_config_version = set_if (λ v. v) m.config_version m.name g.member_config_version;
}

-- one round of the loop
unfoldable pub scan_member : {F : Type 0} → Member F → Scan F → Scan F
unfolding set_member
scan_member m s = record {
  primary_op_time = if is_primary m then m.optime_date else s.primary_op_time;
  my_op_time = if is_self m then m.optime_date else s.my_op_time;
  m_count = if is_primary m then suc s.m_count else s.m_count;
  gauges = set_member m s.gauges;
}

-- the loop over the members
unfoldable pub scan_members : {F : Type 0} → List (Member F) → Scan F → Scan F
unfolding scan_member
scan_members [] s = s
scan_members (m ∷ ms) s = scan_members ms (scan_member m s)

abbrev pub start : {F : Type 0} → Scan F
start = record {
  primary_op_time = zero_time;
  my_op_time = zero_time;
  m_count = 0;
  gauges = record {
    member_state = [];
    member_health = [];
    member_uptime = [];
    member_optime_date = [];
    member_election_date = [];
    member_last_heartbeat = [];
    member_last_heartbeat_recv = [];
    member_ping_ms = [];
    member_config_version = [];
  };
}

-- the lag, -1 if one of the times is the zero time
abbrev pub replica_lag : Time → Time → ℤ
replica_lag primary my =
    if not primary.is_zero && not my.is_zero then sub64 primary.unix my.unix else negsuc 0

-- Export
unfoldable pub export_repl_set : {F : Type 0} → ReplSetStatus F → Exported F
unfolding scan_members
export_repl_set status =
    let s = scan_members status.members start in
    record {
      my_state = status.my_state;
      my_replica_lag = replica_lag s.primary_op_time s.my_op_time;
      term = status.term;
      number_of_members = length status.members;
      heartbeat_interval_millis = status.heartbeat_interval_millis;
      master_count = s.m_count;
      gauges = s.gauges;
    }
