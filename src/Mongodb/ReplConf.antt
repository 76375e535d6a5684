-- ===== src/Mongodb/ReplConf.antt =====
-- collector/mongodb/replset_conf.go: the configuration of the members of a replica set.
pub mod Fits
use exporter_plus.Prelude.{ℕ, String, Bool, List, [], ◌∷◌, ◌++◌, each, if◌then◌else◌}
use exporter_plus.Prelude.Int.{ℤ, pos}
use exporter_plus.Mongodb.Calls.{ok}
use exporter_plus.Mongodb.Calls.{Vec, gauge_vec, Value, int, Call, set, collect, Trace}

abbrev pub member_hidden : Vec
member_hidden =
    gauge_vec "replset" "member_hidden"
      "This field conveys if the member is hidden (1) or not-hidden (0)." ("id" ∷ "host" ∷ [])

abbrev pub member_arbiter : Vec
member_arbiter =
    gauge_vec "replset" "member_arbiter"
      "This field conveys if the member is an arbiter (1) or not (0)." ("id" ∷ "host" ∷ [])

abbrev pub member_build_indexes : Vec
member_build_indexes =
    gauge_vec "replset" "member_build_indexes"
      "This field conveys if the member is  builds indexes (1) or not (0)." ("id" ∷ "host" ∷ [])

abbrev pub member_priority : Vec
member_priority =
    gauge_vec "replset" "member_priority" "This field conveys the priority of a given member"
      ("id" ∷ "host" ∷ [])

abbrev pub member_votes : Vec
member_votes =
    gauge_vec "replset" "member_votes" "This field conveys the number of votes of a given member"
      ("id" ∷ "host" ∷ [])

-- MemberConf, as far as Export reads it
pub record MemberConf : Type 0 where
  pub id : ℤ
  pub host : String
  pub arbiter_only : Bool
  pub build_indexes : Bool
  pub hidden : Bool
  pub priority : ℤ
  pub votes : ℤ

-- ReplSetConf
pub record ReplSetConf : Type 0 where
  pub id : String
  pub version : ℤ
  pub members : List MemberConf

-- Set(1) or Set(0)
abbrev pub flag : {F : Type 0} → Bool → Value F
flag b = int (pos (if b then 1 else 0))

-- a round of the loop; the labels are those of With(ls), in the order of the vectors
unfoldable pub member_conf_calls : {F : Type 0} → String → MemberConf → List (Call F)
member_conf_calls id member =
    set member_hidden (id ∷ member.host ∷ []) (flag member.hidden)
    ∷ set member_arbiter (id ∷ member.host ∷ []) (flag member.arbiter_only)
    ∷ set member_build_indexes (id ∷ member.host ∷ []) (flag member.build_indexes)
    ∷ set member_priority (id ∷ member.host ∷ []) (int member.priority)
    ∷ set member_votes (id ∷ member.host ∷ []) (int member.votes)
    ∷ []

unfoldable pub export_repl_set_conf : {F : Type 0} → ReplSetConf → Trace F
export_repl_set_conf s = ok (
    each (member_conf_calls s.id) s.members
    ++ (collect member_hidden
        ∷ collect member_arbiter
        ∷ collect member_build_indexes
        ∷ collect member_priority
        ∷ collect member_votes
        ∷ []))

unfoldable pub describe_repl_set_conf : List Vec
describe_repl_set_conf =
    member_hidden ∷ member_arbiter ∷ member_build_indexes ∷ member_priority ∷ member_votes ∷ []
