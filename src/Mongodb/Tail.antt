-- ===== src/Mongodb/Tail.antt =====
-- collector/mongodb/oplog_tail.go: the loop that counts the entries of the oplog, as a step relation.
-- gtm sends its errors and its entries on two channels; the loop's select takes one that waits on
-- either, in an order that Go leaves open. The counters, which Go keeps as float64, are numbers here.
pub mod Laws
use exporter_plus.Prelude.{
  ℕ, suc, String, Bool, true, ◌&&◌, List, [], ◌∷◌, ◌++◌, ◌≡◌, str_eq, if◌then◌else◌,
}
use exporter_plus.Mongodb.Calls.{Vec, counter_vec, Call, collect}

abbrev pub oplog_entry_count : Vec
oplog_entry_count =
    counter_vec "oplogtail" "entry_count"
      "The total number of entries observed in the oplog by ns/op" ("ns" ∷ "op" ∷ [])

abbrev pub oplog_tail_error : Vec
oplog_tail_error =
    counter_vec "oplogtail" "tail_error" "The total number of errors while tailing the oplog" []

-- gtm.Op, as far as it is read
pub record Op : Type 0 where
  pub namespace : String
  pub operation : String

abbrev pub same_op : Op → Op → Bool
same_op a b = str_eq a.namespace b.namespace && str_eq a.operation b.operation

-- The children of the counter vector.
abbrev pub Counts : Type 0
Counts = List (Op × ℕ)

abbrev pub count_of : Op → Counts → ℕ
count_of op [] = 0
count_of op ((o, n) ∷ counts) = if same_op o op then n else count_of op counts

-- oplogEntryCount.WithLabelValues(op.Namespace, op.Operation).Add(1)
unfoldable pub add_one : Op → Counts → Counts
add_one op [] = (op, 1) ∷ []
add_one op ((o, n) ∷ counts) =
    if same_op o op then (o, suc n) ∷ counts else (o, n) ∷ add_one op counts

-- What waits on the channels ErrC and OpC, and the two counters.
pub record TailState : Type 0 where
  pub errors : List String
  pub ops : List Op
  pub entry_count : Counts
  pub tail_error : ℕ

-- One round of the loop of Start, by the case of the select.
pub data Round (s : TailState) (t : TailState) : Type 0 where
  take_error :
      (e : String) (es : List String)
      → s.errors ≡ e ∷ es
      → t ≡ record s { errors = es; tail_error = suc s.tail_error }
      → Round s t
  take_op :
      (op : Op) (ops : List Op)
      → s.ops ≡ op ∷ ops
      → t ≡ record s { ops = ops; entry_count = add_one op s.entry_count }
      → Round s t

-- What gtm sends.
pub data Event : Type 0 where
  failed : String → Event
  entry : Op → Event

unfoldable pub arrive : Event → TailState → TailState
arrive (failed e) s = record s { errors = s.errors ++ (e ∷ []) }
arrive (entry op) s = record s { ops = s.ops ++ (op ∷ []) }

abbrev pub started : TailState
started = record { errors = []; ops = []; entry_count = []; tail_error = 0 }

-- The states that the loop can be in after gtm has sent the events, the last one first.
pub data Reached : List Event → TailState → Type 0 where
  start : Reached [] started
  sent :
      {es : List Event} {s : TailState} (e : Event) → Reached es s → Reached (e ∷ es) (arrive e s)
  took : {es : List Event} {s t : TailState} → Reached es s → Round s t → Reached es t

-- Export and Describe
abbrev pub tail_calls : {F : Type 0} → List (Call F)
tail_calls = collect oplog_entry_count ∷ collect oplog_tail_error ∷ []

-- `tailer`, and how many goroutines were started
pub record Tailer : Type 0 where
  pub is_set : Bool
  pub starts : ℕ

-- GetOplogTailStats
unfoldable pub get_oplog_tail_stats : Tailer → Tailer
get_oplog_tail_stats t = if t.is_set then t else record { is_set = true; starts = suc t.starts }
