-- ===== src/Mongodb/Tests/Gauges.antt =====
-- The theorems on the MongoDB statistics at concrete inputs.
use exporter_plus.Prelude.{
  ℕ, String, true, false, none, some, List, [], ◌∷◌, All, ◌≡◌, ◌≢◌, refl, arith, ap, ◌&◌, str_eq,
}
use exporter_plus.Prelude.Int.{ℤ, pos}
use exporter_plus.Prelude.Text.{append, split, join}
use exporter_plus.Prelude.GoMap.{GoMap}
use exporter_plus.Mongodb.Calls.{ok, Vec, Value, val, int, Call, Trace}
use exporter_plus.Mongodb.Calls.Returns.{returns}
use exporter_plus.Mongodb.Registry.{run}
use exporter_plus.Mongodb.Registry.Lists.{list_registry, list_registry-IsLawful}
use exporter_plus.Mongodb.Registry.Stale.{database_gauges_end, top_gauges_last}
use exporter_plus.Mongodb.Databases.{
  DatabaseStatus, export_database_status, describe_database_status, index_size,
}
use exporter_plus.Mongodb.Top.{
  TopStats, TopcounterStats, top_calls, top_labels, export_top_stats_map, top_count_total,
}
use exporter_plus.Mongodb.Top.Laws.{top_labels_lem}
use exporter_plus.Mongodb.ReplSet.{Time, Member, ReplSetStatus}
use exporter_plus.Mongodb.ReplSet.Refines.{IsShown, repl_set_calls-IsShown}
use exporter_plus.Mongodb.Server.{ServerStatus, export_server_status}
use exporter_plus.Mongodb.Server.Complete.{returns-export_server_status}
use exporter_plus.Mongodb.Tail.{
  Op, TailState, Event, failed, entry, arrive, started, Reached, start, sent, count_of, Round,
}
use exporter_plus.Mongodb.Tail.Laws.{
  Accounts, Reached-Accounts, Rounds, waiting, entries_of, failures, all_counted,
}

abbrev at : ℤ → Time
at t = record { unix = t; is_zero = false }

abbrev primary : Member ℕ
primary = record {
  name = "a:27017";
  self = none;
  health = some (pos 1);
  state = pos 1;
  uptime = 9;
  optime_date = at (pos 1700000007);
  election_date = some (at (pos 1700000000));
  last_heartbeat = none;
  last_heartbeat_recv = none;
  ping_ms = some 2;
  config_version = some (pos 3);
}

abbrev repl_status : ReplSetStatus ℕ
repl_status = record {
  set = "rs0";
  my_state = pos 2;
  term = none;
  heartbeat_interval_millis = some 2000;
  members =
      primary
      ∷ record primary { name = "b:27017"; self = some true; state = pos 2; ping_ms = none }
      ∷ [];
}

repl_set_calls-IsShown_example :
    IsShown
      (list_registry ℕ)
      (list_registry-IsLawful ℕ)
      repl_status
      ((index_size, ("shop" ∷ "" ∷ [], val 7)) ∷ [])
repl_set_calls-IsShown_example =
    repl_set_calls-IsShown (list_registry ℕ) (list_registry-IsLawful ℕ) repl_status
      ((index_size, ("shop" ∷ "" ∷ [], val 7)) ∷ [])

-- A server that reports its global lock without its queue.
abbrev server : ServerStatus ℕ
server = record {
  uptime = 10;
  uptime_estimate = 9;
  local_time = at (pos 1700000000);
  asserts = none;
  dur = none;
  background_flushing = none;
  connections = none;
  extra_info = none;
  global_lock = some (record {
    total_time = 5;
    lock_time = 3;
    ratio = 0;
    current_queue = none;
    active_clients = some (record { total = 1; readers = 1; writers = 0 });
  });
  index_counter = none;
  locks = none;
  network = none;
  opcounters = none;
  opcounters_repl = none;
  tcmalloc_stats = none;
  mem = none;
  metrics = none;
  cursors = none;
  storage_engine = none;
  wired_tiger = none;
}

returns-export_server_status_example : returns (export_server_status server) ≡ false
returns-export_server_status_example = returns-export_server_status server

abbrev shop : DatabaseStatus
shop = record {
  name = "shop";
  index_size = pos 1;
  data_size = pos 2;
  collections = pos 3;
  objects = pos 4;
  indexes = pos 5;
  shards = [];
}

abbrev outcome_calls : Trace ℕ → List (Call ℕ)
outcome_calls (ok cs) = cs
outcome_calls _ = []

abbrev shop_calls : List (Call ℕ)
shop_calls = outcome_calls (export_database_status shop)

database_gauges_end_example :
    All
      (λ (w : Vec).
        (list_registry ℕ).child w ("shop" ∷ "" ∷ []) (run (list_registry ℕ) shop_calls []) ≡ none)
      (describe_database_status shop)
unfolding export_database_status exporter_plus.Mongodb.Calls.sequence
database_gauges_end_example =
    database_gauges_end (list_registry ℕ) (list_registry-IsLawful ℕ) shop shop_calls []
      ("shop" ∷ "" ∷ []) refl

top_labels_lem_example :
    (top_labels (append "shop" ".carts.old") ≡ ("shop", "carts.old"))
    × (top_labels "shop" ≡ ("shop", ""))
top_labels_lem_example = top_labels_lem "shop" "carts.old" (omega arith)

abbrev top_kept : List (Vec × (List String × Value ℕ))
top_kept = (top_count_total, ("Total" ∷ "shop" ∷ "gone" ∷ [], val 7)) ∷ []

abbrev busy : TopcounterStats ℕ
busy = record { time = 9; count = 2 }

-- The collection "gone" was dropped; the statistics name another.
abbrev tops : GoMap (TopStats ℕ)
tops =
    (
      "shop.carts",
      record {
        total = busy;
        read_lock = busy;
        write_lock = busy;
        queries = busy;
        get_more = busy;
        insert = busy;
        update = busy;
        remove = busy;
        commands = busy;
      },
    )
    ∷ []

carts_apart : top_labels "shop.carts" ≢ ("shop", "gone")
unfolding top_labels split str_eq join
carts_apart e = let c : false ≡ true = ap (λ (p : String × String). str_eq p.1 "gone") e in cc

top_gauges_last_example :
    (list_registry ℕ).child top_count_total
      ("Total" ∷ "shop" ∷ "gone" ∷ [])
      (run (list_registry ℕ) (outcome_calls (export_top_stats_map tops)) top_kept)
    ≡ (list_registry ℕ).child top_count_total ("Total" ∷ "shop" ∷ "gone" ∷ []) top_kept
unfolding export_top_stats_map top_calls
top_gauges_last_example =
    top_gauges_last (list_registry ℕ) (list_registry-IsLawful ℕ) tops top_count_total "Total" "shop"
      "gone" top_kept (outcome_calls (export_top_stats_map tops)) (carts_apart & tt) refl

abbrev insert_op : Op
insert_op = record { namespace = "shop.carts"; operation = "i" }

abbrev events : List Event
events = entry insert_op ∷ failed "cursor died" ∷ entry insert_op ∷ []

abbrev tail_state : TailState
tail_state =
    arrive (entry insert_op) (arrive (failed "cursor died") (arrive (entry insert_op) started))

abbrev tail_reached : Reached events tail_state
tail_reached = sent (entry insert_op) (sent (failed "cursor died") (sent (entry insert_op) start))

Reached-Accounts_example : Accounts events tail_state
Reached-Accounts_example = Reached-Accounts events tail_state tail_reached

all_counted_example :
    (waiting tail_state ≢ 0 → (t : TailState) × Round tail_state t)
    × ((t : TailState)
        → Rounds (waiting tail_state) tail_state t
        → ((op : Op) → count_of op t.entry_count ≡ entries_of op events)
          × (t.tail_error ≡ failures events))
all_counted_example = all_counted events tail_state tail_reached
