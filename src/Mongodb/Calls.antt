-- ===== src/Mongodb/Calls.antt =====
-- What the statistics of collector/mongodb ask of the package prometheus: the vectors of gauges that
-- the files declare, and the calls on them that an Export makes, in order. A trace is what an Export
-- does: its calls, which a panic may cut short, since several of them dereference a nil pointer.
pub mod Fits
pub mod Returns
use exporter_plus.Prelude.{
  String, Bool, true, false, Option, none, some, List, [], ◌∷◌, ◌++◌, ◌==◌, length,
}
use exporter_plus.Prelude.Int.{ℤ}

-- NewGauge and NewGaugeVec, NewCounter and NewCounterVec, NewSummary and NewSummaryVec
pub data VecKind : Type 0 where
  gauge counter summary : VecKind

-- The options and the variable labels; a vector without labels has one child. The namespace is
-- "mongodb" for all.
pub record Vec : Type 0 where
  pub kind : VecKind
  pub subsystem : String
  pub name : String
  pub help : String
  pub labels : List String

abbrev pub gauge_vec : String → String → String → List String → Vec
gauge_vec subsystem name help labels = record {
  kind = gauge;
  subsystem = subsystem;
  name = name;
  help = help;
  labels = labels;
}

abbrev pub counter_vec : String → String → String → List String → Vec
counter_vec subsystem name help labels = record {
  kind = counter;
  subsystem = subsystem;
  name = name;
  help = help;
  labels = labels;
}

abbrev pub summary_vec : String → String → String → List String → Vec
summary_vec subsystem name help labels = record {
  kind = summary;
  subsystem = subsystem;
  name = name;
  help = help;
  labels = labels;
}

-- A float64: a field's value, float64(n), or a value / 1e6.
pub data Value (F : Type 0) : Type 0 where
  val : F → Value F
  int : ℤ → Value F
  millionth : F → Value F

-- WithLabelValues(…).Set(x), WithLabelValues(…).Observe(x), Collect(ch) and Reset()
pub data Call (F : Type 0) : Type 0 where
  set : Vec → List String → Value F → Call F
  observe : Vec → List String → Value F → Call F
  collect : Vec → Call F
  reset : Vec → Call F

-- The calls of a body that returns, or those before its panic.
pub data Trace (F : Type 0) : Type 0 where
  ok : List (Call F) → Trace F
  panic : List (Call F) → String → Trace F

module _ {F : Type 0} where
  abbrev pub and_then : Trace F → Trace F → Trace F
  and_then (ok cs) (ok ds) = ok (cs ++ ds)
  and_then (ok cs) (panic ds e) = panic (cs ++ ds) e
  and_then (panic cs e) t = panic cs e

  -- the statements of a body, one after another
  unfoldable pub sequence : List (Trace F) → Trace F
  sequence [] = ok []
  sequence (t ∷ ts) = and_then t (sequence ts)

  -- if p != nil { p.Export(ch) }
  abbrev pub when : {A : Type 0} → Option A → (A → Trace F) → Trace F
  when none f = ok []
  when (some a) f = f a

  -- *p
  abbrev pub deref : {A : Type 0} → Option A → (A → Trace F) → Trace F
  deref none f = panic [] "invalid memory address or nil pointer dereference"
  deref (some a) f = f a

-- if p != nil { p.Describe(ch) }
abbrev pub described : {A : Type 0} → Option A → (A → List Vec) → List Vec
described none f = []
described (some a) f = f a

abbrev pub concat : List (List Vec) → List Vec
concat [] = []
concat (vs ∷ vss) = vs ++ concat vss
