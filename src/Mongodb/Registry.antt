-- ===== src/Mongodb/Registry.antt =====
-- What the vectors of gauges hold, as the statistics use it: an interface of operations, and the laws
-- that the package prometheus documents for them. The state is process-wide: it lasts from one export
-- to the next, and from one collection to the next.
pub mod Lists
pub mod Stale
use exporter_plus.Prelude.{
  String, Bool, true, false, ◌&&◌, Option, none, some, List, [], ◌∷◌, ◌++◌, ◌≡◌, refl, sym, ap, ◌∙◌,
  str_eq, if◌then◌else◌, each,
}
use exporter_plus.Mongodb.Calls.{Vec, Value, Call, set, observe, collect, reset}

-- Vectors are told apart by their names.
unfoldable pub same_vec : Vec → Vec → Bool
same_vec v w = str_eq v.subsystem w.subsystem && str_eq v.name w.name

unfoldable pub same_labels : List String → List String → Bool
same_labels [] [] = true
same_labels [] (m ∷ ms) = false
same_labels (l ∷ ls) [] = false
same_labels (l ∷ ls) (m ∷ ms) = str_eq l m && same_labels ls ms

abbrev pub same_child : Vec → List String → Vec → List String → Bool
same_child v ls w ms = same_vec v w && same_labels ls ms

-- WithLabelValues(…).Set, WithLabelValues(…).Observe, Reset, and the value of a gauge with given
-- label values, if it has one
pub record Registry (F : Type 0) : Type 1 where
  pub State : Type 0
  pub write : Vec → List String → Value F → State → State
  pub note : Vec → List String → Value F → State → State
  pub clear : Vec → State → State
  pub child : Vec → List String → State → Option (Value F)

pub record IsLawful {F : Type 0} (r : Registry F) : Type 0 where
  pub child-write :
      (w : Vec) (ms : List String) (v : Vec) (ls : List String) (x : Value F) (s : r.State)
      → r.child w ms (r.write v ls x s) ≡ (if same_child v ls w ms then some x else r.child w ms s)
  pub child-note :
      (w : Vec) (ms : List String) (v : Vec) (ls : List String) (x : Value F) (s : r.State)
      → r.child w ms (r.note v ls x s) ≡ r.child w ms s
  pub child-clear :
      (w : Vec) (ms : List String) (v : Vec) (s : r.State)
      → r.child w ms (r.clear v s) ≡ (if same_vec v w then none else r.child w ms s)

module _ {F : Type 0} (r : Registry F) where
  -- what the calls of a trace do, one after another; a Collect changes nothing
  unfoldable pub run : List (Call F) → r.State → r.State
  run [] s = s
  run (set v ls x ∷ cs) s = run cs (r.write v ls x s)
  run (observe v ls x ∷ cs) s = run cs (r.note v ls x s)
  run (collect v ∷ cs) s = run cs s
  run (reset v ∷ cs) s = run cs (r.clear v s)

module _ {F : Type 0} (w : Vec) (ms : List String) where
  -- the specification: a gauge has the value of the last Set after the last Reset
  unfoldable pub last_set : List (Call F) → Option (Value F) → Option (Value F)
  last_set [] now = now
  last_set (set v ls x ∷ cs) now = last_set cs (if same_child v ls w ms then some x else now)
  last_set (observe v ls x ∷ cs) now = last_set cs now
  last_set (collect v ∷ cs) now = last_set cs now
  last_set (reset v ∷ cs) now = last_set cs (if same_vec v w then none else now)

  pub last_set-append :
      (cs ds : List (Call F)) (now : Option (Value F))
      → last_set (cs ++ ds) now ≡ last_set ds (last_set cs now)
  unfolding last_set
  last_set-append [] ds now = refl
  last_set-append (set v ls x ∷ cs) ds now = last_set-append cs ds _
  last_set-append (observe v ls x ∷ cs) ds now = last_set-append cs ds now
  last_set-append (collect v ∷ cs) ds now = last_set-append cs ds now
  last_set-append (reset v ∷ cs) ds now = last_set-append cs ds _

-- Every lawful registry implements the specification.
pub child-run :
    {F : Type 0} (r : Registry F) (h : IsLawful r) (w : Vec) (ms : List String) (cs : List (Call F))
    (s : r.State)
    → r.child w ms (run r cs s) ≡ last_set w ms cs (r.child w ms s)
unfolding run last_set
child-run r h w ms [] s = refl
child-run r h w ms (set v ls x ∷ cs) s =
    child-run r h w ms cs (r.write v ls x s) ∙ ap (last_set w ms cs) (h.child-write w ms v ls x s)
child-run r h w ms (observe v ls x ∷ cs) s =
    child-run r h w ms cs (r.note v ls x s) ∙ ap (last_set w ms cs) (h.child-note w ms v ls x s)
child-run r h w ms (collect v ∷ cs) s = child-run r h w ms cs s
child-run r h w ms (reset v ∷ cs) s =
    child-run r h w ms cs (r.clear v s) ∙ ap (last_set w ms cs) (h.child-clear w ms v s)
