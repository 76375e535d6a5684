-- ===== src/Mongodb/Registry/Stale.antt =====
-- Which gauges outlive an export: those of a database are reset by its export; those of "top" are not,
-- and last as long as the process.
use exporter_plus.Prelude.{
  String, false, Option, none, List, [], ◌∷◌, ◌++◌, All, each, ◌≡◌, ◌≢◌, refl, sym, ap, ◌∙◌, arith,
  ◌&◌, str_eq, str_eq_iff,
}
use exporter_plus.Prelude.GoMap.{GoMap}
use exporter_plus.Mongodb.Calls.{Vec, Value, Call, Trace, ok, panic, sequence}
use exporter_plus.Mongodb.Databases.{
  DatabaseStatus, status_calls, export_database_status, describe_database_status,
}
use exporter_plus.Mongodb.Top.{
  TopStats, TopcounterStats, top_labels, top_field_calls, top_fields, top_calls,
  export_top_stats_map,
}
use exporter_plus.Mongodb.Registry.{
  same_vec, same_labels, Registry, IsLawful, run, child-run, last_set, last_set-append,
}

module _ {F : Type 0} where
  calls_eq : (xs cs : List (Call F)) → Trace.ok xs ≡ ok cs → xs ≡ cs
  calls_eq xs cs e = cc

  -- a trace that ends with calls that do not panic
  ends_with :
      (t : Trace F) (ds cs : List (Call F))
      → sequence (t ∷ ok ds ∷ []) ≡ ok cs
      → (xs : List (Call F)) × (cs ≡ xs ++ (ds ++ []))
  unfolding sequence
  ends_with (ok xs) ds cs e = (xs, sym (calls_eq (xs ++ (ds ++ [])) cs e))
  ends_with (panic xs m) ds cs e = cc

module _ {F : Type 0} (r : Registry F) (h : IsLawful r) where
  -- Where the export of a database's status returns, no gauge of a database has a value after it,
  -- whatever the gauges held before.
  pub database_gauges_end :
      (s : DatabaseStatus) (cs : List (Call F)) (state : r.State) (ms : List String)
      → export_database_status s ≡ ok cs
      → All (λ w. r.child w ms (run r cs state) ≡ none) (describe_database_status s)
  unfolding export_database_status describe_database_status last_set same_vec str_eq
  database_gauges_end s cs state ms e =
      let (xs, p) = ends_with (status_calls s s.shards) _ cs e in
      let at_end = λ (w : Vec).
        child-run r h w ms cs state
        ∙ ap (λ calls. last_set w ms calls (r.child w ms state)) p
        ∙ last_set-append w ms xs _ (r.child w ms state) in
      at_end _ & at_end _ & at_end _ & at_end _ & at_end _ & tt

same_labels_apart :
    (ty db coll ty2 db2 coll2 : String)
    → ◌≢◌ {A = String × String} (db, coll) (db2, coll2)
    → same_labels (ty ∷ db ∷ coll ∷ []) (ty2 ∷ db2 ∷ coll2 ∷ []) ≡ false
unfolding same_labels
same_labels_apart ty db coll ty2 db2 coll2 h =
    ground (arith, str_eq_iff db db2, str_eq_iff coll coll2)

module _ {F : Type 0} (w : Vec) (ty db coll : String) where
  top_field_keeps :
      (labels : String × String) (field : String × TopcounterStats F) (now : Option (Value F))
      → labels ≢ (db, coll)
      → last_set w (ty ∷ db ∷ coll ∷ []) (top_field_calls labels field) now ≡ now
  unfolding last_set
  top_field_keeps (db2, coll2) (ty2, stats) now h =
      rw (same_labels_apart ty2 db2 coll2 ty db coll h) (ground arith)

  top_fields_keep :
      (labels : String × String) (fields : List (String × TopcounterStats F))
      (now : Option (Value F))
      → labels ≢ (db, coll)
      → last_set w (ty ∷ db ∷ coll ∷ []) (each (top_field_calls labels) fields) now ≡ now
  top_fields_keep labels [] now h = unfold last_set in refl
  top_fields_keep labels (f ∷ fs) now h =
      last_set-append w _ (top_field_calls labels f) (each (top_field_calls labels) fs) now
      ∙ ap (last_set w _ (each (top_field_calls labels) fs)) (top_field_keeps labels f now h)
      ∙ top_fields_keep labels fs now h

  top_maps_keep :
      (tops : GoMap (TopStats F)) (now : Option (Value F))
      → All (λ (e : String × TopStats F). top_labels e.0 ≢ (db, coll)) tops
      → last_set w (ty ∷ db ∷ coll ∷ []) (each top_calls tops) now ≡ now
  unfolding top_calls
  top_maps_keep [] now h = unfold last_set in refl
  top_maps_keep ((ns, top) ∷ tops) now (h, hs) =
      last_set-append w _ (top_calls (ns, top)) (each top_calls tops) now
      ∙ ap (last_set w _ (each top_calls tops))
          (top_fields_keep (top_labels ns) (top_fields top) now h)
      ∙ top_maps_keep tops now hs

-- The export of the "top" statistics leaves every gauge of a collection that they do not name as it
-- was: a collection that was dropped keeps its last values, which every later export collects.
pub top_gauges_last :
    {F : Type 0} (r : Registry F) (h : IsLawful r) (tops : GoMap (TopStats F)) (w : Vec)
    (ty db coll : String) (state : r.State) (cs : List (Call F))
    → All (λ (e : String × TopStats F). top_labels e.0 ≢ (db, coll)) tops
    → export_top_stats_map tops ≡ ok cs
    → r.child w (ty ∷ db ∷ coll ∷ []) (run r cs state) ≡ r.child w (ty ∷ db ∷ coll ∷ []) state
unfolding export_top_stats_map last_set
top_gauges_last r h tops w ty db coll state cs apart e =
    child-run r h w _ cs state
    ∙ ap (λ calls. last_set w (ty ∷ db ∷ coll ∷ []) calls (r.child w (ty ∷ db ∷ coll ∷ []) state))
        (sym (calls_eq _ cs e))
    ∙ last_set-append w _ (each top_calls tops) _ _
    ∙ top_maps_keep w ty db coll tops _ apart
