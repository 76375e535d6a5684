-- ===== src/Mongodb/Registry/Lists.antt =====
-- A registry that keeps the gauges in a list, the latest first.
use exporter_plus.Prelude.{
  String, true, false, Option, none, some, List, [], ◌∷◌, ◌≡◌, refl, ◌∙◌, arith, str_eq, str_eq_iff,
  if◌then◌else◌, Bool-cases, inl, inr,
}
use exporter_plus.Mongodb.Calls.{Vec, Value}
use exporter_plus.Mongodb.Registry.{same_vec, same_child, Registry, IsLawful}

abbrev Gauges : Type 0 → Type 0
Gauges F = List (Vec × (List String × Value F))

module _ {F : Type 0} where
  abbrev value_of : Vec → List String → Gauges F → Option (Value F)
  value_of w ms [] = none
  value_of w ms ((v, (ls, x)) ∷ gs) = if same_child v ls w ms then some x else value_of w ms gs

  abbrev drop_vec : Vec → Gauges F → Gauges F
  drop_vec v [] = []
  drop_vec v ((u, (ls, x)) ∷ gs) =
      let rest = drop_vec v gs in if same_vec v u then rest else (u, (ls, x)) ∷ rest

abbrev pub list_registry : (F : Type 0) → Registry F
list_registry F = record {
  State = Gauges F;
  write = λ v ls x gs. (v, (ls, x)) ∷ gs;
  note = λ v ls x gs. gs;
  clear = drop_vec;
  child = value_of;
}

str_eq_agree : (a b c : String) → str_eq a b ≡ true → str_eq a c ≡ str_eq b c
str_eq_agree a b c e = rw ((str_eq_iff a b).0 e) refl

same_vec_agree : (v u w : Vec) → same_vec v u ≡ true → same_vec v w ≡ same_vec u w
unfolding same_vec
same_vec_agree v u w e =
    ground
      (arith, str_eq_agree v.subsystem u.subsystem w.subsystem, str_eq_agree v.name u.name w.name)

same_vec_apart : (v u w : Vec) → same_vec v u ≡ false → same_vec v w ≡ true → same_vec u w ≡ false
unfolding same_vec
same_vec_apart v u w e h = ground (
  arith,
  str_eq_iff v.subsystem u.subsystem,
  str_eq_iff v.name u.name,
  str_eq_iff v.subsystem w.subsystem,
  str_eq_iff v.name w.name,
  str_eq_iff u.subsystem w.subsystem,
  str_eq_iff u.name w.name,
)

value_of-drop_vec :
    {F : Type 0} (w : Vec) (ms : List String) (v : Vec) (gs : Gauges F)
    → value_of w ms (drop_vec v gs) ≡ (if same_vec v w then none else value_of w ms gs)
value_of-drop_vec w ms v [] = ground arith
value_of-drop_vec w ms v ((u, (ls, x)) ∷ gs) = elim (Bool-cases (same_vec v u)) [
  | inl e ↦
      rw (e, same_vec_agree v u w e)
        (elim (Bool-cases (same_vec u w)) [
          | inl h ↦ rw h (value_of-drop_vec w ms v gs ∙ rw (same_vec_agree v u w e, h) refl)
          | inr h ↦ rw h (value_of-drop_vec w ms v gs ∙ rw (same_vec_agree v u w e, h) refl)
        ])
  | inr e ↦ rw e (elim (Bool-cases (same_vec v w)) [
    | inl h ↦ rw (h, same_vec_apart v u w e h) (value_of-drop_vec w ms v gs ∙ rw h refl)
    | inr h ↦ rw (h) (ground (arith, value_of-drop_vec w ms v gs))
  ])
]

pub list_registry-IsLawful : (F : Type 0) → IsLawful (list_registry F)
list_registry-IsLawful F = record {
  child-write = λ w ms v ls x s. refl;
  child-note = λ w ms v ls x s. refl;
  child-clear = value_of-drop_vec;
}
