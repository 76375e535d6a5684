-- ===== src/Mongodb/ReplSet/Members.antt =====
-- The gauges of each member.
use mathlib.Core.Path.{subst}
use mathlib.Core.List.{Memᴰ}
use exporter_plus.Prelude.{
  String, ◌≡◌, ◌≢◌, refl, ◌∙◌, ap, sym, Option, none, some, List, [], ◌∷◌, All, str_eq_of_ne,
}
use exporter_plus.Prelude.GoMap.{GoMap, lookup, insert}
use exporter_plus.Prelude.GoMap.Laws.{lookup-insert, lookup-insert_self}
use exporter_plus.Mongodb.ReplSet.{
  Member, MemberGauges, ReplSetStatus, Scan, set_if, set_member, scan_member, scan_members, start,
  export_repl_set,
}

lookup-insert_other :
    {V : Type 0} (k j : String) (v : V) (g : GoMap V) → k ≢ j → lookup j (insert k v g) ≡ lookup j g
lookup-insert_other k j v g ne = lookup-insert k j v g ∙ rw (str_eq_of_ne k j ne)

lookup-set_if_other :
    {A V : Type 0} (f : A → V) (o : Option A) (k j : String) (g : GoMap V)
    → k ≢ j
    → lookup j (set_if f o k g) ≡ lookup j g
lookup-set_if_other f none k j g ne = refl
lookup-set_if_other f (some a) k j g ne = lookup-insert_other k j (f a) g ne

lookup-set_if_self :
    {V : Type 0} (o : Option V) (k : String) (g : GoMap V)
    → lookup k g ≡ none
    → lookup k (set_if (λ v. v) o k g) ≡ o
lookup-set_if_self none k g h = h
lookup-set_if_self (some a) k g h = lookup-insert_self k a g

module _ {F : Type 0} where
  abbrev pub IsFresh : String → List (Member F) → Type 0
  IsFresh name = All (λ m. m.name ≢ name)

  -- The names of the members are distinct.
  abbrev pub HaveNames : List (Member F) → Type 0
  HaveNames [] = Unit
  HaveNames (m ∷ ms) = IsFresh m.name ms × HaveNames ms

  -- The gauges have for the name what they had.
  abbrev Keeps : String → MemberGauges F → MemberGauges F → Type 0
  Keeps name a b =
      (lookup name b.member_state ≡ lookup name a.member_state)
      × (lookup name b.member_health ≡ lookup name a.member_health)
      × (lookup name b.member_ping_ms ≡ lookup name a.member_ping_ms)

  set_member-Keeps :
      (name : String) (m : Member F) (g : MemberGauges F)
      → m.name ≢ name
      → Keeps name g (set_member m g)
  unfolding set_member
  set_member-Keeps name m g ne = (
    lookup-insert_other m.name name m.state g.member_state ne,
    lookup-set_if_other (λ h. h) m.health m.name name g.member_health ne,
    lookup-set_if_other (λ p. p) m.ping_ms m.name name g.member_ping_ms ne,
  )

  scan_members-Keeps :
      (name : String) (ms : List (Member F)) (s : Scan F)
      → IsFresh name ms
      → Keeps name s.gauges (scan_members ms s).gauges
  unfolding scan_members
  scan_members-Keeps name [] s _ = (refl, refl, refl)
  scan_members-Keeps name (m ∷ ms) s (ne, fresh) =
      let (a, b, c) = scan_members-Keeps name ms (scan_member m s) fresh in
      let (a', b', c') = set_member-Keeps name m s.gauges ne in
      unfold scan_member in (a ∙ a', b ∙ b', c ∙ c')

  -- What a member's gauges are to be.
  abbrev pub Shows : Member F → MemberGauges F → Type 0
  Shows m g =
      (lookup m.name g.member_state ≡ some m.state)
      × (lookup m.name g.member_health ≡ m.health)
      × (lookup m.name g.member_ping_ms ≡ m.ping_ms)

  fresh-ne :
      (m : Member F) (name : String) (ms : List (Member F))
      → Memᴰ m ms
      → IsFresh name ms
      → m.name ≢ name
  fresh-ne m name [] i _ = elim i [ ]
  fresh-ne m name (n ∷ ms) (Memᴰ.head e) (h, _) = λ q. h (ap (λ (k : Member F). k.name) (sym e) ∙ q)
  fresh-ne m name (n ∷ ms) (Memᴰ.tail i) (_, hs) = fresh-ne m name ms i hs

  set_member-Shows :
      (m : Member F) (g : MemberGauges F)
      → lookup m.name g.member_health ≡ none
      → lookup m.name g.member_ping_ms ≡ none
      → Shows m (set_member m g)
  unfolding set_member
  set_member-Shows m g h p = (
    lookup-insert_self m.name m.state g.member_state,
    lookup-set_if_self m.health m.name g.member_health h,
    lookup-set_if_self m.ping_ms m.name g.member_ping_ms p,
  )

  scan_members-Shows_first :
      (m : Member F) (ms : List (Member F)) (s : Scan F)
      → IsFresh m.name ms
      → Shows m s.gauges
      → Shows m (scan_members ms s).gauges
  scan_members-Shows_first m ms s fresh (a', b', c') =
      let (a, b, c) = scan_members-Keeps m.name ms s fresh in (a ∙ a', b ∙ b', c ∙ c')

  scan_members-Shows :
      (m : Member F) (ms : List (Member F)) (s : Scan F)
      → HaveNames ms
      → Memᴰ m ms
      → lookup m.name s.gauges.member_health ≡ none
      → lookup m.name s.gauges.member_ping_ms ≡ none
      → Shows m (scan_members ms s).gauges
  unfolding scan_members
  scan_members-Shows m [] s _ i h p = elim i [ ]
  scan_members-Shows m (n ∷ ms) s (fresh, rest) (Memᴰ.tail i) h p =
      let ne : n.name ≢ m.name = λ q. fresh-ne m n.name ms i fresh (sym q) in
      let (_, b, c) = set_member-Keeps m.name n s.gauges ne in
      unfold scan_member in scan_members-Shows m ms (scan_member n s) rest i (b ∙ h) (c ∙ p)
  scan_members-Shows m (n ∷ ms) s (fresh, rest) (Memᴰ.head e) h p =
      subst (λ (k : Member F). Shows k (scan_members ms (scan_member n s)).gauges) (sym e)
        (unfold scan_member in
          scan_members-Shows_first n ms (scan_member n s) fresh (
            set_member-Shows n s.gauges
              (subst (λ (k : Member F). lookup k.name s.gauges.member_health ≡ none) e h)
              (subst (λ (k : Member F). lookup k.name s.gauges.member_ping_ms ≡ none) e p)))

  -- Where the names of the members are distinct, the gauges have each member's state, and its health
  -- and its ping exactly where it reports them.
  pub export_repl_set-Shows :
      (status : ReplSetStatus F) (m : Member F)
      → HaveNames status.members
      → Memᴰ m status.members
      → Shows m (export_repl_set status).gauges
  unfolding export_repl_set lookup
  export_repl_set-Shows status m names i =
      scan_members-Shows m status.members start names i refl refl
