-- ===== src/Main/Laws.antt =====
-- What main serves.
use mathlib.Core.Path.{subst}
use mathlib.Core.List.{Memᴰ, map-append}
use mathlib.Core.List.Memᴰ
use exporter_plus.Prelude.{
  String, true, false, List, [], ◌∷◌, ◌++◌, map, ◌≡◌, refl, ap, ◌∙◌, str_eq, Bool-cases, inl, inr,
  if◌then◌else◌,
}
use exporter_plus.Prelude.Text.{is_empty}
use exporter_plus.Prelude.Outcome.{Outcome, ok, panic, ◌>>=◌, bind-ok, ok_inj}
use exporter_plus.Handlers.Elastic.{or_fatal}
use exporter_plus.Main.{
  Switches, ScraperFlag, Packages, init_mysql_exporter, switched, routes, new_mysqld, switches_of,
  main,
}

-- the paths of the switches that are on
abbrev pub paths_on : {H : Type 0} → List (String × String × Outcome H) → List String
paths_on [] = []
paths_on ((switch, path, handler) ∷ rest) =
    if str_eq switch "enable" then path ∷ paths_on rest else paths_on rest

-- a switch that is on has its handler
abbrev pub IsServed : {H : Type 0} → List (String × H) → List (String × String × Outcome H) → Type 0
IsServed served [] = Unit {0}
IsServed {H} served ((switch, path, handler) ∷ rest) =
    (str_eq switch "enable" ≡ true → (h : H) × (handler ≡ ok h) × Memᴰ (path, h) served)
    × IsServed served rest

IsServed-append :
    {H : Type 0} (first more : List (String × H)) (table : List (String × String × Outcome H))
    → IsServed more table
    → IsServed (first ++ more) table
IsServed-append first more [] p = tt
IsServed-append first more ((switch, path, handler) ∷ rest) (p, q) = (
  λ e. let (h, same, m) = p e in (h, same, Memᴰ.append_right first m),
  IsServed-append first more rest q,
)

IsServed-before :
    {H : Type 0} (served last : List (String × H)) (table : List (String × String × Outcome H))
    → IsServed served table
    → IsServed (served ++ last) table
IsServed-before served last [] p = tt
IsServed-before served last ((switch, path, handler) ∷ rest) (p, q) = (
  λ e. let (h, same, m) = p e in (h, same, Memᴰ.append_left last m),
  IsServed-before served last rest q,
)

abbrev pub Matches : {H : Type 0} → List (String × H) → List (String × String × Outcome H) → Type 0
Matches served table = (map (λ r. r.0) served ≡ paths_on table) × IsServed served table

module _ {H : Type 0} where
  Matches-on :
      (switch path : String) (handler : Outcome H) (rest : List (String × String × Outcome H))
      (h : H) (more : List (String × H))
      → str_eq switch "enable" ≡ true
      → handler ≡ ok h
      → Matches more rest
      → Matches ((path, h) ∷ more) ((switch, path, handler) ∷ rest)
  Matches-on switch path handler rest h more on made (p, q) = rw on (
    ap (path ∷◌) p,
    (λ _. (h, made, Memᴰ.head refl), IsServed-append ((path, h) ∷ []) more rest q),
  )

  Matches-off :
      (switch path : String) (handler : Outcome H) (rest : List (String × String × Outcome H))
      (more : List (String × H))
      → str_eq switch "enable" ≡ false
      → Matches more rest
      → Matches more ((switch, path, handler) ∷ rest)
  Matches-off switch path handler rest more off (p, q) =
      rw off (p, (λ e. let c : false ≡ true = e in cc, q))

  -- one more `if`
  switched-Matches :
      (switch path : String) (handler : Outcome H) (rest : List (String × String × Outcome H))
      (first more : List (String × H))
      → switched switch path handler ≡ ok first
      → Matches more rest
      → Matches (first ++ more) ((switch, path, handler) ∷ rest)
  unfolding switched
  switched-Matches switch path handler rest first more e m =
      elim (Bool-cases (str_eq switch "enable")) [
        | inl on ↦
            let (h, e1, e2) = bind-ok handler (λ h. ok ((path, h) ∷ [])) (rw on at e) in
            subst (λ new. Matches (new ++ more) ((switch, path, handler) ∷ rest)) (ok_inj e2)
              (Matches-on switch path handler rest h more on e1 m)
        | inr off ↦
            let none_new : ok [] ≡ ok first = rw off at e in
            subst (λ new. Matches (new ++ more) ((switch, path, handler) ∷ rest)) (ok_inj none_new)
              (Matches-off switch path handler rest more off m)
      ]

  routes-Matches :
      (table : List (String × String × Outcome H)) (served : List (String × H))
      → routes table ≡ ok served
      → Matches served table
  unfolding routes
  routes-Matches [] served e = rw (← ok_inj e) (refl, tt)
  routes-Matches ((switch, path, handler) ∷ rest) served e =
      let (first, e1, e2) =
        bind-ok (switched switch path handler)
          (λ first. routes rest >>= (λ more. ok (first ++ more))) e in
      let (more, e3, e4) = bind-ok (routes rest) (λ more. ok (first ++ more)) e2 in
      subst (λ all. Matches all ((switch, path, handler) ∷ rest)) (ok_inj e4)
        (switched-Matches switch path handler rest first more e1 (routes-Matches rest more e3))

-- the paths of a table of switches and paths, where the switch is on
abbrev pub enabled_paths : List (String × String) → List String
enabled_paths [] = []
enabled_paths ((switch, path) ∷ rest) =
    if str_eq switch "enable" then path ∷ enabled_paths rest else enabled_paths rest

module _ {S H : Type 0} (packages : Packages S H) (dsn : String)
    (flags : List (ScraperFlag S)) where
  new_mysqld-dsn : (h : H) → new_mysqld packages dsn flags ≡ ok h → is_empty dsn ≡ false
  unfolding init_mysql_exporter
  new_mysqld-dsn h e = elim (Bool-cases (is_empty dsn)) [
    | inl q ↦ let c : panic "data source name could not be null" ≡ ok h = rw q at e in cc
    | inr q ↦ q
  ]

  -- what is served for the switches
  abbrev pub IsShown : Switches → List (String × H) → Type 0
  IsShown s served =
      (map (λ (r : String × H). r.0) served
        ≡ enabled_paths (
            (s.mysql_switch, "/mysqld")
            ∷ (s.redis_switch, "/redis")
            ∷ (s.mongodb_switch, "/mongodb")
            ∷ (s.elasticsearch_switch, "/elastic")
            ∷ (s.kafka_switch, "/kafka")
            ∷ (s.postgres_switch, "/postgres")
            ∷ [])
          ++ ("/node" ∷ []))
      × IsServed served (switches_of packages dsn flags s)
      × Memᴰ ("/node", packages.node_exporter_handler) served
      × (str_eq s.mysql_switch "enable" ≡ true → is_empty dsn ≡ false)

  -- If the program comes to listen, it serves the paths of the switches that are "enable", in the
  -- order of the code, and /node after them, besides those of net/http/pprof, each with the handler
  -- that was made for it; and if MySQL's is among them, the data source name is not empty.
  pub main_routes-IsShown :
      (s : Switches) (served : List (String × H))
      → main packages dsn flags s ≡ ok served
      → IsShown s served
  unfolding main
  main_routes-IsShown s served e =
      let table = switches_of packages dsn flags s in
      let node : String × H = ("/node", packages.node_exporter_handler) in
      let (collectors, e1, e2) =
        bind-ok (or_fatal "Couldn't create collector" packages.new_node_collector)
          (λ collectors. routes table >>= (λ served. ok (served ++ (node ∷ [])))) e in
      let (first, e3, e4) = bind-ok (routes table) (λ served. ok (served ++ (node ∷ []))) e2 in
      let (paths, handlers) = routes-Matches table first e3 in
      let dsn_named : str_eq s.mysql_switch "enable" ≡ true → is_empty dsn ≡ false =
        λ on. let (h, made, m) = handlers.0 on in new_mysqld-dsn h made in
      subst (λ all. IsShown s all) (ok_inj e4)
        (
          map-append _ first (node ∷ []) ∙ ap (λ l. l ++ ("/node" ∷ [])) paths,
          IsServed-before first (node ∷ []) table handlers,
          Memᴰ.append_right first (Memᴰ.head refl),
          dsn_named,
        )
