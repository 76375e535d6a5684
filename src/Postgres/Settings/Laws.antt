-- ===== src/Postgres/Settings/Laws.antt =====
-- The units of the runtime variables against a table of them.
use mathlib.Core.Path.{subst}
use exporter_plus.Prelude.{
  ℕ, ◌*◌, String, ◌≡◌, ◌≢◌, refl, false, Option, none, some, List, [], ◌∷◌, arith, str_eq,
  str_eq_cases, str_eq_of_ne, sym, ◌++◌, All, if◌then◌else◌, inl, inr,
}
use exporter_plus.Prelude.Text.{append}
use exporter_plus.Prelude.Int.{negsuc}
use exporter_plus.Prelude.GoMap.{GoMap, lookup, keys}
use exporter_plus.Prelude.Outcome.{Outcome, ok, err}
use exporter_plus.Prelude.Float.{Float64}
use exporter_plus.Postgres.Settings.{
  PgSetting, one_of, time_units, byte_units, base_unit, scale, in_base_unit, normalise_unit,
}

-- The size of a unit: so many base units, or a fraction of one.
pub data Size : Type 0 where
  whole : Size
  multiple : ℕ → Size
  fraction : ℕ → Size

-- The units of PostgreSQL's documentation, with their base units and sizes.
abbrev pub unit_table : GoMap (String × Size)
unit_table =
    ("ms", ("seconds", fraction 1000))
    ∷ ("s", ("seconds", whole))
    ∷ ("min", ("seconds", multiple 60))
    ∷ ("h", ("seconds", multiple 3600))
    ∷ ("d", ("seconds", multiple 86400))
    ∷ ("B", ("bytes", whole))
    ∷ ("kB", ("bytes", multiple 1024))
    ∷ ("MB", ("bytes", multiple 1048576))
    ∷ ("GB", ("bytes", multiple 1073741824))
    ∷ ("TB", ("bytes", multiple 1099511627776))
    ∷ ("8kB", ("bytes", multiple (8 * 1024)))
    ∷ ("16kB", ("bytes", multiple (16 * 1024)))
    ∷ ("32kB", ("bytes", multiple (32 * 1024)))
    ∷ ("16MB", ("bytes", multiple (16 * 1048576)))
    ∷ ("32MB", ("bytes", multiple (32 * 1048576)))
    ∷ ("64MB", ("bytes", multiple (64 * 1048576)))
    ∷ []

-- To prove something of every text: prove it of those of a list, and of a text that is none of them.
one_of-induction :
    (P : String → Type 0) (ts : List String) (s : String)
    → All P ts
    → (one_of ts s ≡ false → P s)
    → P s
unfolding one_of
one_of-induction P [] s _ other = other refl
one_of-induction P (t ∷ ts) s (p, ps) other = elim (str_eq_cases t s) [
  | inl e ↦ subst P e p
  | inr e ↦ one_of-induction P ts s ps (λ q. other (rw e q))
]

one_of-append :
    (ts us : List String) (s : String)
    → one_of (ts ++ us) s ≡ false
    → (one_of ts s ≡ false) × (one_of us s ≡ false)
unfolding one_of
one_of-append [] us s h = (refl, h)
one_of-append (t ∷ ts) us s h = ground (arith, one_of-append ts us s)

lookup-none {ℓ} :
    {V : Type ℓ} (m : GoMap V) (k : String) → one_of (keys m) k ≡ false → lookup k m ≡ none
unfolding one_of lookup
lookup-none [] k h = refl
lookup-none ((j, v) ∷ m) k h = ground (arith, lookup-none m k)

module _ {F : Type 0} (fl : Float64 F) where
  abbrev pub resize : Size → F → F
  resize whole val = val
  resize (multiple n) val = fl.times val n
  resize (fraction n) val = fl.over val n

  -- What a value in a unit of the table should become: itself in the base unit, but for -1, which
  -- is kept; and an error for a unit that is not in the table.
  abbrev pub expected : F → String → Option (String × Size) → Outcome (F × String)
  expected val unit none = err (append "Unknown unit for runtime variable: " unit)
  expected val unit (some (base, size)) =
      if fl.equals val (negsuc 0) then ok (val, base) else ok (resize size val, base)

  abbrev AsExpected : F → String → Type 0
  AsExpected val unit =
      unit ≢ ""
      → in_base_unit fl val unit (base_unit unit) ≡ expected val unit (lookup unit unit_table)

  known_units : (val : F) → All (AsExpected val) (keys unit_table)
  unfolding base_unit scale lookup str_eq
  known_units val = (
    λ ne. refl,
    (
      λ ne. refl,
      (
        λ ne. refl,
        (
          λ ne. refl,
          (
            λ ne. refl,
            (
              λ ne. refl,
              (
                λ ne. refl,
                (
                  λ ne. refl,
                  (
                    λ ne. refl,
                    (
                      λ ne. refl,
                      (
                        λ ne. refl,
                        (λ ne. refl, (λ ne. refl, (λ ne. refl, (λ ne. refl, (λ ne. refl, tt))))),
                      ),
                    ),
                  ),
                ),
              ),
            ),
          ),
        ),
      ),
    ),
  )

  unknown_unit :
      (val : F) (unit : String) → one_of (keys unit_table) unit ≡ false → AsExpected val unit
  unfolding base_unit
  unknown_unit val unit h ne =
      let (no_time, no_bytes) = one_of-append time_units byte_units unit h in
      rw (lookup-none unit_table unit h, str_eq_of_ne "" unit (λ e. ne (sym e)), no_time, no_bytes)

  -- The unit of a setting that is a number and has a unit is converted as the table says: a unit of
  -- the table gives the base unit and the resized value, or -1 unchanged, and any other unit is an
  -- error. A number without a unit is left alone, and a text that is no number is an error.
  pub normalise_unit_lem :
      (s : PgSetting)
      → ((val : F)
          → fl.parse s.setting ≡ some val
          → (s.unit ≢ "" → normalise_unit fl s ≡ expected val s.unit (lookup s.unit unit_table))
            × (s.unit ≡ "" → normalise_unit fl s ≡ ok (val, "")))
        × (fl.parse s.setting ≡ none
            → normalise_unit fl s ≡ err (append "Error converting setting " s.name))
  unfolding normalise_unit str_eq
  normalise_unit_lem s = (
    λ val e. (
      λ ne. rw e (
          one_of-induction (AsExpected val) (keys unit_table) s.unit (known_units val)
            (unknown_unit val s.unit) ne),
      λ no_unit. rw (e, no_unit),
    ),
    λ e. rw e,
  )
