-- ===== src/Postgres/Version.antt =====
-- parseVersion of collector/postgres/collector.go: the short version inside PostgreSQL's answer.
use Prim.Native.Char.{code}
use Prim.Native.String.{◌∷◌ as cons}
use exporter_plus.Prelude.{
  ℕ, String, Bool, true, false, ◌&&◌, ◌||◌, Option, none, some, leb, ◌==◌, if◌then◌else◌,
}
use exporter_plus.Prelude.Text.{append, is_empty}
use exporter_plus.Prelude.Outcome.{Outcome, err}
use exporter_plus.Postgres.Types.{Semver}

abbrev is_digit : ℕ → Bool
is_digit c = leb b'0' c && leb c b'9'

-- \w of the package regexp
abbrev is_word : ℕ → Bool
is_word c = is_digit c || (leb b'A' c && leb c b'Z') || c == b'_' || (leb b'a' c && leb c b'z')

-- \d+ at the front, with the rest: the longest run of digits
digits : String → String × String
digits String.[] = ("", "")
digits (cons c s) =
    let (run, rest) = digits s in if is_digit (code c) then (cons c run, rest) else ("", cons c s)

-- (\.\d+)? at the front, with the rest
minor : String → String × String
unfolding digits
minor String.[] = ("", "")
minor (cons c s) =
    let (run, rest) = digits s in
    if code c == b'.' && (if is_empty run then false else true)
    then (cons c run, rest)
    else ("", cons c s)

-- (\d+)(\.\d+)?(\.\d+)?
number : String → Option String
unfolding minor
number s =
    let (major, rest) = digits s in
    let (second, rest') = minor rest in
    let (third, rest'') = minor rest' in
    if is_empty major then none else some (append major (append second third))

-- ^\w+ and a space, then the number; `started` says whether a word character has been met
after_word : Bool → String → Option String
unfolding number
after_word started String.[] = none
after_word started (cons c s) =
    let inside = after_word true s in
    if is_word (code c) then inside else if started && code c == 32 then number s else none

-- versionRegex.FindStringSubmatch: the first group
unfoldable pub short_version : String → Option String
unfolding after_word
short_version s = after_word false s

module _ {V : Type 0} (sv : Semver V) where
  abbrev tolerant : Option String → String → Outcome V
  tolerant none s = err (append "Could not find a postgres version in string: " s)
  tolerant (some v) s = sv.parse_tolerant v

  unfoldable pub parse_version : String → Outcome V
  unfolding short_version
  parse_version s = tolerant (short_version s) s
