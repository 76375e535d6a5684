-- ===== src/Prelude/Text.antt =====
-- The functions of Go's packages strings and strconv that the program calls. A Go string is a
-- `String`, walked by character (a text that is valid UTF-8).
pub mod Laws
use Prim.Native.Nat.{ℕ, zero, suc, ◌+◌, ◌*◌, ◌/◌, ◌%◌}
use Prim.Native.Char.{Char, code}
use Prim.Native.String
use Prim.Native.String.{String, [], ◌∷◌}
use mathlib.Core.Bool.{Bool, true, false, ◌&&◌, ◌||◌, not}
use mathlib.Core.List
use mathlib.Core.List.{List}
use exporter_plus.Prelude.Tests.{◌==◌, leb, if◌then◌else◌}

-- s + t
abbrev pub append : String → String → String
append s t = String.◌++◌ s t

-- fmt.Sprintf("%s_%s", s, t)
abbrev pub join_words : String → String → String
join_words s t = append s (append "_" t)

abbrev pub is_empty : String → Bool
is_empty [] = true
is_empty (c ∷ s) = false

abbrev pub push_head : Char → List String → List String
push_head c List.[] = List.◌∷◌ (c ∷ []) List.[]
push_head c (List.◌∷◌ p ps) = List.◌∷◌ (c ∷ p) ps

-- strings.Split(s, sep), for a separator of one character: the parts between the separators,
-- and one empty part for an empty text
unfoldable pub split : ℕ → String → List String
split sep [] = List.◌∷◌ [] List.[]
split sep (c ∷ s) =
    let rest = split sep s in if code c == sep then List.◌∷◌ [] rest else push_head c rest

-- strings.Join(parts, sep)
unfoldable pub join : String → List String → String
join sep List.[] = []
join sep (List.◌∷◌ p List.[]) = p
join sep (List.◌∷◌ p (List.◌∷◌ q ps)) = append p (append sep (join sep (List.◌∷◌ q ps)))

-- unicode.IsSpace
unfoldable pub is_space : ℕ → Bool
is_space c =
    (leb 9 c && leb c 13)
    || c == 32
    || c == 133
    || c == 160
    || c == 5760
    || (leb 8192 c && leb c 8202)
    || c == 8232
    || c == 8233
    || c == 8239
    || c == 8287
    || c == 12288

unfoldable pub trim_left : String → String
unfolding is_space
trim_left [] = []
trim_left (c ∷ s) = let rest = trim_left s in if is_space (code c) then rest else c ∷ s

unfoldable pub trim_right : String → String
unfolding is_space
trim_right [] = []
trim_right (c ∷ s) =
    let rest = trim_right s in if is_space (code c) && is_empty rest then [] else c ∷ rest

-- strings.TrimSpace
unfoldable pub trim_space : String → String
unfolding trim_left trim_right
trim_space s = trim_right (trim_left s)

-- strings.Replace(s, old, new, -1), for an `old` of one character
unfoldable pub replace : ℕ → String → String → String
replace old new [] = []
replace old new (c ∷ s) =
    let rest = replace old new s in if code c == old then append new rest else c ∷ rest

-- strings.Contains(s, c), for one character
unfoldable pub contains : ℕ → String → Bool
contains c [] = false
contains c (d ∷ s) = code d == c || contains c s

abbrev digit : ℕ → String
digit d =
    if d == 0
    then "0"
    else if d == 1
    then "1"
    else if d == 2
    then "2"
    else if d == 3
    then "3"
    else if d == 4
    then "4"
    else if d == 5
    then "5"
    else if d == 6
    then "6"
    else if d == 7
    then "7"
    else if d == 8
    then "8"
    else "9"

-- The digits of a number, for fuel above it; each round divides by ten, so n + 1 rounds are enough.
unfoldable pub format_from : ℕ → ℕ → String
format_from zero n = []
format_from (suc fuel) n =
    let higher = format_from fuel (n / 10) in
    if leb 10 n then append higher (digit (n % 10)) else digit n

-- strconv.FormatInt(n, 10) of a number that is not negative
unfoldable pub format_ℕ : ℕ → String
unfolding format_from
format_ℕ n = format_from (suc n) n
