-- ===== src/Prelude/Int.antt =====
-- The integers, over the native numbers, and the wrap-around of Go's int64.
pub mod Laws
use Prim.Native.Nat.{ℕ, suc, ◌+◌, ◌-◌, ◌*◌, ◌/◌, ◌%◌, ◌^◌, ◌≤◌, ◌<◌}
use Prim.Native.String.{String}
use mathlib.Core.Bool.{Bool}
use exporter_plus.Prelude.Tests.{ltb, leb, ◌==◌, if◌then◌else◌}
use exporter_plus.Prelude.Text.{append, format_ℕ}

-- `negsuc n` is -(n + 1).
pub data ℤ : Type 0 where
  pos : ℕ → ℤ
  negsuc : ℕ → ℤ

abbrev pub pos_part : ℤ → ℕ
pos_part (pos n) = n
pos_part (negsuc n) = 0

abbrev pub neg_part : ℤ → ℕ
neg_part (pos n) = 0
neg_part (negsuc n) = suc n

-- a - b, as an integer.
abbrev pub sub_ℕ : ℕ → ℕ → ℤ
sub_ℕ a b = if leb b a then pos (a - b) else negsuc (b - a - 1)

infixl 65 ◌+ℤ◌ ◌-ℤ◌
infix 50 ◌≤ℤ◌
unfoldable pub ◌+ℤ◌ : ℤ → ℤ → ℤ
a +ℤ b = sub_ℕ (pos_part a + pos_part b) (neg_part a + neg_part b)

unfoldable pub ◌-ℤ◌ : ℤ → ℤ → ℤ
a -ℤ b = sub_ℕ (pos_part a + neg_part b) (neg_part a + pos_part b)

abbrev pub ◌≤ℤ◌ : ℤ → ℤ → Type 0
a ≤ℤ b = pos_part a + neg_part b ≤ pos_part b + neg_part a

abbrev pub ltb_ℤ : ℤ → ℤ → Bool
ltb_ℤ a b = ltb (pos_part a + neg_part b) (pos_part b + neg_part a)

abbrev pub eqb_ℤ : ℤ → ℤ → Bool
eqb_ℤ a b = pos_part a + neg_part b == pos_part b + neg_part a

-- int64 arithmetic: the result modulo 2^64, in the range from -2^63 to 2^63 - 1.
abbrev pub wrap64 : ℤ → ℤ
wrap64 (pos n) =
    let w = n % 18446744073709551616 in
    if ltb w 9223372036854775808 then pos w else negsuc (18446744073709551615 - w)
wrap64 (negsuc n) =
    let w = n % 18446744073709551616 in
    if ltb w 9223372036854775808 then negsuc w else pos (18446744073709551615 - w)

unfoldable pub add64 : ℤ → ℤ → ℤ
unfolding ◌+ℤ◌
add64 a b = wrap64 (a +ℤ b)

unfoldable pub sub64 : ℤ → ℤ → ℤ
unfolding ◌-ℤ◌
sub64 a b = wrap64 (a -ℤ b)

-- The value is one of int64's.
abbrev pub IsInt64 : ℤ → Type 0
IsInt64 a = (pos_part a < 9223372036854775808) × (neg_part a ≤ 9223372036854775808)

-- a / k of Go, for a positive constant k: towards zero
unfoldable pub quot : ℤ → ℕ → ℤ
quot (pos n) k = pos (n / k)
quot (negsuc n) k = sub_ℕ 0 ((n + 1) / k)

-- strconv.FormatInt(a, 10)
unfoldable pub format_ℤ : ℤ → String
format_ℤ (pos n) = format_ℕ n
format_ℤ (negsuc n) = append "-" (format_ℕ (suc n))
