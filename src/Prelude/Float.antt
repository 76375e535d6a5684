-- ===== src/Prelude/Float.antt =====
-- float64 and the parts of the packages strconv, fmt and time that make one, as a parameter: the
-- kernel has no floating point. With them stands what the package prometheus says to a metric.
-- `concrete` is an instance over the integers, for runs.
use Prim.Native.Nat.{ℕ, ◌+◌, ◌*◌}
use Prim.Native.String.{String}
use mathlib.Core.Bool.{Bool, true}
use mathlib.Core.List.{List}
use mathlib.Core.Option.{Option, none, some}
use exporter_plus.Prelude.Int.{ℤ, pos, negsuc, eqb_ℤ, sub_ℕ, format_ℤ, quot}
use exporter_plus.Prelude.Metrics.{Desc}
use exporter_plus.Prelude.Tests.{str_eq, if◌then◌else◌}

pub record Float64 (F : Type 0) : Type 0 where
  pub nan : F
  -- float64(v)
  pub of_int : ℤ → F
  -- strconv.ParseFloat(s, 64), `none` for its error
  pub parse : String → Option F
  -- fmt.Sprintf("%v", f)
  pub format : F → String
  -- f * float64(n), f / float64(n), f == float64(n)
  pub times : F → ℕ → F
  pub over : F → ℕ → F
  pub equals : F → ℤ → Bool
  -- time.ParseDuration(s), in nanoseconds
  pub parse_duration : String → Option ℤ
  -- whether MustNewConstMetric takes a descriptor that NewDesc made and as many label values as it has
  -- labels: the names have to be valid and distinct, and the values UTF-8
  pub accepts : Desc → List String → Bool

abbrev times_ℤ : ℤ → ℕ → ℤ
times_ℤ (pos n) k = pos (n * k)
times_ℤ (negsuc n) k = sub_ℕ 0 ((n + 1) * k)

-- Integers for floats; every text reads as 7, but for the empty one.
abbrev pub concrete : Float64 ℤ
concrete = record {
  nan = negsuc 0;
  of_int = λ n. n;
  parse = λ s. if str_eq s "" then none else some (pos 7);
  format = format_ℤ;
  times = times_ℤ;
  over = quot;
  equals = eqb_ℤ;
  parse_duration = λ s. none;
  accepts = λ desc values. true;
}
