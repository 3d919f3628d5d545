-- ===== src/Prelude/Int64.antt =====
-- int64 values as their two's complement patterns, numbers below 2 ^ 64, for the durations of the
-- program.
use Prim.Native.Nat.{ℕ, ◌+◌, ◌%◌}
use mathlib.Core.Bool.{Bool, ◌&&◌}
use wsaw.Prelude.Tests.{ltb, leb}

-- `a > 0`
abbrev pub is_positive : ℕ → Bool
is_positive a = ltb 0 a && ltb a 9223372036854775808

-- `a <= b`
abbrev pub signed_le : ℕ → ℕ → Bool
signed_le a b =
    leb ((a + 9223372036854775808) % 18446744073709551616)
      ((b + 9223372036854775808) % 18446744073709551616)

-- `a < b`
abbrev pub signed_lt : ℕ → ℕ → Bool
signed_lt a b =
    ltb ((a + 9223372036854775808) % 18446744073709551616)
      ((b + 9223372036854775808) % 18446744073709551616)

abbrev pub add64 : ℕ → ℕ → ℕ
add64 a b = (a + b) % 18446744073709551616
