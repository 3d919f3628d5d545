-- ===== src/Schedule/Spread.antt =====
-- How internal/daemon/schedule.go spreads the first runs.
use native.Mathlib.Nat.{mul-lt-mul_of_pos_right}
use wsaw.Prelude.{ℕ, ◌+◌, ◌*◌, ◌/◌, ◌%◌, ◌<◌, ◌≡◌, arith}
use wsaw.Schedule.{spread}

halves :
    (p : ℕ)
    → p < 79228162514264337593543950336
    → p / 18446744073709551616 * 4294967296 % 18446744073709551616
        + p % 18446744073709551616 / 4294967296
      ≡ p / 4294967296
halves p h = omega arith

product-bound :
    (hash window : ℕ) → hash < 4294967296 → 0 < window → hash * window < 4294967296 * window
product-bound hash window h pos = mul-lt-mul_of_pos_right h pos

-- The two halves of the 128-bit product, shifted and joined, are the product divided by 2 ^ 32: for
-- every 32-bit hash and every window below 2 ^ 63 nothing is cut off. The result is below the
-- window.
pub spread-lem :
    (hash window : ℕ)
    → hash < 4294967296
    → 0 < window
    → window < 9223372036854775808
    → (spread hash window ≡ hash * window / 4294967296) × (spread hash window < window)
unfolding spread
spread-lem hash window h pos w =
    ground (arith, halves (hash * window), product-bound hash window h pos)
