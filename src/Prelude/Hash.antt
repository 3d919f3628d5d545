-- ===== src/Prelude/Hash.antt =====
-- hash/fnv's 32-bit FNV-1a and the decimal digits that fmt prints, on byte texts.
use Prim.Native.Nat.{ℕ, zero, suc, ◌+◌, ◌*◌, ◌/◌, ◌%◌, ◌^◌, ◌<◌}
use mathlib.Core.Path.{◌≡◌, refl}
use mathlib.Core.List.{[], ◌∷◌, ◌++◌}
use native.Mathlib.Omega.{arith}
use wsaw.Prelude.Tests.{ltb, if◌then◌else◌}
use wsaw.Prelude.Text.{Text}

-- Exclusive or on the lowest n bits.
unfoldable pub xor : ℕ → ℕ → ℕ → ℕ
xor zero a b = 0
xor (suc n) a b = (a + b) % 2 + 2 * xor n (a / 2) (b / 2)

unfoldable pub fnv_from : ℕ → Text → ℕ
unfolding xor
fnv_from h [] = h
fnv_from h (c ∷ s) = fnv_from (xor 32 h c * 16777619 % 2 ^ 32) s

-- `New32a`, `Write`, `Sum32`.
unfoldable pub fnv32a : Text → ℕ
unfolding fnv_from
fnv32a = fnv_from 2166136261

-- The digits of a number below 10 ^ n.
unfoldable pub digits : ℕ → ℕ → Text
digits zero n = []
digits (suc f) n =
    let before = digits f (n / 10) in
    if ltb n 10 then (48 + n) ∷ [] else before ++ (48 + n % 10) ∷ []

-- `%d` of an integer that is not negative; twenty digits hold every int64.
unfoldable pub decimal : ℕ → Text
unfolding digits
decimal = digits 20

fnv_known : fnv32a (97 ∷ []) ≡ 3826002220
unfolding fnv32a
fnv_known = refl

decimal_known : decimal 1024 ≡ 49 ∷ 48 ∷ 50 ∷ 52 ∷ []
unfolding decimal
decimal_known = refl

fnv_from-bound : (h : ℕ) (s : Text) → h < 2 ^ 32 → fnv_from h s < 2 ^ 32
unfolding fnv_from
fnv_from-bound h [] b = b
fnv_from-bound h (c ∷ s) b = fnv_from-bound (xor 32 h c * 16777619 % 2 ^ 32) s (omega arith)

pub fnv32a-bound : (s : Text) → fnv32a s < 2 ^ 32
unfolding fnv32a
fnv32a-bound s = fnv_from-bound 2166136261 s (omega arith)
