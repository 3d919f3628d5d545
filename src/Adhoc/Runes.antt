-- ===== src/Adhoc/Runes.antt =====
-- The runes that a range statement takes from a text, as Name of internal/adhoc/adhoc.go does: UTF-8
-- with 65533 for every byte that starts no valid encoding.
use wsaw.Prelude.{
  ℕ, zero, suc, ◌+◌, ◌*◌, ◌-◌, Bool, false, ◌&&◌, List, [], ◌∷◌, leb, ltb, ◌==◌, if◌then◌else◌,
}
use wsaw.Prelude.Text.{Text}

abbrev pub within : ℕ → ℕ → ℕ → Bool
within lo hi c = leb lo c && leb c hi

abbrev pub is_continuation : ℕ → Bool
is_continuation = within 128 191

-- The second byte after each first byte of three or four.
abbrev pub second_of_three : ℕ → ℕ → Bool
second_of_three a b =
    if a == 224 then within 160 191 b else if a == 237 then within 128 159 b else is_continuation b

abbrev pub second_of_four : ℕ → ℕ → Bool
second_of_four a b =
    if a == 240 then within 144 191 b else if a == 244 then within 128 143 b else is_continuation b

abbrev pub is_two : Text → Bool
is_two (a ∷ b ∷ _) = within 194 223 a && is_continuation b
is_two _ = false

abbrev pub is_three : Text → Bool
is_three (a ∷ b ∷ c ∷ _) = within 224 239 a && second_of_three a b && is_continuation c
is_three _ = false

abbrev pub is_four : Text → Bool
is_four (a ∷ b ∷ c ∷ d ∷ _) =
    within 240 244 a && second_of_four a b && is_continuation c && is_continuation d
is_four _ = false

-- The bytes that follow the first one in its encoding.
unfoldable pub extra_bytes : Text → ℕ
extra_bytes s = if is_two s then 1 else if is_three s then 2 else if is_four s then 3 else 0

abbrev pub byte_at : ℕ → Text → ℕ
byte_at _ [] = 0
byte_at zero (c ∷ _) = c
byte_at (suc n) (_ ∷ s) = byte_at n s

-- A byte below 128 is its own rune.
unfoldable pub first_rune : ℕ → Text → ℕ
first_rune c s =
    if ltb c 128
    then c
    else if is_two (c ∷ s)
    then (c - 192) * 64 + (byte_at 0 s - 128)
    else if is_three (c ∷ s)
    then (c - 224) * 4096 + (byte_at 0 s - 128) * 64 + (byte_at 1 s - 128)
    else if is_four (c ∷ s)
    then (c - 240) * 262144
      + (byte_at 0 s - 128) * 4096
      + (byte_at 1 s - 128) * 64
      + (byte_at 2 s - 128)
    else 65533

-- Passes over the bytes of the rune before.
unfoldable pub runes_after : ℕ → Text → List ℕ
runes_after _ [] = []
runes_after (suc n) (_ ∷ s) = runes_after n s
runes_after zero (c ∷ s) = first_rune c s ∷ runes_after (extra_bytes (c ∷ s)) s

unfoldable pub runes : Text → List ℕ
runes = runes_after 0
