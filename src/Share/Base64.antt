-- ===== src/Share/Base64.antt =====
-- `encode` and `decode` of internal/share/share.go: base64.RawURLEncoding, on bytes.
use wsaw.Prelude.{
  ℕ, ◌+◌, ◌-◌, ◌*◌, ◌/◌, ◌%◌, ◌<◌, ◌≡◌, refl, Bool, false, not, ◌||◌, Option, none, some, List, [],
  ◌∷◌, arith, ltb, leb, ◌==◌, if◌then◌else◌, keep_if, All,
}
use wsaw.Prelude.Text.{Text}

-- The alphabet: A to Z, a to z, 0 to 9, `-` and `_`.
unfoldable pub letter : ℕ → ℕ
letter n =
    if ltb n 26
    then 65 + n
    else if ltb n 52
    then 71 + n
    else if ltb n 62
    then n - 4
    else if n == 62
    then 45
    else 95

unfoldable pub value : ℕ → Option ℕ
value c =
    if leb 65 c
    then (if leb c 90
        then some (c - 65)
        else if c == 95
        then some 63
        else if leb 97 c
        then (if leb c 122 then some (c - 71) else none)
        else none)
    else if leb 48 c
    then (if leb c 57 then some (c + 4) else none)
    else if c == 45
    then some 62
    else none

-- Three bytes are four numbers below 64.
unfoldable pub sextets : Text → List ℕ
sextets [] = []
sextets (a ∷ []) = a / 4 ∷ a % 4 * 16 ∷ []
sextets (a ∷ b ∷ []) = a / 4 ∷ (a % 4 * 16 + b / 16) ∷ b % 16 * 4 ∷ []
sextets (a ∷ b ∷ c ∷ s) = a / 4 ∷ (a % 4 * 16 + b / 16) ∷ (b % 16 * 4 + c / 64) ∷ c % 64 ∷ sextets s

-- The bits that an incomplete last group leaves over are not looked at, as in the lax decoder.
unfoldable pub pack : List ℕ → Option Text
pack [] = some []
pack (x ∷ []) = none
pack (x ∷ y ∷ []) = some ((x * 4 + y / 16) ∷ [])
pack (x ∷ y ∷ z ∷ []) = some ((x * 4 + y / 16) ∷ (y % 16 * 16 + z / 4) ∷ [])
pack (x ∷ y ∷ z ∷ w ∷ ns) = elim (pack ns) [
  | none ↦ none
  | some s ↦ some ((x * 4 + y / 16) ∷ (y % 16 * 16 + z / 4) ∷ (z % 4 * 64 + w) ∷ s)
]

unfoldable pub values : Text → Option (List ℕ)
values [] = some []
values (c ∷ s) = elim (value c) [
  | none ↦ none
  | some n ↦ elim (values s) [ none ↦ none | some ns ↦ some (n ∷ ns) ]
]

unfoldable pub letters : List ℕ → Text
letters [] = []
letters (n ∷ ns) = letter n ∷ letters ns

unfoldable pub encode : Text → Text
unfolding letters
encode s = letters (sextets s)

-- The decoder passes over the line ends in its input.
unfoldable pub is_line_end : ℕ → Bool
is_line_end c = c == 10 || c == 13

unfoldable pub decode : Text → Option Text
unfolding is_line_end values pack
decode s = elim (values (keep_if (λ c. not (is_line_end c)) s)) [ none ↦ none | some ns ↦ pack ns ]

abbrev pub IsByte : ℕ → Type 0
IsByte c = c < 256

value-letter : (n : ℕ) → n < 64 → value (letter n) ≡ some n
unfolding value letter
value-letter n h = ground arith

letter-line : (n : ℕ) → n < 64 → is_line_end (letter n) ≡ false
unfolding is_line_end letter
letter-line n h = ground arith

sextets-lt : (s : Text) → All IsByte s → All (λ n. n < 64) (sextets s)
unfolding sextets
sextets-lt [] h = tt
sextets-lt (a ∷ []) h = (omega arith, (omega arith, tt))
sextets-lt (a ∷ b ∷ []) (ha, (hb, h)) = (omega arith, (omega arith, (omega arith, tt)))
sextets-lt (a ∷ b ∷ c ∷ s) (ha, (hb, (hc, h))) =
    (omega arith, (omega arith, (omega arith, (omega arith, sextets-lt s h))))

pack-sextets : (s : Text) → All IsByte s → pack (sextets s) ≡ some s
unfolding pack sextets
pack-sextets [] h = refl
pack-sextets (a ∷ []) h = ground arith
pack-sextets (a ∷ b ∷ []) h = ground arith
pack-sextets (a ∷ b ∷ c ∷ s) (ha, (hb, (hc, h))) = ground (arith, pack-sextets s h)

values-letters : (ns : List ℕ) → All (λ n. n < 64) ns → values (letters ns) ≡ some ns
unfolding values letters
values-letters [] h = refl
values-letters (n ∷ ns) h = ground (arith, value-letter n h.0, values-letters ns h.1)

lines-letters :
    (ns : List ℕ)
    → All (λ n. n < 64) ns
    → keep_if (λ c. not (is_line_end c)) (letters ns) ≡ letters ns
unfolding keep_if letters
lines-letters [] h = refl
lines-letters (n ∷ ns) h = rw (letter-line n h.0, lines-letters ns h.1)

-- Decoding what was encoded gives the bytes back, for every sequence of bytes.
pub decode-encode : (s : Text) → All IsByte s → decode (encode s) ≡ some s
unfolding encode decode
decode-encode s h = ground (
  arith,
  lines-letters (sextets s) (sextets-lt s h),
  values-letters (sextets s) (sextets-lt s h),
  pack-sextets s h,
)
