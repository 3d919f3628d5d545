-- ===== src/Prelude/Text.antt =====
-- Text as the bytes of a Go string, with the functions of the package strings that the program
-- calls. Letter case and white space are those of ASCII.
use Prim.Native.Nat.{ℕ, ◌+◌}
use Prim.Native.Char.{code}
use Prim.Native.String.{String}
use mathlib.Core.Path.{◌≡◌, refl}
use mathlib.Core.Logic.{◌↔◌, ◌⊎◌, inl, inr}
use mathlib.Core.Bool.{Bool, true, false, ◌&&◌, ◌||◌}
use mathlib.Core.Option.{Option, none, some}
use mathlib.Core.List.{List, [], ◌∷◌, map, reverse}
use native.Mathlib.Omega.{arith}
use wsaw.Prelude.Tests.{ltb, leb, ◌==◌, if◌then◌else◌, is_some}
use wsaw.Prelude.Lists.{length, drop}

abbrev pub Text : Type 0
Text = List ℕ

-- The bytes of a literal. `String` has its own `[]` and `∷`.
abbrev pub bytes : String → Text
bytes String.[] = []
bytes (String.◌∷◌ c s) = code c ∷ bytes s

-- `a == b` on strings.
unfoldable pub eqb : Text → Text → Bool
eqb [] [] = true
eqb [] (d ∷ t) = false
eqb (c ∷ s) [] = false
eqb (c ∷ s) (d ∷ t) = c == d && eqb s t

-- `a < b` on strings: lexicographic by bytes.
unfoldable pub less : Text → Text → Bool
less [] [] = false
less [] (d ∷ t) = true
less (c ∷ s) [] = false
less (c ∷ s) (d ∷ t) = ltb c d || (c == d && less s t)

abbrev pub is_empty : Text → Bool
is_empty [] = true
is_empty (c ∷ s) = false

eqb→≡ : (s t : Text) → eqb s t ≡ true → s ≡ t
unfolding eqb
eqb→≡ [] [] h = refl
eqb→≡ [] (d ∷ t) h = cc
eqb→≡ (c ∷ s) [] h = cc
eqb→≡ (c ∷ s) (d ∷ t) h = ground (arith, eqb→≡ s t)

pub eqb_refl : (s : Text) → eqb s s ≡ true
unfolding eqb
eqb_refl [] = refl
eqb_refl (c ∷ s) = ground (arith, eqb_refl s)

≡→eqb : (s t : Text) → s ≡ t → eqb s t ≡ true
≡→eqb s t e = rw (← e) (eqb_refl s)

pub eqb_iff : (s t : Text) → (eqb s t ≡ true) ↔ (s ≡ t)
eqb_iff s t = (eqb→≡ s t, ≡→eqb s t)

pub less_irrefl : (s : Text) → less s s ≡ false
unfolding less
less_irrefl [] = refl
less_irrefl (c ∷ s) = ground (arith, less_irrefl s)

pub less_asymm : (s t : Text) → less s t ≡ true → less t s ≡ false
unfolding less
less_asymm [] [] h = refl
less_asymm [] (d ∷ t) h = refl
less_asymm (c ∷ s) [] h = cc
less_asymm (c ∷ s) (d ∷ t) h = ground (arith, less_asymm s t)

-- A third text is above the lesser one or below the greater.
pub less_cotrans : (s t u : Text) → less s u ≡ true → (less s t ≡ true) ⊎ (less t u ≡ true)
unfolding less
less_cotrans [] [] [] h = cc
less_cotrans [] [] (e ∷ u) h = inr refl
less_cotrans [] (d ∷ t) u h = inl refl
less_cotrans (c ∷ s) t [] h = cc
less_cotrans (c ∷ s) [] (e ∷ u) h = inr refl
less_cotrans (c ∷ s) (d ∷ t) (e ∷ u) h = ground (arith, less_cotrans s t u)

-- Two texts of which neither is less are one text.
pub eq_of_not-less : (s t : Text) → less s t ≡ false → less t s ≡ false → s ≡ t
unfolding less
eq_of_not-less [] [] h k = refl
eq_of_not-less [] (d ∷ t) h k = cc
eq_of_not-less (c ∷ s) [] h k = cc
eq_of_not-less (c ∷ s) (d ∷ t) h k = ground (arith, eq_of_not-less s t)

unfoldable pub has_prefix : Text → Text → Bool
has_prefix s [] = true
has_prefix [] (d ∷ t) = false
has_prefix (c ∷ s) (d ∷ t) = c == d && has_prefix s t

unfoldable pub has_suffix : Text → Text → Bool
unfolding has_prefix
has_suffix s t = has_prefix (reverse s) (reverse t)

unfoldable pub trim_prefix : Text → Text → Text
unfolding has_prefix
trim_prefix s p = if has_prefix s p then drop (length p) s else s

unfoldable pub trim_suffix : Text → Text → Text
unfolding has_suffix
trim_suffix s p = if has_suffix s p then reverse (drop (length p) (reverse s)) else s

-- What stands after the first occurrence of a text.
unfoldable pub after_first : Text → Text → Option Text
unfolding has_prefix
after_first p [] = if has_prefix [] p then some [] else none
after_first p (c ∷ s) =
    let rest = after_first p s in
    if has_prefix (c ∷ s) p then some (drop (length p) (c ∷ s)) else rest

-- `strings.Contains`.
unfoldable pub contains : Text → Text → Bool
unfolding after_first
contains s p = is_some (after_first p s)

unfoldable pub lower : ℕ → ℕ
lower c = if leb b'A' c && leb c b'Z' then c + 32 else c

unfoldable pub to_lower : Text → Text
unfolding lower
to_lower s = map lower s

-- Tab to carriage return, and the blank.
unfoldable pub is_space : ℕ → Bool
is_space c = c == 32 || (leb 9 c && leb c 13)

unfoldable pub trim_left : Text → Text
unfolding is_space
trim_left [] = []
trim_left (c ∷ s) = if is_space c then trim_left s else c ∷ s

unfoldable pub trim_space : Text → Text
unfolding trim_left
trim_space s = reverse (trim_left (reverse (trim_left s)))

-- `strings.Cut` at one byte: what stands before and after its first occurrence.
unfoldable pub cut : ℕ → Text → Option (Text × Text)
cut b [] = none
cut b (c ∷ s) =
    if c == b
    then some ([], s)
    else elim (cut b s) [ none ↦ none | some (before, after) ↦ some (c ∷ before, after) ]

pub lower_idem : (c : ℕ) → lower (lower c) ≡ lower c
unfolding lower
lower_idem c = ground arith

pub to_lower_idem : (s : Text) → to_lower (to_lower s) ≡ to_lower s
unfolding to_lower
to_lower_idem [] = refl
to_lower_idem (c ∷ s) = cc (lower_idem c, to_lower_idem s)
