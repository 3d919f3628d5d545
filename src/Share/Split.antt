-- ===== src/Share/Split.antt =====
-- `split` of internal/share/share.go, and its round trips.
use wsaw.Prelude.{
  ℕ, ◌≡◌, ◌↔◌, refl, Bool, true, false, not, ◌&&◌, ◌||◌, Option, none, some, inl, inr, Option-cases,
  [], ◌∷◌, ◌++◌, arith, ◌==◌, if◌then◌else◌,
}
use wsaw.Prelude.Text.{Text, cut, is_empty}

abbrev pub dot : ℕ
dot = 46

unfoldable pub has_dot : Text → Bool
has_dot [] = false
has_dot (c ∷ s) = c == dot || has_dot s

unfoldable pub split : Text → Option (Text × Text × Text)
unfolding cut has_dot
split token = elim (cut dot token) [
  | none ↦ none
  | some (header_part, rest) ↦ if is_empty header_part then none else elim (cut dot rest) [
    | none ↦ none
    | some (claims_part, sig_part) ↦
        if is_empty claims_part || is_empty sig_part || has_dot sig_part
        then none
        else some (header_part, claims_part, sig_part)
  ]
]

-- A part of a token: not empty, and with no dot in it.
abbrev pub is_part : Text → Bool
is_part s = not (is_empty s) && not (has_dot s)

cut-append : (p s : Text) → has_dot p ≡ false → cut dot (p ++ dot ∷ s) ≡ some (p, s)
unfolding cut has_dot
cut-append [] s h = refl
cut-append (c ∷ p) s h = ground (arith, cut-append p s)

append-cut : (t p s : Text) → cut dot t ≡ some (p, s) → (t ≡ p ++ dot ∷ s) × (has_dot p ≡ false)
unfolding cut has_dot
append-cut [] p s h = cc
append-cut (c ∷ t) p s h = elim (Option-cases (cut dot t)) [
  | inl e ↦ ground (arith, e)
  | inr ((q, r), e) ↦ ground (arith, e, append-cut t q r e)
]

split-parts :
    (h c s : Text)
    → (is_part h && is_part c && is_part s) ≡ true
    → split (h ++ dot ∷ (c ++ dot ∷ s)) ≡ some (h, c, s)
unfolding split
split-parts h c s e = ground (arith, cut-append h (c ++ dot ∷ s), cut-append c s)

parts-split :
    (t h c s : Text)
    → split t ≡ some (h, c, s)
    → (t ≡ h ++ dot ∷ (c ++ dot ∷ s)) × ((is_part h && is_part c && is_part s) ≡ true)
unfolding split
parts-split t h c s e = elim (Option-cases (cut dot t)) [
  | inl n ↦ ground (arith, n)
  | inr ((h', r), k) ↦ elim (Option-cases (cut dot r)) [
    | inl n ↦ ground (arith, n, k)
    | inr ((c', s'), l) ↦ ground (arith, k, l, append-cut t h' r k, append-cut r c' s' l)
  ]
]

-- A text splits into three parts exactly if it is these parts joined by two dots, and each of them
-- is not empty and holds no dot.
pub split_iff :
    (t h c s : Text)
    → (split t ≡ some (h, c, s))
      ↔ ((t ≡ h ++ dot ∷ (c ++ dot ∷ s)) × ((is_part h && is_part c && is_part s) ≡ true))
split_iff t h c s = (parts-split t h c s, λ e. rw e.0 (split-parts h c s e.1))
