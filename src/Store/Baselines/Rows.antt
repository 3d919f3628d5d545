-- ===== src/Store/Baselines/Rows.antt =====
-- The statements of internal/store/store.go that select a row of the table of results.
use mathlib.Core.Bool.{false≢true}
use wsaw.Prelude.{
  All-map, ◌≡◌, sym, ◌∙◌, subst, inl, inr, true, false, some, Option-cases, List, [], ◌∷◌, arith,
  All, Bool-cases,
}
use wsaw.Prelude.Text.{Text, eqb_iff, less_irrefl}
use wsaw.Model.Enums.{ConsentMode, mode_text}
use wsaw.Store.Baselines.{Row, is_row, earlier, find_row, newest}

-- The primary key of results: a series has one row of each scan.
unfoldable pub IsKeyed : List Row → Type 0
IsKeyed [] = Unit
IsKeyed (x ∷ xs) = All (λ y. is_row x.target x.mode x.scan_id y ≡ false) xs × IsKeyed xs

pub newest-All : (P : Row → Type 0) (xs : List Row) (y : Row) → All P xs → newest xs ≡ some y → P y
unfolding newest
newest-All P [] y h e = cc
newest-All P (x ∷ xs) y h e = elim (Option-cases (newest xs)) [
  | inl f ↦ subst P (ground (arith, e, f)) h.0
  | inr (z, f) ↦ elim (Bool-cases (earlier x z)) [
    | inl k ↦ newest-All P xs y h.1 (ground (arith, e, f, k))
    | inr k ↦ subst P (ground (arith, e, f, k)) h.0
  ]
]

same_row :
    (t id : Text) (m : ConsentMode) (x y : Row)
    → is_row t m id x ≡ true
    → is_row t m id y ≡ true
    → is_row x.target x.mode x.scan_id y ≡ true
same_row t id m x y h k =
    ground
      (arith, eqb_iff x.target t, eqb_iff (mode_text x.mode) (mode_text m), eqb_iff x.scan_id id)

pub find_row-is :
    (t : Text) (m : ConsentMode) (id : Text) (rows : List Row) (a : Row)
    → find_row t m id rows ≡ some a
    → is_row t m id a ≡ true
unfolding find_row
find_row-is t m id [] a e = cc
find_row-is t m id (y ∷ ys) a e = elim (Bool-cases (is_row t m id y)) [
  | inl h ↦ let d : y ≡ a = ground (arith, e, h) in subst (λ r. is_row t m id r ≡ true) d h
  | inr h ↦ find_row-is t m id ys a (ground (arith, e, h))
]

pub find_row-one :
    (t : Text) (m : ConsentMode) (id : Text) (rows : List Row) (a : Row)
    → IsKeyed rows
    → find_row t m id rows ≡ some a
    → All (λ x. is_row t m id x ≡ true → x ≡ a) rows
unfolding find_row IsKeyed
find_row-one t m id [] a k e = tt
find_row-one t m id (y ∷ ys) a k e = elim (Bool-cases (is_row t m id y)) [
  | inl h ↦
      let d : y ≡ a = ground (arith, e, h) in
      (λ _. d, All-map ys (λ x p q. absurd (false≢true (sym p ∙ same_row t id m y x h q))) k.0)
  | inr h ↦
      (λ q. absurd (false≢true (sym h ∙ q)), find_row-one t m id ys a k.1 (ground (arith, e, h)))
]

pub earlier_irrefl : (a : Row) → earlier a a ≡ false
earlier_irrefl a = ground (arith, less_irrefl a.scan_id)
