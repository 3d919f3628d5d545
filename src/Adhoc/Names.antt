-- ===== src/Adhoc/Names.antt =====
-- Name of internal/adhoc/adhoc.go: the names that results of typed URLs are stored under.
use mathlib.Core.List.{reverse, reverse-cons}
use wsaw.Prelude.{
  ℕ, zero, suc, ◌≤◌, ◌≡◌, sym, true, Bool-cases, inl, inr, List, [], ◌∷◌, arith, length, take, All,
  All-append, subst, length-take,
}
use wsaw.Prelude.Text.{Text}
use wsaw.Adhoc.{
  is_name_byte, name_byte, name_bytes, is_edge, trim_edges_left, trim_edges, name, max_name,
}

abbrev pub IsName : Text → Type 0
IsName = All (λ c. is_name_byte c ≡ true)

name_bytes-IsName : (s : List ℕ) → IsName (name_bytes s)
unfolding name_bytes name_byte is_name_byte
name_bytes-IsName [] = tt
name_bytes-IsName (c ∷ s) = (ground arith, name_bytes-IsName s)

reverse-IsName : (s : Text) → IsName s → IsName (reverse s)
reverse-IsName [] h = tt
reverse-IsName (c ∷ s) h =
    subst IsName (sym (reverse-cons c s)) (
      All-append (λ c. is_name_byte c ≡ true) (reverse s) (c ∷ []) (reverse-IsName s h.1) (h.0, tt))

trim_edges_left-IsName : (s : Text) → IsName s → IsName (trim_edges_left s)
unfolding trim_edges_left
trim_edges_left-IsName [] h = tt
trim_edges_left-IsName (c ∷ s) h = elim (Bool-cases (is_edge c)) [
  | inl e ↦ rw e (trim_edges_left-IsName s h.1)
  | inr e ↦ rw e h
]

trim_edges-IsName : (s : Text) → IsName s → IsName (trim_edges s)
unfolding trim_edges
trim_edges-IsName s h =
    reverse-IsName _ (trim_edges_left-IsName _ (reverse-IsName _ (trim_edges_left-IsName s h)))

take-IsName : (n : ℕ) (s : Text) → IsName s → IsName (take n s)
take-IsName zero s h = tt
take-IsName (suc n) [] h = tt
take-IsName (suc n) (c ∷ s) h = (h.0, take-IsName n s h.1)

length-take_le : (n : ℕ) (s : Text) → length (take n s) ≤ n
length-take_le n s = omega (arith, length-take n s)

-- Whatever is typed, a name holds at most 80 bytes, and only letters, digits, dashes, dots and
-- underscores.
pub name-IsName : (raw : Text) → IsName (name raw) × (length (name raw) ≤ 80)
unfolding name
name-IsName raw =
    (take-IsName max_name _ (trim_edges-IsName _ (name_bytes-IsName _)), length-take_le max_name _)
