-- ===== src/Prelude/Assoc.antt =====
-- Go maps with text keys, as association lists in which no key stands twice, and the order in
-- which a `range` loop visits them.
use Prim.Native.Nat.{ℕ, suc, ◌≤◌}
use mathlib.Core.Path.{◌≡◌, refl}
use mathlib.Core.Bool.{Bool}
use mathlib.Core.Option.{Option, none, some}
use mathlib.Core.List.{List, [], ◌∷◌, Permᴰ}
use native.Mathlib.Omega.{arith}
use wsaw.Prelude.Tests.{if◌then◌else◌, is_some}
use wsaw.Prelude.Lists.{length, All, Permᴰ-refl}
use wsaw.Prelude.Text.{Text, eqb, eqb_iff, eqb_refl}

module _ {V : Type 0} where
  unfoldable pub lookup : Text → List (Text × V) → Option V
  lookup k [] = none
  lookup k ((j, v) ∷ m) = if eqb j k then some v else lookup k m

  abbrev pub contains : Text → List (Text × V) → Bool
  contains k m = is_some (lookup k m)

  unfoldable pub set : Text → V → List (Text × V) → List (Text × V)
  set k v [] = (k, v) ∷ []
  set k v ((j, w) ∷ m) = if eqb j k then (j, v) ∷ m else (j, w) ∷ set k v m

  unfoldable pub delete : Text → List (Text × V) → List (Text × V)
  delete k [] = []
  delete k ((j, w) ∷ m) = if eqb j k then m else (j, w) ∷ delete k m

  -- No key stands twice.
  abbrev pub Unique : List (Text × V) → Type 0
  Unique [] = Unit {0}
  Unique ((k, v) ∷ m) = (lookup k m ≡ none) × Unique m

  pub lookup-set :
      (k j : Text) (v : V) (m : List (Text × V))
      → lookup j (set k v m) ≡ (if eqb k j then some v else lookup j m)
  unfolding lookup set
  lookup-set k j v [] = refl
  lookup-set k j v ((i, w) ∷ m) =
      ground (arith, eqb_iff k j, eqb_iff i k, eqb_iff i j, eqb_refl j, lookup-set k j v m)

  pub lookup-set_self : (k : Text) (v : V) (m : List (Text × V)) → lookup k (set k v m) ≡ some v
  lookup-set_self k v m = ground (arith, lookup-set k k v m, eqb_refl k)

  pub set-Unique : (k : Text) (v : V) (m : List (Text × V)) → Unique m → Unique (set k v m)
  unfolding lookup set
  set-Unique k v [] u = (refl, tt)
  set-Unique k v ((j, w) ∷ m) u =
      ground (arith, set-Unique k v m u.1, lookup-set k j v m, eqb_iff j k, eqb_iff k j)

  pub lookup-delete :
      (k j : Text) (m : List (Text × V))
      → Unique m
      → lookup j (delete k m) ≡ (if eqb k j then none else lookup j m)
  unfolding lookup delete
  lookup-delete k j [] u = ground arith
  lookup-delete k j ((i, w) ∷ m) u =
      ground (arith, eqb_iff k j, eqb_iff i k, eqb_iff i j, eqb_refl j, lookup-delete k j m u.1)

  pub delete-Unique : (k : Text) (m : List (Text × V)) → Unique m → Unique (delete k m)
  unfolding lookup delete
  delete-Unique k [] u = tt
  delete-Unique k ((j, w) ∷ m) u = ground (arith, delete-Unique k m u.1, lookup-delete k j m u.1)

  pub length-set-le : (k : Text) (v : V) (m : List (Text × V)) → length (set k v m) ≤ suc (length m)
  unfolding set
  length-set-le k v [] = omega arith
  length-set-le k v ((j, w) ∷ m) = ground (arith, length-set-le k v m)

  -- Every entry is the one that its key finds.
  pub entries_of :
      (P : Text × V → Type 0) (m : List (Text × V))
      → Unique m
      → ((k : Text) (v : V) → lookup k m ≡ some v → P (k, v))
      → All P m
  unfolding lookup
  entries_of P [] u h = tt
  entries_of P ((j, w) ∷ m) u h = (
    h j w (ground (arith, eqb_refl j)),
    entries_of P m u.1 λ k v e. h k v (ground (arith, eqb_iff j k)),
  )

-- A `range` loop over a map visits every entry once, in an order that Go leaves open; the number
-- tells the loops of a function apart.
pub record MapOrder : Type 1 where
  pub visit : {V : Type 0} → ℕ → List (Text × V) → List (Text × V)
  pub visit-Permᴰ : {V : Type 0} (loop : ℕ) (m : List (Text × V)) → Permᴰ m (visit loop m)

-- The order of insertion is one such order.
abbrev pub in_order : MapOrder
in_order = record { visit = λ loop m. m; visit-Permᴰ = λ loop m. Permᴰ-refl m }
