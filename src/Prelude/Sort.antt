-- ===== src/Prelude/Sort.antt =====
-- `sort.SliceStable`: the stable sort by a `less` function, as an insertion sort, and why its
-- result depends on nothing but the order among tied items.
use mathlib.Core.Path.{◌≡◌, refl, ap₂, sym, ◌∙◌}
use mathlib.Core.Logic.{◌⊎◌, inl, inr}
use mathlib.Core.Bool.{Bool, true, false, not, ◌&&◌}
use mathlib.Core.List.{List, [], ◌∷◌, Permᴰ}
use native.Mathlib.Omega.{arith}
use wsaw.Prelude.Tests.{if◌then◌else◌, Bool-cases}
use wsaw.Prelude.Lists.{keep_if, All, Permᴰ-refl}

module _ {ℓ} {A : Type ℓ} where
  unfoldable pub insert : (A → A → Bool) → A → List A → List A
  insert less x [] = x ∷ []
  insert less x (y ∷ ys) = if less y x then y ∷ insert less x ys else x ∷ y ∷ ys

  -- An item goes before what it ties with, since it stood before it.
  unfoldable pub sort_stable : (A → A → Bool) → List A → List A
  unfolding insert
  sort_stable less [] = []
  sort_stable less (x ∷ xs) = insert less x (sort_stable less xs)

  -- A strict weak order, which `sort.SliceStable` asks for.
  pub record IsOrder (less : A → A → Bool) : Type ℓ where
    pub asymm : (a b : A) → less a b ≡ true → less b a ≡ false
    pub cotrans : (a b c : A) → less a c ≡ true → (less a b ≡ true) ⊎ (less b c ≡ true)

  abbrev pub tie : (A → A → Bool) → A → A → Bool
  tie less a b = not (less a b) && not (less b a)

  -- No item is less than one before it.
  abbrev pub IsSorted : (A → A → Bool) → List A → Type ℓ
  IsSorted less [] = Unit
  IsSorted less (x ∷ xs) = All (λ y. less y x ≡ false) xs × IsSorted less xs

  module _ (less : A → A → Bool) (o : IsOrder less) where
    All-insert {κ} :
        (P : A → Type κ) (x : A) (xs : List A) → P x → All P xs → All P (insert less x xs)
    unfolding insert
    All-insert P x [] h hs = (h, tt)
    All-insert P x (y ∷ ys) h hs = elim (Bool-cases (less y x)) [
      | inl e ↦ rw e (hs.0, All-insert P x ys h hs.1)
      | inr e ↦ rw e (h, hs)
    ]

    not-less_trans : (a b c : A) → less b a ≡ false → less c b ≡ false → less c a ≡ false
    not-less_trans a b c h k = ground (arith, o.cotrans c b a)

    All-not-less :
        (a b : A) (xs : List A)
        → less b a ≡ false
        → All (λ y. less y b ≡ false) xs
        → All (λ y. less y a ≡ false) xs
    All-not-less a b [] h hs = tt
    All-not-less a b (y ∷ ys) h hs = (not-less_trans a b y h hs.0, All-not-less a b ys h hs.1)

    insert-IsSorted : (x : A) (xs : List A) → IsSorted less xs → IsSorted less (insert less x xs)
    unfolding insert
    insert-IsSorted x [] s = (tt, tt)
    insert-IsSorted x (y ∷ ys) s = elim (Bool-cases (less y x)) [
      | inl e ↦
          rw e
            (All-insert (λ z. less z y ≡ false) x ys (o.asymm y x e) s.0, insert-IsSorted x ys s.1)
      | inr e ↦ rw e ((e, All-not-less x y ys e s.0), s)
    ]

    pub sort_stable-IsSorted : (xs : List A) → IsSorted less (sort_stable less xs)
    unfolding sort_stable
    sort_stable-IsSorted [] = tt
    sort_stable-IsSorted (x ∷ xs) = insert-IsSorted x _ (sort_stable-IsSorted xs)

    insert-Permᴰ : (x : A) (xs : List A) → Permᴰ (insert less x xs) (x ∷ xs)
    unfolding insert
    insert-Permᴰ x [] = Permᴰ.cons refl Permᴰ.nil
    insert-Permᴰ x (y ∷ ys) = elim (Bool-cases (less y x)) [
      | inl e ↦ rw e (Permᴰ.trans (Permᴰ.cons refl (insert-Permᴰ x ys)) (Permᴰ.swap refl refl))
      | inr e ↦ rw e (Permᴰ-refl (x ∷ y ∷ ys))
    ]

    -- Sorting neither loses an item nor makes one up.
    pub sort_stable-Permᴰ : (xs : List A) → Permᴰ (sort_stable less xs) xs
    unfolding sort_stable
    sort_stable-Permᴰ [] = Permᴰ.nil
    sort_stable-Permᴰ (x ∷ xs) =
        Permᴰ.trans (insert-Permᴰ x (sort_stable less xs)) (Permᴰ.cons refl (sort_stable-Permᴰ xs))

    -- Stability: the items tied with one keep their order.
    tie-insert :
        (a x : A) (xs : List A)
        → keep_if (tie less a) (insert less x xs) ≡ keep_if (tie less a) (x ∷ xs)
    unfolding insert keep_if
    tie-insert a x [] = refl
    tie-insert a x (y ∷ ys) =
        ground (arith, tie-insert a x ys, o.asymm y x, o.cotrans y a x, o.cotrans a y x)

    pub tie-sort_stable :
        (a : A) (xs : List A) → keep_if (tie less a) (sort_stable less xs) ≡ keep_if (tie less a) xs
    unfolding sort_stable keep_if
    tie-sort_stable a [] = refl
    tie-sort_stable a (x ∷ xs) = tie-insert a x (sort_stable less xs) ∙ rw (tie-sort_stable a xs)

    none_tied :
        (x y : A) (ys : List A)
        → less x y ≡ true
        → All (λ z. less z y ≡ false) ys
        → keep_if (tie less x) ys ≡ []
    unfolding keep_if
    none_tied x y [] h hs = refl
    none_tied x y (z ∷ ys) h hs = ground (arith, none_tied x y ys h hs.1, o.cotrans x z y)

    head_not-less :
        (x y : A) (xs ys : List A)
        → All (λ z. less z y ≡ false) ys
        → keep_if (tie less x) (x ∷ xs) ≡ keep_if (tie less x) (y ∷ ys)
        → less x y ≡ false
    unfolding keep_if
    head_not-less x y xs ys hs e = ground (arith, none_tied x y ys, o.asymm x x, o.asymm x y)

    -- Two sorted lists in which the tied items come in the same order are one list.
    pub eq_of_ties :
        (xs ys : List A)
        → IsSorted less xs
        → IsSorted less ys
        → ((a : A) → keep_if (tie less a) xs ≡ keep_if (tie less a) ys)
        → xs ≡ ys
    unfolding keep_if
    eq_of_ties [] [] s t h = refl
    eq_of_ties [] (y ∷ ys) s t h = ground (arith, h y, o.asymm y y)
    eq_of_ties (x ∷ xs) [] s t h = ground (arith, h x, o.asymm x x)
    eq_of_ties (x ∷ xs) (y ∷ ys) s t h = ap₂ ◌∷◌ same (eq_of_ties xs ys s.1 t.1 rest)
      where
        same : x ≡ y
        same = ground (
          arith,
          h x,
          head_not-less x y xs ys t.0 (h x),
          head_not-less y x ys xs s.0 (sym (h y)),
          o.asymm x x,
        )

        rest : (a : A) → keep_if (tie less a) xs ≡ keep_if (tie less a) ys
        rest a = ground (arith, h a, same)

    -- Where the tied items come in the same order, the sorted lists are one list.
    pub sort_stable-eq :
        (xs ys : List A)
        → ((a : A) → keep_if (tie less a) xs ≡ keep_if (tie less a) ys)
        → sort_stable less xs ≡ sort_stable less ys
    sort_stable-eq xs ys h =
        eq_of_ties _ _ (sort_stable-IsSorted xs) (sort_stable-IsSorted ys)
          (λ a. tie-sort_stable a xs ∙ h a ∙ sym (tie-sort_stable a ys))
