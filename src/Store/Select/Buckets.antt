-- ===== src/Store/Select/Buckets.antt =====
-- bucketKeepers against a description of it: in each of the newest n periods, the best result.
use wsaw.Prelude.{
  ℕ, zero, suc, ◌≤◌, ◌<◌, ◌≡◌, refl, sym, ap, ◌∙◌, Bool, true, false, not, ◌&&◌, ◌||◌, Option, none,
  some, List, [], ◌∷◌, ◌++◌, map, append-nil, append_assoc, arith, ltb, if◌then◌else◌, length, take,
  All, Bool-cases, ◌⊎◌, inl, inr, length-append,
}
use wsaw.Store.Select.{Item, Period, same_period, Slots, seen, improve, bucket_loop, tier}

unfoldable pub among : Period → List Period → Bool
among p [] = false
among p (q ∷ qs) = same_period q p || among p qs

pub same_period→≡ : (p q : Period) → same_period p q ≡ true → p ≡ q
same_period→≡ p q h = ground arith

pub same_period_refl : (p : Period) → same_period p p ≡ true
same_period_refl p = ground arith

abbrev pub periods : Slots → List Period
periods = map (λ s. s.0)

seen-among : (p : Period) (slots : Slots) → seen p slots ≡ among p (periods slots)
unfolding seen among
seen-among p [] = refl
seen-among p ((q, x) ∷ slots) = ground (arith, seen-among p slots)

pub and_both : (a b : Bool) → (a && b) ≡ true → (a ≡ true) × (b ≡ true)
and_both a b h = ground arith

le_cases : (a b : ℕ) → a ≤ b → (a < b) ⊎ (a ≡ b)
le_cases a b h = grind arith

take_all : {A : Type 0} (n : ℕ) (xs : List A) → length xs ≤ n → take n xs ≡ xs
take_all zero [] h = refl
take_all (suc n) [] h = refl
take_all zero (x ∷ xs) h = absurd (omega arith)
take_all (suc n) (x ∷ xs) h = ap (λ ys. x ∷ ys) (take_all n xs (omega arith))

take_prefix : {A : Type 0} (xs ys : List A) → take (length xs) (xs ++ ys) ≡ xs
take_prefix [] ys = refl
take_prefix (x ∷ xs) ys = ap (λ zs. x ∷ zs) (take_prefix xs ys)

module _ (key : ℕ → Period) where
  abbrev pub period_of : Item → Period
  period_of x = key x.1.started_at

  -- The periods that hold a result, in the order in which the results show them.
  unfoldable pub distinct : List Period → List Item → List Period
  distinct ps [] = ps
  distinct ps (x ∷ xs) = elim (among (period_of x) ps) [
    | true ↦ distinct ps xs
    | false ↦ distinct (ps ++ period_of x ∷ []) xs
  ]

  -- The first result of the best tier in a period.
  unfoldable pub better : Period → Option Item → Item → Option Item
  better p none x = if same_period p (period_of x) then some x else none
  better p (some y) x =
      if same_period p (period_of x) && ltb (tier x.1.termination) (tier y.1.termination)
      then some x
      else some y

  unfoldable pub best : Period → Option Item → List Item → Option Item
  best p acc [] = acc
  best p acc (x ∷ xs) = best p (better p acc x) xs

  unfoldable pub absent : List Period → List Item → Bool
  absent ps [] = true
  absent ps (x ∷ xs) = not (among (period_of x) ps) && absent ps xs

  -- The results of a period stand together: once another period begins, none of it follows.
  unfoldable pub grouped : List Period → List Item → Bool
  grouped ps [] = true
  grouped ps (x ∷ xs) = elim (among (period_of x) ps) [
    | true ↦ grouped ps xs
    | false ↦ absent ps xs && grouped (ps ++ period_of x ∷ []) xs
  ]

  distinct-prefix :
      (ps : List Period) (xs : List Item) → (qs : List Period) × (distinct ps xs ≡ ps ++ qs)
  unfolding distinct
  distinct-prefix ps [] = ([], sym (append-nil ps))
  distinct-prefix ps (x ∷ xs) = elim (Bool-cases (among (period_of x) ps)) [
    | inl e ↦ rw (distinct, e) (distinct-prefix ps xs)
    | inr e ↦
        let (qs, h) = distinct-prefix (ps ++ period_of x ∷ []) xs in
        rw (distinct, e) (period_of x ∷ qs, h ∙ append_assoc ps (period_of x ∷ []) qs)
  ]

  other_period :
      (p q : Period) (ps : List Period)
      → among p ps ≡ true
      → among q ps ≡ false
      → same_period p q ≡ false
  other_period p q ps m h = elim (Bool-cases (same_period p q)) [
    | inl e ↦ ground (arith, same_period→≡ p q e, ap (λ r. among r ps) (same_period→≡ p q e))
    | inr e ↦ e
  ]

  better-other :
      (p : Period) (acc : Option Item) (x : Item)
      → same_period p (period_of x) ≡ false
      → better p acc x ≡ acc
  unfolding better
  better-other p none x h = ground (arith, h)
  better-other p (some y) x h = ground (arith, h)

  -- A period of which nothing follows keeps what it has.
  best-absent :
      (p : Period) (ps : List Period) (acc : Option Item) (xs : List Item)
      → among p ps ≡ true
      → absent ps xs ≡ true
      → best p acc xs ≡ acc
  unfolding best absent
  best-absent p ps acc [] m h = refl
  best-absent p ps acc (x ∷ xs) m h =
      let gone : among (period_of x) ps ≡ false = ground arith in
      rw (better-other p acc x (other_period p (period_of x) ps m gone))
        (best-absent p ps acc xs m (ground arith))

  -- What the slots hold, when `have` says which result is the best so far of each period.
  abbrev pub Holds : (Period → Option Item) → Slots → Type 0
  Holds have = All (λ s. have s.0 ≡ some s.1)

  Holds-improve :
      (have : Period → Option Item) (x : Item) (slots : Slots)
      → Holds have slots
      → Holds (λ p. better p (have p) x) (improve (period_of x) x slots)
  unfolding improve better
  Holds-improve have x [] h = tt
  Holds-improve have x ((q, y) ∷ slots) (e, h) = (rw e (ground arith), Holds-improve have x slots h)

  periods-improve :
      (p : Period) (x : Item) (slots : Slots) → periods (improve p x slots) ≡ periods slots
  unfolding improve
  periods-improve p x [] = refl
  periods-improve p x ((q, y) ∷ slots) = ap (λ ps. q ∷ ps) (periods-improve p x slots)

  Holds-new :
      (have : Period → Option Item) (x : Item) (slots : Slots)
      → among (period_of x) (periods slots) ≡ false
      → Holds have slots
      → have (period_of x) ≡ none
      → Holds (λ p. better p (have p) x) (slots ++ (period_of x, x) ∷ [])
  unfolding better among
  Holds-new have x [] m h e = (rw e (ground (arith, same_period_refl (period_of x))), tt)
  Holds-new have x ((q, y) ∷ slots) m h e =
      (better-other q (have q) x (ground arith) ∙ h.0, Holds-new have x slots (ground arith) h.1 e)

  slots-among :
      (ps : List Period) (slots : Slots)
      → ((p : Period) → among p (periods slots) ≡ true → among p ps ≡ true)
      → All (λ s. among s.0 ps ≡ true) slots
  unfolding among
  slots-among ps [] f = tt
  slots-among ps ((q, y) ∷ slots) f = (
    f q (ground (arith, same_period_refl q)),
    slots-among ps slots λ p h. f p (ground (arith, h, Bool-cases (same_period q p))),
  )

  Holds-absent :
      (have : Period → Option Item) (xs : List Item) (ps : List Period) (slots : Slots)
      → absent ps xs ≡ true
      → All (λ s. among s.0 ps ≡ true) slots
      → Holds have slots
      → Holds (λ p. best p (have p) xs) slots
  Holds-absent have xs ps [] a m h = tt
  Holds-absent have xs ps ((q, y) ∷ slots) a m h =
      (best-absent q ps (have q) xs m.0 a ∙ h.0, Holds-absent have xs ps slots a m.1 h.1)

  periods-new :
      (p : Period) (x : Item) (slots : Slots)
      → periods (slots ++ (p, x) ∷ []) ≡ periods slots ++ p ∷ []
  periods-new p x [] = refl
  periods-new p x ((q, y) ∷ slots) = ap (λ ps. q ∷ ps) (periods-new p x slots)

  length-periods : (slots : Slots) → length (periods slots) ≡ length slots
  length-periods [] = refl
  length-periods (s ∷ slots) = ap suc (length-periods slots)

  loop_seen :
      (n : ℕ) (x : Item) (xs : List Item) (slots : Slots)
      → among (period_of x) (periods slots) ≡ true
      → (bucket_loop key n (x ∷ xs) slots ≡ bucket_loop key n xs (improve (period_of x) x slots))
        × (distinct (periods slots) (x ∷ xs)
            ≡ distinct (periods (improve (period_of x) x slots)) xs)
        × (grouped (periods slots) (x ∷ xs) ≡ grouped (periods (improve (period_of x) x slots)) xs)
  unfolding bucket_loop distinct grouped
  loop_seen n x xs slots e =
      ground (arith, e, seen-among (period_of x) slots, periods-improve (period_of x) x slots)

  loop_full :
      (x : Item) (xs : List Item) (slots : Slots)
      → among (period_of x) (periods slots) ≡ false
      → bucket_loop key (length slots) (x ∷ xs) slots ≡ slots
  unfolding bucket_loop
  loop_full x xs slots e = ground (arith, e, seen-among (period_of x) slots)

  loop_new :
      (n : ℕ) (x : Item) (xs : List Item) (slots : Slots)
      → among (period_of x) (periods slots) ≡ false
      → length slots < n
      → bucket_loop key n (x ∷ xs) slots ≡ bucket_loop key n xs (slots ++ (period_of x, x) ∷ [])
  unfolding bucket_loop
  loop_new n x xs slots e h = ground (arith, e, seen-among (period_of x) slots)

  first_seen :
      (x : Item) (xs : List Item) (slots : Slots)
      → among (period_of x) (periods slots) ≡ false
      → (distinct (periods slots) (x ∷ xs) ≡ distinct (periods (slots ++ (period_of x, x) ∷ [])) xs)
        × (grouped (periods slots) (x ∷ xs)
            ≡ absent (periods slots) xs && grouped (periods (slots ++ (period_of x, x) ∷ [])) xs)
  unfolding distinct grouped
  first_seen x xs slots e = ground (arith, e, periods-new (period_of x) x slots)

  other_period' :
      (p q : Period) (ps : List Period)
      → among p ps ≡ false
      → among q ps ≡ true
      → same_period p q ≡ false
  other_period' p q ps h m = elim (Bool-cases (same_period p q)) [
    | inl e ↦ ground (arith, e, ap (λ r. among r ps) (same_period→≡ p q e))
    | inr e ↦ e
  ]

  among-new :
      (p q : Period) (ps : List Period) → among p (ps ++ q ∷ []) ≡ (among p ps || same_period q p)
  unfolding among
  among-new p q [] = ground arith
  among-new p q (r ∷ ps) = ground (arith, among-new p q ps)

  -- The loop from any point on: the slots cover the first n periods, each with its best result.
  abbrev pub Covers : ℕ → (Period → Option Item) → List Item → Slots → Type 0
  Covers n have xs slots =
      (periods (bucket_loop key n xs slots) ≡ take n (distinct (periods slots) xs))
      × Holds (λ p. best p (have p) xs) (bucket_loop key n xs slots)

  -- `have` knows nothing of a period without a slot.
  abbrev pub Fresh : (Period → Option Item) → Slots → Type 0
  Fresh have slots = (p : Period) → among p (periods slots) ≡ false → have p ≡ none

  Fresh-seen :
      (have : Period → Option Item) (x : Item) (slots : Slots)
      → among (period_of x) (periods slots) ≡ true
      → Fresh have slots
      → Fresh (λ p. better p (have p) x) (improve (period_of x) x slots)
  Fresh-seen have x slots e f p h =
      let gone : among p (periods slots) ≡ false = rw (← periods-improve (period_of x) x slots) h in
      better-other p (have p) x (other_period' p (period_of x) (periods slots) gone e) ∙ f p gone

  Fresh-new :
      (have : Period → Option Item) (x : Item) (slots : Slots)
      → Fresh have slots
      → Fresh (λ p. better p (have p) x) (slots ++ (period_of x, x) ∷ [])
  Fresh-new have x slots f p h =
      let gone : (among p (periods slots) || same_period (period_of x) p) ≡ false =
        sym (among-new p (period_of x) (periods slots))
        ∙ ap (among p) (sym (periods-new (period_of x) x slots))
        ∙ h in
      better-other p (have p) x (ground arith) ∙ f p (ground arith)

  loop_stops :
      (have : Period → Option Item) (x : Item) (xs : List Item) (slots : Slots)
      → among (period_of x) (periods slots) ≡ false
      → absent (periods slots) xs ≡ true
      → Holds have slots
      → Covers (length slots) have (x ∷ xs) slots
  loop_stops have x xs slots e a h =
      let (qs, d) = distinct-prefix (periods slots) (x ∷ xs) in
      rw (loop_full x xs slots e, d, ← length-periods slots)
        (
          sym (take_prefix (periods slots) qs),
          Holds-absent have (x ∷ xs) (periods slots) slots (unfold absent in ground arith)
              (slots-among (periods slots) slots λ p m. m) h,
        )

  pub bucket_loop-Covers :
      (n : ℕ) (have : Period → Option Item) (xs : List Item) (slots : Slots)
      → length slots ≤ n
      → Holds have slots
      → Fresh have slots
      → grouped (periods slots) xs ≡ true
      → Covers n have xs slots
  unfolding best
  bucket_loop-Covers n have [] slots l h f g =
      unfold bucket_loop distinct in (sym (take_all n (periods slots) (rw length-periods l)), h)
  bucket_loop-Covers n have (x ∷ xs) slots l h f g =
      elim (Bool-cases (among (period_of x) (periods slots))) [
        | inl e ↦
            let (a, b, c) = loop_seen n x xs slots e in
            rw (a, b)
              (bucket_loop-Covers n (λ p. better p (have p) x) xs (improve (period_of x) x slots)
                (rw (← length-periods, periods-improve, length-periods) l)
                (Holds-improve have x slots h) (Fresh-seen have x slots e f) (sym c ∙ g))
        | inr e ↦
            let (b, c) = first_seen x xs slots e in
            let both : (absent (periods slots) xs ≡ true)
                × (grouped (periods (slots ++ (period_of x, x) ∷ [])) xs ≡ true) =
              and_both _ _ (sym c ∙ g) in
            elim (le_cases (length slots) n l) [
              | inl m ↦
                  rw (loop_new n x xs slots e m, b)
                    (bucket_loop-Covers n (λ p. better p (have p) x) xs
                      (slots ++ (period_of x, x) ∷ []) (rw length-append (omega arith))
                      (Holds-new have x slots e h (f (period_of x) e)) (Fresh-new have x slots f)
                      both.1)
              | inr m ↦ rw (← m) (loop_stops have x xs slots e both.0 h)
            ]
      ]
