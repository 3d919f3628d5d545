-- ===== src/Store/Select/Periods.antt =====
-- bucketKeepers on a series in the order of selectKeep: the reference, and why a calendar's
-- periods are runs of it.
use wsaw.Prelude.{
  ℕ, suc, ◌≤◌, ◌≡◌, refl, Bool, true, false, not, ◌||◌, Option, none, some, Option-cases, List, [],
  ◌∷◌, ◌++◌, map, arith, leb, if◌then◌else◌, take, All, Bool-cases, inl, inr, All-append, All-map,
  subst,
}
use wsaw.Prelude.Text.{less_asymm, less_cotrans}
use wsaw.Prelude.Sort.{IsOrder, IsSorted, sort_stable, sort_stable-IsSorted}
use wsaw.Prelude.Int64.{is_positive}
use wsaw.Store.Select.{
  Candidate, Item, Period, same_period, Slots, bucket_loop, bucket_keepers, tier, indexed,
  candidate_less,
}
use wsaw.Store.Select.Buckets.{
  among, periods, period_of, distinct, better, best, absent, grouped, Holds, bucket_loop-Covers,
  same_period→≡,
}

pub candidate_less-IsOrder : IsOrder candidate_less
unfolding candidate_less
candidate_less-IsOrder = record {
  asymm = λ a b h. ground (arith, less_asymm b.scan_id a.scan_id);
  cotrans = λ a b c h. ground (arith, less_cotrans c.scan_id b.scan_id a.scan_id);
}

module _ (key : ℕ → Period) where
  -- The indices of the best results of some periods.
  unfoldable pub best_of : List Item → List Period → List ℕ
  best_of xs [] = []
  best_of xs (p ∷ ps) = elim (best key p none xs) [
    | none ↦ best_of xs ps
    | some x ↦ x.0 ∷ best_of xs ps
  ]

  -- What bucketKeepers is to return: the newest n periods, and of each the best result.
  unfoldable pub newest_best : List Candidate → ℕ → List ℕ
  newest_best sorted n = let xs = indexed 0 sorted in best_of xs (take n (distinct key [] xs))

  Holds-best_of :
      (xs : List Item) (slots : Slots)
      → Holds key (λ p. best key p none xs) slots
      → best_of xs (periods slots) ≡ map (λ s. s.1.0) slots
  unfolding best_of
  Holds-best_of xs [] h = refl
  Holds-best_of xs ((p, x) ∷ slots) h = ground (arith, Holds-best_of xs slots h.1)

  bucket_keepers-grouped :
      (sorted : List Candidate) (n : ℕ)
      → grouped key [] (indexed 0 sorted) ≡ true
      → bucket_keepers key sorted n ≡ (if is_positive n then newest_best sorted n else [])
  unfolding bucket_keepers newest_best
  bucket_keepers-grouped sorted n g =
      let xs = indexed 0 sorted in
      let (a, b) = bucket_loop-Covers key n (λ p. none) xs [] (omega arith) tt (λ p h. refl) g in
      ground (arith, a, Holds-best_of xs (bucket_loop key n xs []) b)

  -- A result of a period is not of a better tier than the best one.
  abbrev pub no_better : Period → Item → Item → Bool
  no_better p y x =
      not (same_period p (period_of key x)) || leb (tier y.1.termination) (tier x.1.termination)

  abbrev TierOf : Item → Option Item → Type 0
  TierOf y none = Unit {0}
  TierOf y (some z) = tier y.1.termination ≤ tier z.1.termination

  best-no_better :
      (p : Period) (acc : Option Item) (xs : List Item) (y : Item)
      → best key p acc xs ≡ some y
      → TierOf y acc × All (λ x. no_better p y x ≡ true) xs
  unfolding best better
  best-no_better p none [] y h = cc
  best-no_better p (some z) [] y h = ground arith
  best-no_better p none (x ∷ xs) y h =
      ground (arith, best-no_better p (some x) xs y, best-no_better p none xs y)
  best-no_better p (some z) (x ∷ xs) y h =
      ground (arith, best-no_better p (some x) xs y, best-no_better p (some z) xs y)

  best-none :
      (p : Period) (acc : Option Item) (xs : List Item)
      → best key p acc xs ≡ none
      → (acc ≡ none) × All (λ x. not (same_period p (period_of key x)) ≡ true) xs
  unfolding best better
  best-none p acc [] h = (h, tt)
  best-none p none (x ∷ xs) h = ground (arith, best-none p (some x) xs, best-none p none xs)
  best-none p (some z) (x ∷ xs) h = ground (arith, best-none p (some x) xs, best-none p (some z) xs)

  -- The best result of a period is beaten by none of it, and there is none only if the period
  -- holds no result.
  abbrev pub is_best : Period → Option Item → Item → Bool
  is_best p none x = not (same_period p (period_of key x))
  is_best p (some y) x = no_better p y x

  best-is_best :
      (p : Period) (xs : List Item) → All (λ x. is_best p (best key p none xs) x ≡ true) xs
  best-is_best p xs = elim (Option-cases (best key p none xs)) [
    | inl e ↦ rw e (best-none p none xs e).1
    | inr (y, e) ↦ rw e (best-no_better p none xs y e).1
  ]

  -- A moment of a period that comes no earlier than some results.
  abbrev Began : List Candidate → Period → Type 0
  Began cs p = (t : ℕ) × (key t ≡ p) × All (λ c. c.started_at ≤ t) cs

  among-Began :
      (cs : List Candidate) (q : Period) (ps : List Period)
      → among q ps ≡ true
      → All (Began cs) ps
      → Began cs q
  unfolding among
  among-Began cs q [] m h = cc
  among-Began cs q (p ∷ ps) m h = elim (Bool-cases (same_period p q)) [
    | inl e ↦ subst (Began cs) (same_period→≡ p q e) h.0
    | inr e ↦ among-Began cs q ps (ground (arith, m, e)) h.1
  ]

  not_before : (c d : Candidate) → candidate_less d c ≡ false → d.started_at ≤ c.started_at
  unfolding candidate_less
  not_before c d h = ground arith

  module _ (interval : (t u v : ℕ) → v ≤ u → u ≤ t → key t ≡ key v → key u ≡ key v) where
    Began-absent :
        (ps : List Period) (c : Candidate) (i : ℕ) (cs : List Candidate)
        → among (key c.started_at) ps ≡ false
        → All (Began (c ∷ cs)) ps
        → All (λ d. d.started_at ≤ c.started_at) cs
        → absent key ps (indexed i cs) ≡ true
    unfolding absent indexed
    Began-absent ps c i [] m h s = refl
    Began-absent ps c i (d ∷ cs) m h s = elim (Bool-cases (among (key d.started_at) ps)) [
      | inl e ↦
          let (t, k, l) = among-Began (c ∷ d ∷ cs) (key d.started_at) ps e h in
          let same : key c.started_at ≡ key d.started_at =
            interval t c.started_at d.started_at s.0 l.0 k in
          ground (arith, m, e, same)
      | inr e ↦ ground (
        arith,
        e,
        Began-absent ps c (suc i) cs m (All-map ps (λ p b. (b.0, b.1, (b.2.0, b.2.1.1))) h) s.1,
      )
    ]

    sorted-grouped :
        (ps : List Period) (i : ℕ) (cs : List Candidate)
        → IsSorted candidate_less cs
        → All (Began cs) ps
        → grouped key ps (indexed i cs) ≡ true
    unfolding grouped indexed
    sorted-grouped ps i [] s h = refl
    sorted-grouped ps i (c ∷ cs) s h =
        let earlier : All (λ d. d.started_at ≤ c.started_at) cs =
          All-map cs (λ d k. not_before c d k) s.0 in
        let began : All (Began cs) ps = All-map ps (λ p b. (b.0, b.1, b.2.1)) h in
        elim (Bool-cases (among (key c.started_at) ps)) [
          | inl e ↦ ground (arith, e, sorted-grouped ps (suc i) cs s.1 began)
          | inr e ↦ ground (
            arith,
            e,
            sorted-grouped (ps ++ key c.started_at ∷ []) (suc i) cs s.1
                (All-append (Began cs) ps _ began ((c.started_at, refl, earlier), tt)),
            Began-absent ps c (suc i) cs e h earlier,
          )
        ]

    -- If the moments of a period are an interval, then in the order of selectKeep bucketKeepers
    -- returns exactly the best result of each of the newest n periods that hold a result, newest
    -- period first, and nothing for an n that is not positive; and for every period, the best
    -- result is beaten by none of it, and is missing only if the period holds no result.
    pub bucket_keepers-newest_best :
        (cands : List Candidate) (n : ℕ)
        → let sorted = sort_stable candidate_less cands in
          (bucket_keepers key sorted n ≡ (if is_positive n then newest_best sorted n else []))
          × ((p : Period)
              → All
                  (λ x. is_best p (best key p none (indexed 0 sorted)) x ≡ true)
                  (indexed 0 sorted))
    bucket_keepers-newest_best cands n =
        let sorted = sort_stable candidate_less cands in
        (
          bucket_keepers-grouped sorted n (
              sorted-grouped [] 0 sorted
                (sort_stable-IsSorted candidate_less candidate_less-IsOrder cands) tt),
          λ p. best-is_best p (indexed 0 sorted),
        )
