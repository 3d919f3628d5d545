-- ===== src/Store/Select/Series.antt =====
-- A series that is kept by counts alone never loses its last result.
use wsaw.Prelude.{
  ℕ, suc, ◌+◌, ◌≤◌, ◌<◌, ◌≡◌, refl, ap, Bool, true, false, not, ◌&&◌, some, List, [], ◌∷◌, ◌++◌,
  map, arith, ltb, ◌==◌, length, any, All, Bool-cases, inl, inr, is_some, All-append, subst,
}
use wsaw.Prelude.Sort.{sort_stable, insert}
use wsaw.Prelude.Int64.{is_positive}
use wsaw.Store.Select.{
  Candidate, Item, Civil, Period, Keep, Retention, Rule, Kept, Decision, Slots, bucket_keepers,
  bucket_loop, improve, seen, indexed, candidate_less, kept_at, keep_index, keep_all, where_index,
  bucket, apply_rules, bounded, apply_keep, decide, kept_of, select_keep, newest_rules,
  bucket_rules, last_test, within_test, period_hourly, period_daily, period_weekly, period_monthly,
  period_yearly,
}
use wsaw.Store.Select.Kept.{keeps}
use wsaw.Store.Select.Filled.{filled, filled-apply_keep, kept_of-some}

-- The indices are those of a series of n results.
module _ (n : ℕ) where
  abbrev Kept-below : Kept → Type 0
  Kept-below = All (λ e. e.0 < n)

  abbrev Items-below : List Item → Type 0
  Items-below = All (λ x. x.0 < n)

  keep_index-below :
      (rule : Rule) (i : ℕ) (kept : Kept)
      → i < n
      → Kept-below kept
      → Kept-below (keep_index rule i kept)
  unfolding keep_index
  keep_index-below rule i kept h k = elim (Bool-cases (is_some (kept_at i kept))) [
    | inl e ↦ rw e k
    | inr e ↦ rw e (h, k)
  ]

  keep_all-below :
      (rule : Rule) (is : List ℕ) (kept : Kept)
      → All (λ i. i < n) is
      → Kept-below kept
      → Kept-below (keep_all rule is kept)
  unfolding keep_all
  keep_all-below rule [] kept h k = k
  keep_all-below rule (i ∷ is) kept h k =
      keep_all-below rule is (keep_index rule i kept) h.1 (keep_index-below rule i kept h.0 k)

  where_index-below :
      (test : ℕ → Candidate → Bool) (xs : List Item)
      → Items-below xs
      → All (λ i. i < n) (where_index test xs)
  unfolding where_index
  where_index-below test [] h = tt
  where_index-below test ((i, c) ∷ xs) h = elim (Bool-cases (test i c)) [
    | inl e ↦ rw e (h.0, where_index-below test xs h.1)
    | inr e ↦ rw e (where_index-below test xs h.1)
  ]

  abbrev Slots-below : Slots → Type 0
  Slots-below = All (λ s. s.1.0 < n)

  improve-below :
      (p : Period) (x : Item) (slots : Slots)
      → x.0 < n
      → Slots-below slots
      → Slots-below (improve p x slots)
  unfolding improve
  improve-below p x [] h s = tt
  improve-below p x ((q, y) ∷ slots) h s = (ground arith, improve-below p x slots h s.1)

  bucket_loop-below :
      (key : ℕ → Period) (m : ℕ) (xs : List Item) (slots : Slots)
      → Items-below xs
      → Slots-below slots
      → Slots-below (bucket_loop key m xs slots)
  unfolding bucket_loop
  bucket_loop-below key m [] slots h s = s
  bucket_loop-below key m (x ∷ xs) slots h s = elim (Bool-cases (seen (key x.1.started_at) slots)) [
    | inl e ↦
        rw (bucket_loop, e)
          (bucket_loop-below key m xs (improve (key x.1.started_at) x slots) h.1
            (improve-below (key x.1.started_at) x slots h.0 s))
    | inr e ↦ elim (Bool-cases (length slots == m)) [
      | inl f ↦ rw (bucket_loop, e, f) s
      | inr f ↦
          rw (bucket_loop, e, f)
            (bucket_loop-below key m xs (slots ++ (key x.1.started_at, x) ∷ []) h.1
              (All-append (λ s. s.1.0 < n) slots _ s (h.0, tt)))
    ]
  ]

  map-below : (slots : Slots) → Slots-below slots → All (λ i. i < n) (map (λ s. s.1.0) slots)
  map-below [] s = tt
  map-below (x ∷ slots) s = (s.0, map-below slots s.1)

  bucket-below :
      (k : Keep) (key : Civil → Period) (rule : Rule) (m : ℕ) (sorted : List Candidate)
      (kept : Kept)
      → Items-below (indexed 0 sorted)
      → Kept-below kept
      → Kept-below (bucket k key rule m sorted kept)
  unfolding bucket bucket_keepers
  bucket-below k key rule m sorted kept h s =
      keep_all-below rule _ kept
        (elim (Bool-cases (is_positive m)) [
          | inl e ↦ rw e (
              map-below _
                (bucket_loop-below (λ t. key (k.location t)) m (indexed 0 sorted) [] h tt))
          | inr e ↦ rw e tt
        ])
        s

  newest_rules-below :
      (sorted : List Candidate) (now : ℕ) (k : Keep)
      → Items-below (indexed 0 sorted)
      → Kept-below (newest_rules sorted now k)
  unfolding newest_rules
  newest_rules-below sorted now k h =
      let xs = indexed 0 sorted in
      let last = keep_all-below Rule.last _ [] (where_index-below (last_test k) xs h) tt in
      elim (Bool-cases (is_positive k.within)) [
        | inl e ↦
            rw e (keep_all-below Rule.within _ _ (where_index-below (within_test k now) xs h) last)
        | inr e ↦ rw e last
      ]

  apply_rules-below :
      (sorted : List Candidate) (now : ℕ) (k : Keep)
      → Items-below (indexed 0 sorted)
      → Kept-below (apply_rules sorted now k)
  unfolding apply_rules bucket_rules
  apply_rules-below sorted now k h = bucket-below k period_yearly Rule.yearly k.yearly sorted _ h (
      bucket-below k period_monthly Rule.monthly k.monthly sorted _ h (
        bucket-below k period_weekly Rule.weekly k.weekly sorted _ h (
          bucket-below k period_daily Rule.daily k.daily sorted _ h (
            bucket-below k period_hourly Rule.hourly k.hourly sorted _ h
              (newest_rules-below sorted now k h)))))

  apply_keep-below :
      (sorted : List Candidate) (now : ℕ) (k : Keep)
      → Items-below (indexed 0 sorted)
      → 0 < n
      → Kept-below (apply_keep sorted now k)
  unfolding apply_keep
  apply_keep-below sorted now k h z =
      let rules = apply_rules-below sorted now k h in
      elim (Bool-cases
        (length (apply_rules sorted now k) == 0 && ltb 0 (length sorted) && not (bounded k))) [
          | inl e ↦ rw e (keep_index-below Rule.newest 0 _ z rules)
          | inr e ↦ rw e rules
        ]

Items-below-indexed : (i : ℕ) (cs : List Candidate) → Items-below (i + length cs) (indexed i cs)
unfolding indexed
Items-below-indexed i [] = tt
Items-below-indexed i (c ∷ cs) = (
  omega arith,
  subst (λ m. Items-below m (indexed (suc i) cs)) (omega arith) (Items-below-indexed (suc i) cs),
)

any-decide :
    (kept : Kept) (j i : ℕ) (cs : List Candidate)
    → i ≤ j
    → j < i + length cs
    → keeps kept j ≡ true
    → any (λ (d : Decision). d.keep) (map (decide kept) (indexed i cs)) ≡ true
unfolding any indexed
any-decide kept j i [] l m h = absurd (omega arith)
any-decide kept j i (c ∷ cs) l m h = elim (Bool-cases (i == j)) [
  | inl e ↦ ground (arith, e, h, ap (λ (m : ℕ). keeps kept m))
  | inr e ↦ ground (arith, any-decide kept j (suc i) cs (grind arith) (omega arith) h)
]

head-keeps :
    (kept : Kept) (n : ℕ)
    → filled kept ≡ true
    → All (λ e. e.0 < n) kept
    → (j : ℕ) × (j < n) × (keeps kept j ≡ true)
unfolding kept_at
head-keeps [] n f h = cc
head-keeps ((j, r) ∷ kept) n f h = (j, h.0, ground arith)

insert-filled : (c : Candidate) (cs : List Candidate) → filled (insert candidate_less c cs) ≡ true
unfolding insert
insert-filled c [] = refl
insert-filled c (d ∷ cs) = ground arith

sorted-filled :
    (cands : List Candidate)
    → filled cands ≡ true
    → filled (sort_stable candidate_less cands) ≡ true
unfolding sort_stable
sorted-filled [] h = cc
sorted-filled (c ∷ cs) h = insert-filled c (sort_stable candidate_less cs)

-- A series that is not empty keeps at least one result under every policy that has no age limit,
-- the empty one included.
pub select_keep-filled :
    (cands : List Candidate) (now : ℕ) (r : Retention) (k : Keep)
    → r.keep ≡ some k
    → bounded k ≡ false
    → filled cands ≡ true
    → any (λ (d : Decision). d.keep) (select_keep cands now r) ≡ true
unfolding select_keep
select_keep-filled cands now r k h b f =
    kept_one (sort_stable candidate_less cands) (sorted-filled cands f)
  where
    kept_one :
        (sorted : List Candidate)
        → filled sorted ≡ true
        → any (λ (d : Decision). d.keep) (map (decide (kept_of sorted now r)) (indexed 0 sorted))
          ≡ true
    kept_one [] g = cc
    kept_one (c ∷ cs) g =
        let below =
          apply_keep-below (0 + length (c ∷ cs)) (c ∷ cs) now k (Items-below-indexed 0 (c ∷ cs))
            (omega arith) in
        let (j, m, e) =
          head-keeps (apply_keep (c ∷ cs) now k) (0 + length (c ∷ cs))
            (filled-apply_keep c cs now k b) below in
        rw (kept_of-some (c ∷ cs) now r k h)
          (any-decide (apply_keep (c ∷ cs) now k) j 0 (c ∷ cs) (omega arith) m e)
