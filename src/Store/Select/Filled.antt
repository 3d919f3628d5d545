-- ===== src/Store/Select/Filled.antt =====
-- applyKeep never empties a series by a policy of counts.
use wsaw.Prelude.{
  ℕ, ◌≡◌, refl, ap, ◌∙◌, Bool, true, false, not, ◌||◌, some, List, [], ◌∷◌, ◌++◌, map, arith, ◌==◌,
  length,
}
use wsaw.Prelude.Sort.{sort_stable}
use wsaw.Prelude.Int64.{is_positive}
use wsaw.Store.Select.{
  Candidate, Item, Civil, Period, Keep, Retention, Rule, Kept, Decision, Slots, bucket_keepers,
  bucket_loop, improve, seen, indexed, candidate_less, kept_at, keep_index, keep_all, where_index,
  bucket, apply_rules, empty, bounded, apply_keep, decide, kept_of, select_keep, newest_rules,
  bucket_rules, last_test, within_test, period_hourly, period_daily, period_weekly, period_monthly,
  period_yearly,
}
use wsaw.Store.Select.Kept.{ruled, keeps-apply_rules, map-decide}

abbrev pub filled {ℓ} : {A : Type ℓ} → List A → Bool
filled [] = false
filled (x ∷ xs) = true

filled-keep_index : (rule : Rule) (i : ℕ) (kept : Kept) → filled (keep_index rule i kept) ≡ true
unfolding keep_index kept_at
filled-keep_index rule i [] = refl
filled-keep_index rule i ((j, r) ∷ kept) = ground arith

filled-keep_all :
    (rule : Rule) (is : List ℕ) (kept : Kept)
    → filled (keep_all rule is kept) ≡ (filled kept || filled is)
unfolding keep_all
filled-keep_all rule [] kept = ground arith
filled-keep_all rule (i ∷ is) kept =
    ground (arith, filled-keep_all rule is (keep_index rule i kept), filled-keep_index rule i kept)

filled-improve : (p : Period) (x : Item) (slots : Slots) → filled (improve p x slots) ≡ filled slots
unfolding improve
filled-improve p x [] = refl
filled-improve p x (s ∷ slots) = refl

filled-bucket_loop :
    (key : ℕ → Period) (n : ℕ) (xs : List Item) (slots : Slots)
    → filled slots ≡ true
    → filled (bucket_loop key n xs slots) ≡ true
unfolding bucket_loop
filled-bucket_loop key n [] slots h = h
filled-bucket_loop key n (x ∷ xs) [] h = cc
filled-bucket_loop key n (x ∷ xs) (s ∷ slots) h = ground (
  arith,
  filled-bucket_loop key n xs (improve (key x.1.started_at) x (s ∷ slots)),
  filled-bucket_loop key n xs ((s ∷ slots) ++ (key x.1.started_at, x) ∷ []),
  filled-improve (key x.1.started_at) x (s ∷ slots),
)

filled-map {ℓ κ} :
    {A : Type ℓ} {B : Type κ} (f : A → B) (xs : List A) → filled (map f xs) ≡ filled xs
filled-map f [] = refl
filled-map f (x ∷ xs) = refl

filled-bucket_keepers :
    (key : ℕ → Period) (c : Candidate) (cs : List Candidate) (n : ℕ)
    → filled (bucket_keepers key (c ∷ cs) n) ≡ is_positive n
unfolding bucket_keepers bucket_loop seen indexed
filled-bucket_keepers key c cs n = ground (
  arith,
  filled-map (λ (s : Period × Item). s.1.0) (bucket_loop key n (indexed 0 (c ∷ cs)) []),
  filled-bucket_loop key n (indexed 1 cs) ((key c.started_at, (0, c)) ∷ []),
)

filled-bucket :
    (k : Keep) (key : Civil → Period) (rule : Rule) (n : ℕ) (c : Candidate) (cs : List Candidate)
    (kept : Kept)
    → filled (bucket k key rule n (c ∷ cs) kept) ≡ (filled kept || is_positive n)
unfolding bucket
filled-bucket k key rule n c cs kept =
    filled-keep_all rule (bucket_keepers (λ t. key (k.location t)) (c ∷ cs) n) kept
    ∙ ap (λ b. filled kept || b) (filled-bucket_keepers (λ t. key (k.location t)) c cs n)

filled-newest_rules :
    (c : Candidate) (cs : List Candidate) (now : ℕ) (k : Keep)
    → is_positive k.last ≡ true
    → filled (newest_rules (c ∷ cs) now k) ≡ true
unfolding newest_rules where_index indexed
filled-newest_rules c cs now k h = ground (
  arith,
  filled-keep_all Rule.last (where_index (last_test k) (indexed 0 (c ∷ cs))) [],
  filled-keep_all Rule.within (where_index (within_test k now) (indexed 0 (c ∷ cs)))
      (keep_all Rule.last (where_index (last_test k) (indexed 0 (c ∷ cs))) []),
)

-- A policy of counts that is not empty keeps something of every series by its rules alone.
filled-apply_rules :
    (c : Candidate) (cs : List Candidate) (now : ℕ) (k : Keep)
    → empty k ≡ false
    → bounded k ≡ false
    → filled (apply_rules (c ∷ cs) now k) ≡ true
unfolding apply_rules bucket_rules empty bounded
filled-apply_rules c cs now k h b =
    let n = newest_rules (c ∷ cs) now k in
    let hs = bucket k period_hourly Rule.hourly k.hourly (c ∷ cs) n in
    let ds = bucket k period_daily Rule.daily k.daily (c ∷ cs) hs in
    let ws = bucket k period_weekly Rule.weekly k.weekly (c ∷ cs) ds in
    let ms = bucket k period_monthly Rule.monthly k.monthly (c ∷ cs) ws in
    ground (
      arith,
      filled-newest_rules c cs now k,
      filled-bucket k period_hourly Rule.hourly k.hourly c cs n,
      filled-bucket k period_daily Rule.daily k.daily c cs hs,
      filled-bucket k period_weekly Rule.weekly k.weekly c cs ds,
      filled-bucket k period_monthly Rule.monthly k.monthly c cs ws,
      filled-bucket k period_yearly Rule.yearly k.yearly c cs ms,
    )

length-filled {ℓ} : {A : Type ℓ} (xs : List A) → (length xs == 0) ≡ not (filled xs)
length-filled [] = refl
length-filled (x ∷ xs) = ground arith

pub filled-apply_keep :
    (c : Candidate) (cs : List Candidate) (now : ℕ) (k : Keep)
    → bounded k ≡ false
    → filled (apply_keep (c ∷ cs) now k) ≡ true
unfolding apply_keep
filled-apply_keep c cs now k b = ground (
  arith,
  b,
  length-filled (apply_rules (c ∷ cs) now k),
  filled-keep_index Rule.newest 0 (apply_rules (c ∷ cs) now k),
)

-- The fallback never speaks for a policy that is not empty.
apply_keep-rules :
    (sorted : List Candidate) (now : ℕ) (k : Keep)
    → empty k ≡ false
    → apply_keep sorted now k ≡ apply_rules sorted now k
unfolding apply_keep
apply_keep-rules [] now k h = ground arith
apply_keep-rules (c ∷ cs) now k h =
    ground (arith, length-filled (apply_rules (c ∷ cs) now k), filled-apply_rules c cs now k h)

pub kept_of-some :
    (sorted : List Candidate) (now : ℕ) (r : Retention) (k : Keep)
    → r.keep ≡ some k
    → kept_of sorted now r ≡ apply_keep sorted now k
unfolding kept_of
kept_of-some sorted now r k h = ground (arith, h)

-- A policy that is not empty keeps exactly the results that one of its rules keeps: the newest
-- ones by their count, the ones that are young enough, and the ones that bucketKeepers chooses
-- for one of the five lengths of a period.
pub select_keep-ruled :
    (cands : List Candidate) (now : ℕ) (r : Retention) (k : Keep)
    → r.keep ≡ some k
    → empty k ≡ false
    → let sorted = sort_stable candidate_less cands in
      map (λ (d : Decision). d.keep) (select_keep cands now r)
      ≡ map (λ x. ruled k now sorted x.0 x.1) (indexed 0 sorted)
unfolding select_keep
select_keep-ruled cands now r k h e =
    let sorted = sort_stable candidate_less cands in
    ap (λ (kept : Kept). map (λ (d : Decision). d.keep) (map (decide kept) (indexed 0 sorted)))
      (kept_of-some sorted now r k h ∙ apply_keep-rules sorted now k e)
    ∙ map-decide (apply_rules sorted now k) (ruled k now sorted) (indexed 0 sorted)
        (keeps-apply_rules sorted now k)
