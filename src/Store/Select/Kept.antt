-- ===== src/Store/Select/Kept.antt =====
-- selectKeep: which results the two forms of a policy keep, rule by rule.
use wsaw.Prelude.{
  ℕ, suc, ◌≤◌, ◌<◌, ◌≡◌, refl, ap, ◌∙◌, Bool, false, ◌&&◌, ◌||◌, none, List, [], ◌∷◌, map, arith,
  ltb, ◌==◌, any, All, Bool-cases, inl, inr, is_some, All-map, All-zip,
}
use wsaw.Prelude.Sort.{sort_stable}
use wsaw.Prelude.Int64.{is_positive}
use wsaw.Store.Select.{
  Candidate, Item, Civil, Period, Keep, Retention, Rule, Kept, Decision, bucket_keepers, indexed,
  candidate_less, kept_at, keep_index, keep_all, where_index, is_recent, bucket, last_test,
  within_test, newest_rules, bucket_rules, apply_rules, apply_bounds, within_bounds, bounds_rule,
  decide, kept_of, select_keep, period_hourly, period_daily, period_weekly, period_monthly,
  period_yearly,
}

abbrev pub names : ℕ → List ℕ → Bool
names i = any (λ j. j == i)

-- A result is kept.
abbrev pub keeps : Kept → ℕ → Bool
keeps kept i = is_some (kept_at i kept)

pub keeps-keep_index :
    (rule : Rule) (i j : ℕ) (kept : Kept)
    → keeps (keep_index rule j kept) i ≡ (keeps kept i || j == i)
unfolding keep_index kept_at
keeps-keep_index rule i j kept = elim (Bool-cases (keeps kept j)) [
  | inl e ↦ ground (arith, e, ap (λ (m : ℕ). keeps kept m))
  | inr e ↦ ground (arith, e)
]

keeps-keep_all :
    (rule : Rule) (i : ℕ) (is : List ℕ) (kept : Kept)
    → keeps (keep_all rule is kept) i ≡ (keeps kept i || names i is)
unfolding keep_all any
keeps-keep_all rule i [] kept = ground arith
keeps-keep_all rule i (j ∷ is) kept =
    ground
      (arith, keeps-keep_all rule i is (keep_index rule j kept), keeps-keep_index rule i j kept)

names-before :
    (test : ℕ → Candidate → Bool) (i j : ℕ) (cs : List Candidate)
    → i < j
    → names i (where_index test (indexed j cs)) ≡ false
unfolding where_index indexed any
names-before test i j [] h = refl
names-before test i j (c ∷ cs) h = ground (arith, names-before test i (suc j) cs)

names-later :
    (test : ℕ → Candidate → Bool) (i j : ℕ) (c : Candidate) (cs : List Candidate)
    → j < i
    → names i (where_index test (indexed j (c ∷ cs)))
      ≡ names i (where_index test (indexed (suc j) cs))
unfolding where_index indexed any
names-later test i j c cs h = ground arith

-- Every item of a list has its place.
abbrev pub After : ℕ → List Item → Type 0
After j = All (λ x. j ≤ x.0)

pub After-indexed : (i j : ℕ) (cs : List Candidate) → i ≤ j → After i (indexed j cs)
unfolding indexed
After-indexed i j [] h = tt
After-indexed i j (c ∷ cs) h = (h, After-indexed i (suc j) cs (omega arith))

names-lift :
    (test : ℕ → Candidate → Bool) (j : ℕ) (c : Candidate) (cs : List Candidate) (xs : List Item)
    → After (suc j) xs
    → All (λ x. names x.0 (where_index test (indexed (suc j) cs)) ≡ test x.0 x.1) xs
    → All (λ x. names x.0 (where_index test (indexed j (c ∷ cs))) ≡ test x.0 x.1) xs
names-lift test j c cs [] a h = tt
names-lift test j c cs (x ∷ xs) a h =
    (names-later test x.0 j c cs a.0 ∙ h.0, names-lift test j c cs xs a.1 h.1)

names-first :
    (test : ℕ → Candidate → Bool) (j : ℕ) (c : Candidate) (cs : List Candidate)
    → names j (where_index test (indexed j (c ∷ cs))) ≡ test j c
unfolding where_index indexed any
names-first test j c cs = ground (arith, names-before test j (suc j) cs)

names-where_index :
    (test : ℕ → Candidate → Bool) (j : ℕ) (cs : List Candidate)
    → All (λ x. names x.0 (where_index test (indexed j cs)) ≡ test x.0 x.1) (indexed j cs)
unfolding indexed
names-where_index test j [] = tt
names-where_index test j (c ∷ cs) = (
  names-first test j c cs,
  names-lift test j c cs (indexed (suc j) cs) (After-indexed (suc j) (suc j) cs (omega arith))
      (names-where_index test (suc j) cs),
)

-- The keep flags of the decisions, from a description of what is kept.
pub map-decide :
    (kept : Kept) (test : ℕ → Candidate → Bool) (xs : List Item)
    → All (λ x. keeps kept x.0 ≡ test x.0 x.1) xs
    → map (λ (d : Decision). d.keep) (map (decide kept) xs) ≡ map (λ x. test x.0 x.1) xs
map-decide kept test [] h = refl
map-decide kept test (x ∷ xs) h = ground (arith, h.0, map-decide kept test xs h.1)

keeps-apply_bounds :
    (sorted : List Candidate) (now : ℕ) (r : Retention)
    → All
        (λ x. keeps (apply_bounds sorted now r) x.0 ≡ within_bounds r now x.0 x.1)
        (indexed 0 sorted)
unfolding apply_bounds kept_at
keeps-apply_bounds sorted now r =
    All-map (indexed 0 sorted) (λ x e. keeps-keep_all (bounds_rule r) x.0 _ [] ∙ e)
      (names-where_index (within_bounds r now) 0 sorted)

kept_of-none :
    (sorted : List Candidate) (now : ℕ) (r : Retention)
    → r.keep ≡ none
    → kept_of sorted now r ≡ apply_bounds sorted now r
unfolding kept_of
kept_of-none sorted now r h = ground (arith, h)

-- Without a policy of its own, retention keeps exactly the results that are neither too old nor
-- past the count of a series, in the order of the decisions.
pub select_keep-bounds :
    (cands : List Candidate) (now : ℕ) (r : Retention)
    → r.keep ≡ none
    → let sorted = sort_stable candidate_less cands in
      map (λ (d : Decision). d.keep) (select_keep cands now r)
      ≡ map (λ x. within_bounds r now x.0 x.1) (indexed 0 sorted)
unfolding select_keep
select_keep-bounds cands now r h =
    let sorted = sort_stable candidate_less cands in
    ap (λ (kept : Kept). map (λ (d : Decision). d.keep) (map (decide kept) (indexed 0 sorted)))
      (kept_of-none sorted now r h)
    ∙ map-decide (apply_bounds sorted now r) (within_bounds r now) (indexed 0 sorted)
        (keeps-apply_bounds sorted now r)

-- What the rules of a policy keep.
abbrev pub chosen : Keep → (Civil → Period) → ℕ → List Candidate → ℕ → Bool
chosen k key n sorted i = names i (bucket_keepers (λ t. key (k.location t)) sorted n)

abbrev pub ruled : Keep → ℕ → List Candidate → ℕ → Candidate → Bool
ruled k now sorted i c =
    (is_positive k.last && ltb i k.last)
    || (is_positive k.within && is_recent now k.within c)
    || chosen k period_hourly k.hourly sorted i
    || chosen k period_daily k.daily sorted i
    || chosen k period_weekly k.weekly sorted i
    || chosen k period_monthly k.monthly sorted i
    || chosen k period_yearly k.yearly sorted i

keeps-bucket :
    (k : Keep) (key : Civil → Period) (rule : Rule) (n : ℕ) (sorted : List Candidate) (kept : Kept)
    (i : ℕ)
    → keeps (bucket k key rule n sorted kept) i ≡ (keeps kept i || chosen k key n sorted i)
unfolding bucket
keeps-bucket k key rule n sorted kept i =
    keeps-keep_all rule i (bucket_keepers (λ t. key (k.location t)) sorted n) kept

keeps-within :
    (sorted : List Candidate) (now : ℕ) (k : Keep) (i : ℕ)
    → keeps (newest_rules sorted now k) i ≡ (
        names i (where_index (last_test k) (indexed 0 sorted))
        || (is_positive k.within && names i (where_index (within_test k now) (indexed 0 sorted))))
unfolding newest_rules kept_at
keeps-within sorted now k i = ground (
  arith,
  keeps-keep_all Rule.last i (where_index (last_test k) (indexed 0 sorted)) [],
  keeps-keep_all Rule.within i (where_index (within_test k now) (indexed 0 sorted))
      (keep_all Rule.last (where_index (last_test k) (indexed 0 sorted)) []),
)

five_times :
    (x a b c d e : Bool) {a' b' c' d' e' : Bool}
    → e' ≡ (d' || e)
    → d' ≡ (c' || d)
    → c' ≡ (b' || c)
    → b' ≡ (a' || b)
    → a' ≡ (x || a)
    → e' ≡ (x || a || b || c || d || e)
five_times x a b c d e h i j k l = ground (arith, h, i, j, k, l)

keeps-bucket_rules :
    (sorted : List Candidate) (k : Keep) (kept : Kept) (i : ℕ)
    → keeps (bucket_rules sorted k kept) i ≡ (
        keeps kept i
        || chosen k period_hourly k.hourly sorted i
        || chosen k period_daily k.daily sorted i
        || chosen k period_weekly k.weekly sorted i
        || chosen k period_monthly k.monthly sorted i
        || chosen k period_yearly k.yearly sorted i)
unfolding bucket_rules
keeps-bucket_rules sorted k kept i =
    let h = bucket k period_hourly Rule.hourly k.hourly sorted kept in
    let d = bucket k period_daily Rule.daily k.daily sorted h in
    let w = bucket k period_weekly Rule.weekly k.weekly sorted d in
    let m = bucket k period_monthly Rule.monthly k.monthly sorted w in
    five_times (keeps kept i) (chosen k period_hourly k.hourly sorted i)
      (chosen k period_daily k.daily sorted i) (chosen k period_weekly k.weekly sorted i)
      (chosen k period_monthly k.monthly sorted i) (chosen k period_yearly k.yearly sorted i)
      (keeps-bucket k period_yearly Rule.yearly k.yearly sorted m i)
      (keeps-bucket k period_monthly Rule.monthly k.monthly sorted w i)
      (keeps-bucket k period_weekly Rule.weekly k.weekly sorted d i)
      (keeps-bucket k period_daily Rule.daily k.daily sorted h i)
      (keeps-bucket k period_hourly Rule.hourly k.hourly sorted kept i)

ruled-regroup :
    (n l l' w w' p a b c d e : Bool)
    → n ≡ (l || (p && w))
    → (l ≡ l') × (w ≡ w')
    → (n || a || b || c || d || e) ≡ (l' || (p && w') || a || b || c || d || e)
ruled-regroup n l l' w w' p a b c d e h k = ground (arith, h, k.0, k.1)

keeps-ruled :
    (sorted : List Candidate) (now : ℕ) (k : Keep) (x : Item)
    → (names x.0 (where_index (last_test k) (indexed 0 sorted)) ≡ last_test k x.0 x.1)
      × (names x.0 (where_index (within_test k now) (indexed 0 sorted)) ≡ within_test k now x.0 x.1)
    → keeps (apply_rules sorted now k) x.0 ≡ ruled k now sorted x.0 x.1
unfolding apply_rules
keeps-ruled sorted now k x e =
    keeps-bucket_rules sorted k (newest_rules sorted now k) x.0
    ∙ ruled-regroup _ _ _ _ _ (is_positive k.within) _ _ _ _ _ (keeps-within sorted now k x.0) e

pub keeps-apply_rules :
    (sorted : List Candidate) (now : ℕ) (k : Keep)
    → All
        (λ x. keeps (apply_rules sorted now k) x.0 ≡ ruled k now sorted x.0 x.1)
        (indexed 0 sorted)
keeps-apply_rules sorted now k = All-map (indexed 0 sorted) (keeps-ruled sorted now k) (
    All-zip _ _ (indexed 0 sorted) (names-where_index (last_test k) 0 sorted)
      (names-where_index (within_test k now) 0 sorted))
