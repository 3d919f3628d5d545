-- ===== src/Store/Select/Grows.antt =====
-- A rule added to a policy, or a greater count in one, never shrinks what is kept.
use wsaw.Prelude.{
  ℕ, zero, suc, ◌+◌, ◌≤◌, ◌≡◌, refl, sym, Bool, true, false, not, ◌&&◌, ◌||◌, some, List, [], ◌∷◌,
  map, arith, ltb, leb, take, any, subst,
}
use wsaw.Prelude.Sort.{sort_stable}
use wsaw.Prelude.Int64.{is_positive}
use wsaw.Store.Select.{
  Candidate, Item, Civil, Period, Keep, Retention, Decision, bucket_keepers, indexed,
  candidate_less, empty, select_keep, is_recent, period_hourly, period_daily, period_weekly,
  period_monthly, period_yearly,
}
use wsaw.Store.Select.Buckets.{distinct}
use wsaw.Store.Select.Periods.{best_of, newest_best, bucket_keepers-newest_best}
use wsaw.Store.Select.Kept.{names, ruled, chosen}
use wsaw.Store.Select.Filled.{select_keep-ruled}

-- The hours, days, weeks, months and years of a location are intervals of time.
pub record IsCalendar (location : ℕ → Civil) : Type 0 where
  pub hours :
      (t u v : ℕ)
      → v ≤ u
      → u ≤ t
      → period_hourly (location t) ≡ period_hourly (location v)
      → period_hourly (location u) ≡ period_hourly (location v)
  pub days :
      (t u v : ℕ)
      → v ≤ u
      → u ≤ t
      → period_daily (location t) ≡ period_daily (location v)
      → period_daily (location u) ≡ period_daily (location v)
  pub weeks :
      (t u v : ℕ)
      → v ≤ u
      → u ≤ t
      → period_weekly (location t) ≡ period_weekly (location v)
      → period_weekly (location u) ≡ period_weekly (location v)
  pub months :
      (t u v : ℕ)
      → v ≤ u
      → u ≤ t
      → period_monthly (location t) ≡ period_monthly (location v)
      → period_monthly (location u) ≡ period_monthly (location v)
  pub years :
      (t u v : ℕ)
      → v ≤ u
      → u ≤ t
      → period_yearly (location t) ≡ period_yearly (location v)
      → period_yearly (location u) ≡ period_yearly (location v)

-- A count that is no count at all, or one that the other reaches.
abbrev pub grows : ℕ → ℕ → Bool
grows n m = not (is_positive n) || (is_positive m && leb n m)

-- Every count and the age of one policy are reached by another.
abbrev pub policy_grows : Keep → Keep → Bool
policy_grows k l =
    grows k.last l.last
    && grows k.within l.within
    && grows k.hourly l.hourly
    && grows k.daily l.daily
    && grows k.weekly l.weekly
    && grows k.monthly l.monthly
    && grows k.yearly l.yearly

names-take :
    (key : ℕ → Period) (xs : List Item) (ps : List Period) (n m i : ℕ)
    → n ≤ m
    → names i (best_of key xs (take n ps)) ≡ true
    → names i (best_of key xs (take m ps)) ≡ true
unfolding best_of any
names-take key xs ps zero m i l h = cc
names-take key xs ps (suc n) zero i l h = absurd (omega arith)
names-take key xs [] (suc n) (suc m) i l h = h
names-take key xs (p ∷ ps) (suc n) (suc m) i l h = ground (arith, names-take key xs ps n m i)

names-grows :
    (key : ℕ → Period) (n m : ℕ) (cands : List Candidate) (i : ℕ)
    → ((t u v : ℕ) → v ≤ u → u ≤ t → key t ≡ key v → key u ≡ key v)
    → grows n m ≡ true
    → names i (bucket_keepers key (sort_stable candidate_less cands) n) ≡ true
    → names i (bucket_keepers key (sort_stable candidate_less cands) m) ≡ true
unfolding newest_best any
names-grows key n m cands i interval g h =
    let xs = indexed 0 (sort_stable candidate_less cands) in
    ground (
      arith,
      (bucket_keepers-newest_best key interval cands n).0,
      (bucket_keepers-newest_best key interval cands m).0,
      names-take key xs (distinct key [] xs) n m i,
    )

chosen-grows :
    (k l : Keep) (key : Civil → Period) (n m : ℕ) (cands : List Candidate) (i : ℕ)
    → ((t u v : ℕ)
        → v ≤ u
        → u ≤ t
        → key (k.location t) ≡ key (k.location v)
        → key (k.location u) ≡ key (k.location v))
    → l.location ≡ k.location
    → grows n m ≡ true
    → (not (chosen k key n (sort_stable candidate_less cands) i)
        || chosen l key m (sort_stable candidate_less cands) i)
      ≡ true
chosen-grows k l key n m cands i interval e g =
    let sorted = sort_stable candidate_less cands in
    let more = names-grows (λ t. key (k.location t)) n m cands i interval g in
    subst
      (λ (f : ℕ → Civil).
        (not (names i (bucket_keepers (λ t. key (k.location t)) sorted n))
          || names i (bucket_keepers (λ t. key (f t)) sorted m))
        ≡ true)
      (sym e) (ground (arith, more))

-- Whatever the one list keeps, the other keeps too.
abbrev pub all_kept : List Bool → List Bool → Bool
all_kept [] cs = true
all_kept (b ∷ bs) [] = false
all_kept (b ∷ bs) (c ∷ cs) = (not b || c) && all_kept bs cs

all_kept-map :
    (f g : Item → Bool) (xs : List Item)
    → ((x : Item) → (not (f x) || g x) ≡ true)
    → all_kept (map f xs) (map g xs) ≡ true
all_kept-map f g [] h = refl
all_kept-map f g (x ∷ xs) h = ground (arith, h x, all_kept-map f g xs h)

seven_grow :
    (a b c d e f g a' b' c' d' e' f' g' : Bool)
    → (not a || a') ≡ true
    → (not b || b') ≡ true
    → (not c || c') ≡ true
    → (not d || d') ≡ true
    → (not e || e') ≡ true
    → (not f || f') ≡ true
    → (not g || g') ≡ true
    → (not (a || b || c || d || e || f || g) || (a' || b' || c' || d' || e' || f' || g')) ≡ true
seven_grow true b c d e f g a' b' c' d' e' f' g' ha hb hc hd he hf hg = ground arith
seven_grow false true c d e f g a' b' c' d' e' f' g' ha hb hc hd he hf hg = ground arith
seven_grow false false c d e f g a' b' c' d' e' f' g' ha hb hc hd he hf hg = ground arith

last-grows :
    (n m i : ℕ)
    → grows n m ≡ true
    → (not (is_positive n && ltb i n) || (is_positive m && ltb i m)) ≡ true
last-grows n m i h = ground arith

within-grows :
    (n m now t : ℕ)
    → grows n m ≡ true
    → (not (is_positive n && leb now (t + n)) || (is_positive m && leb now (t + m))) ≡ true
within-grows n m now t h = ground arith

-- The conjuncts of policy_grows.
policy_parts :
    (a b c d e f g : Bool)
    → (a && b && c && d && e && f && g) ≡ true
    → (a ≡ true) × (b ≡ true) × (c ≡ true) × (d ≡ true) × (e ≡ true) × (f ≡ true) × (g ≡ true)
policy_parts true b c d e f g h = ground arith
policy_parts false b c d e f g h = ground arith

ruled-grows :
    (k l : Keep) (now : ℕ) (cands : List Candidate) (x : Item)
    → IsCalendar k.location
    → l.location ≡ k.location
    → policy_grows k l ≡ true
    → (not (ruled k now (sort_stable candidate_less cands) x.0 x.1)
        || ruled l now (sort_stable candidate_less cands) x.0 x.1)
      ≡ true
ruled-grows k l now cands x c e g =
    let (gl, gw, gh, gd, gk, gm, gy) =
      policy_parts (grows k.last l.last) (grows k.within l.within) (grows k.hourly l.hourly)
        (grows k.daily l.daily) (grows k.weekly l.weekly) (grows k.monthly l.monthly)
        (grows k.yearly l.yearly) g in
    let sorted = sort_stable candidate_less cands in
    seven_grow (is_positive k.last && ltb x.0 k.last)
      (is_positive k.within && is_recent now k.within x.1)
      (chosen k period_hourly k.hourly sorted x.0) (chosen k period_daily k.daily sorted x.0)
      (chosen k period_weekly k.weekly sorted x.0) (chosen k period_monthly k.monthly sorted x.0)
      (chosen k period_yearly k.yearly sorted x.0) (is_positive l.last && ltb x.0 l.last)
      (is_positive l.within && is_recent now l.within x.1)
      (chosen l period_hourly l.hourly sorted x.0) (chosen l period_daily l.daily sorted x.0)
      (chosen l period_weekly l.weekly sorted x.0) (chosen l period_monthly l.monthly sorted x.0)
      (chosen l period_yearly l.yearly sorted x.0) (last-grows k.last l.last x.0 gl)
      (within-grows k.within l.within now x.1.started_at gw)
      (chosen-grows k l period_hourly k.hourly l.hourly cands x.0 c.hours e gh)
      (chosen-grows k l period_daily k.daily l.daily cands x.0 c.days e gd)
      (chosen-grows k l period_weekly k.weekly l.weekly cands x.0 c.weeks e gk)
      (chosen-grows k l period_monthly k.monthly l.monthly cands x.0 c.months e gm)
      (chosen-grows k l period_yearly k.yearly l.yearly cands x.0 c.years e gy)

positive-grows : (n m : ℕ) → grows n m ≡ true → (not (is_positive n) || is_positive m) ≡ true
positive-grows n m h = ground arith

not_all :
    (a b c d e f g a' b' c' d' e' f' g' : Bool)
    → (not (a || b || c || d || e || f || g) || (a' || b' || c' || d' || e' || f' || g')) ≡ true
    → (not a && not b && not c && not d && not e && not f && not g) ≡ false
    → (not a' && not b' && not c' && not d' && not e' && not f' && not g') ≡ false
not_all a b c d e f g a' b' c' d' e' f' g' h k = ground (arith, h, k)

not_empty-grows : (k l : Keep) → policy_grows k l ≡ true → empty k ≡ false → empty l ≡ false
unfolding empty
not_empty-grows k l g h =
    let (gl, gw, gh, gd, gk, gm, gy) =
      policy_parts (grows k.last l.last) (grows k.within l.within) (grows k.hourly l.hourly)
        (grows k.daily l.daily) (grows k.weekly l.weekly) (grows k.monthly l.monthly)
        (grows k.yearly l.yearly) g in
    let some_grows =
      seven_grow (is_positive k.last) (is_positive k.within) (is_positive k.hourly)
        (is_positive k.daily) (is_positive k.weekly) (is_positive k.monthly) (is_positive k.yearly)
        (is_positive l.last) (is_positive l.within) (is_positive l.hourly) (is_positive l.daily)
        (is_positive l.weekly) (is_positive l.monthly) (is_positive l.yearly)
        (positive-grows k.last l.last gl) (positive-grows k.within l.within gw)
        (positive-grows k.hourly l.hourly gh) (positive-grows k.daily l.daily gd)
        (positive-grows k.weekly l.weekly gk) (positive-grows k.monthly l.monthly gm)
        (positive-grows k.yearly l.yearly gy) in
    not_all (is_positive k.last) (is_positive k.within) (is_positive k.hourly) (is_positive k.daily)
      (is_positive k.weekly) (is_positive k.monthly) (is_positive k.yearly) (is_positive l.last)
      (is_positive l.within) (is_positive l.hourly) (is_positive l.daily) (is_positive l.weekly)
      (is_positive l.monthly) (is_positive l.yearly) some_grows h

-- Take two policies of one location, whose hours, days, weeks, months and years are intervals of
-- time. If the first is not empty and the second states every count and age of the first or a
-- greater one, then the second keeps every result that the first keeps.
pub select_keep-grows :
    (cands : List Candidate) (now : ℕ) (r s : Retention) (k l : Keep)
    → r.keep ≡ some k
    → s.keep ≡ some l
    → empty k ≡ false
    → IsCalendar k.location
    → l.location ≡ k.location
    → policy_grows k l ≡ true
    → all_kept
        (map (λ (d : Decision). d.keep) (select_keep cands now r))
        (map (λ (d : Decision). d.keep) (select_keep cands now s))
      ≡ true
select_keep-grows cands now r s k l hr hs ne c e g =
    let sorted = sort_stable candidate_less cands in
    rw
      (
        select_keep-ruled cands now r k hr ne,
        select_keep-ruled cands now s l hs (not_empty-grows k l g ne),
      )
      (all_kept-map _ _ (indexed 0 sorted) λ x. ruled-grows k l now cands x c e g)
