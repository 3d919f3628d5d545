-- ===== src/Store/Select.antt =====
-- internal/store/retention.go, from Retention to bucketKeepers: which results a policy keeps.
pub mod Buckets
pub mod Periods
pub mod Kept
pub mod Filled
pub mod Series
pub mod Grows
use wsaw.Prelude.{
  ℕ, zero, suc, ◌+◌, ◌<◌, ◌≡◌, Bool, true, false, not, ◌&&◌, ◌||◌, Option, none, some, List, [],
  ◌∷◌, ◌++◌, map, ltb, leb, ◌==◌, if◌then◌else◌, is_some, length,
}
use wsaw.Prelude.Text.{Text, bytes, less}
use wsaw.Prelude.Sort.{sort_stable}
use wsaw.Prelude.Int64.{is_positive}
use wsaw.Model.Enums.{Termination, termination_failed, termination_truncated}

-- A column `started_at` counts nanoseconds of the Unix epoch, here from 1970 on.
pub record Candidate : Type 0 where
  pub scan_id : Text
  pub started_at : ℕ
  pub termination : Termination

-- What the time zone database and the calendar say of a moment: `Date`, `Hour` and `ISOWeek` in
-- the location of the policy.
pub record Civil : Type 0 where
  pub year : ℕ
  pub month : ℕ
  pub day : ℕ
  pub hour : ℕ
  pub iso_year : ℕ
  pub iso_week : ℕ

-- Counts and durations are the patterns of int64.
pub record Keep : Type 0 where
  pub last : ℕ
  pub within : ℕ
  pub hourly : ℕ
  pub daily : ℕ
  pub weekly : ℕ
  pub monthly : ℕ
  pub yearly : ℕ
  pub location : ℕ → Civil

pub record Retention : Type 0 where
  pub max_age : ℕ
  pub max_per_series : ℕ
  pub keep : Option Keep

-- `Keep.Empty`
unfoldable pub empty : Keep → Bool
empty k =
    not (is_positive k.last)
    && not (is_positive k.within)
    && not (is_positive k.hourly)
    && not (is_positive k.daily)
    && not (is_positive k.weekly)
    && not (is_positive k.monthly)
    && not (is_positive k.yearly)

unfoldable pub bounded : Keep → Bool
bounded k = is_positive k.within

unfoldable pub active : Retention → Bool
active r = elim r.keep [
  | some k ↦ not (empty k)
  | none ↦ is_positive r.max_age || is_positive r.max_per_series
]

pub data Rule : Type 0 where
  last within hourly daily weekly monthly yearly newest : Rule
  age count age_count : Rule

pub record Decision : Type 0 where
  pub scan_id : Text
  pub started_at : ℕ
  pub termination : Termination
  pub keep : Bool
  pub rule : Option Rule

unfoldable pub tier : Termination → ℕ
tier t = if termination_failed t then 2 else if termination_truncated t then 1 else 0

pub record Period : Type 0 where
  pub a : ℕ
  pub b : ℕ
  pub c : ℕ
  pub d : ℕ

abbrev pub same_period : Period → Period → Bool
same_period p q = p.a == q.a && p.b == q.b && p.c == q.c && p.d == q.d

abbrev pub period_hourly : Civil → Period
period_hourly t = record { a = t.year; b = t.month; c = t.day; d = t.hour }

abbrev pub period_daily : Civil → Period
period_daily t = record { a = t.year; b = t.month; c = t.day; d = 0 }

abbrev pub period_weekly : Civil → Period
period_weekly t = record { a = t.iso_year; b = t.iso_week; c = 0; d = 0 }

abbrev pub period_monthly : Civil → Period
period_monthly t = record { a = t.year; b = t.month; c = 0; d = 0 }

abbrev pub period_yearly : Civil → Period
period_yearly t = record { a = t.year; b = 0; c = 0; d = 0 }

-- The candidates with their indices in the sorted slice.
abbrev pub Item : Type 0
Item = ℕ × Candidate

unfoldable pub indexed : ℕ → List Candidate → List Item
indexed i [] = []
indexed i (c ∷ cs) = (i, c) ∷ indexed (suc i) cs

-- The loop of bucketKeepers. `order` lists the periods seen, in the order in which they came, and
-- `best` has one entry for each of them: they are one list here, whose items are what `best[p]`
-- indexes.
abbrev pub Slots : Type 0
Slots = List (Period × Item)

unfoldable pub seen : Period → Slots → Bool
seen p [] = false
seen p ((q, x) ∷ slots) = same_period q p || seen p slots

-- A better termination takes the place of the best one of its period.
unfoldable pub improve : Period → Item → Slots → Slots
improve p x [] = []
improve p x ((q, y) ∷ slots) =
    (q, if same_period q p && ltb (tier x.1.termination) (tier y.1.termination) then x else y)
    ∷ improve p x slots

unfoldable pub bucket_loop : (ℕ → Period) → ℕ → List Item → Slots → Slots
bucket_loop key n [] slots = slots
bucket_loop key n (x ∷ xs) slots =
    let p = key x.1.started_at in
    elim (seen p slots) [
      | true ↦ bucket_loop key n xs (improve p x slots)
      | false ↦ elim (length slots == n) [
        | true ↦ slots
        | false ↦ bucket_loop key n xs (slots ++ (p, x) ∷ [])
      ]
    ]

unfoldable pub bucket_keepers : (ℕ → Period) → List Candidate → ℕ → List ℕ
bucket_keepers key sorted n =
    if is_positive n then map (λ s. s.1.0) (bucket_loop key n (indexed 0 sorted) []) else []

-- The map from indices to rules.
abbrev pub Kept : Type 0
Kept = List (ℕ × Rule)

unfoldable pub kept_at : ℕ → Kept → Option Rule
kept_at i [] = none
kept_at i ((j, r) ∷ kept) = if j == i then some r else kept_at i kept

-- The closure `keep`: the first rule that keeps a result is the one that is named.
unfoldable pub keep_index : Rule → ℕ → Kept → Kept
keep_index rule i kept = if is_some (kept_at i kept) then kept else (i, rule) ∷ kept

unfoldable pub keep_all : Rule → List ℕ → Kept → Kept
keep_all rule [] kept = kept
keep_all rule (i ∷ is) kept = keep_all rule is (keep_index rule i kept)

-- The indices of the items that pass a test, which a `for` loop with a test visits.
unfoldable pub where_index : (ℕ → Candidate → Bool) → List Item → List ℕ
where_index test [] = []
where_index test ((i, c) ∷ xs) =
    let rest = where_index test xs in if test i c then i ∷ rest else rest

-- `!c.StartedAt.Before(now.Add(-d))`
abbrev pub is_recent : ℕ → ℕ → Candidate → Bool
is_recent now d c = leb now (c.started_at + d)

unfoldable pub bucket : Keep → (Civil → Period) → Rule → ℕ → List Candidate → Kept → Kept
bucket k key rule n sorted kept =
    keep_all rule (bucket_keepers (λ t. key (k.location t)) sorted n) kept

abbrev pub last_test : Keep → ℕ → Candidate → Bool
last_test k i c = is_positive k.last && ltb i k.last

abbrev pub within_test : Keep → ℕ → ℕ → Candidate → Bool
within_test k now i c = is_recent now k.within c

-- The first two loops of applyKeep.
unfoldable pub newest_rules : List Candidate → ℕ → Keep → Kept
newest_rules sorted now k =
    let xs = indexed 0 sorted in
    let kept = keep_all Rule.last (where_index (last_test k) xs) [] in
    if is_positive k.within
    then keep_all Rule.within (where_index (within_test k now) xs) kept
    else kept

-- The loop over the five lengths of a period.
unfoldable pub bucket_rules : List Candidate → Keep → Kept → Kept
bucket_rules sorted k kept =
    let kept = bucket k period_hourly Rule.hourly k.hourly sorted kept in
    let kept = bucket k period_daily Rule.daily k.daily sorted kept in
    let kept = bucket k period_weekly Rule.weekly k.weekly sorted kept in
    let kept = bucket k period_monthly Rule.monthly k.monthly sorted kept in
    bucket k period_yearly Rule.yearly k.yearly sorted kept

-- The rules of a policy before the fallback.
unfoldable pub apply_rules : List Candidate → ℕ → Keep → Kept
apply_rules sorted now k = bucket_rules sorted k (newest_rules sorted now k)

unfoldable pub apply_keep : List Candidate → ℕ → Keep → Kept
apply_keep sorted now k =
    let kept = apply_rules sorted now k in
    if length kept == 0 && ltb 0 (length sorted) && not (bounded k)
    then keep_index Rule.newest 0 kept
    else kept

unfoldable pub bounds_rule : Retention → Rule
bounds_rule r =
    if is_positive r.max_age && is_positive r.max_per_series
    then Rule.age_count
    else if is_positive r.max_per_series
    then Rule.count
    else Rule.age

-- What the two bounds let through: an age and a place in the series.
abbrev pub within_bounds : Retention → ℕ → ℕ → Candidate → Bool
within_bounds r now i c =
    not (is_positive r.max_age && not (is_recent now r.max_age c))
    && not (is_positive r.max_per_series && leb r.max_per_series i)

unfoldable pub apply_bounds : List Candidate → ℕ → Retention → Kept
apply_bounds sorted now r =
    keep_all (bounds_rule r) (where_index (within_bounds r now) (indexed 0 sorted)) []

-- The newest first, and the greater scan id among those of one moment.
unfoldable pub candidate_less : Candidate → Candidate → Bool
candidate_less x y =
    if x.started_at == y.started_at then less y.scan_id x.scan_id else ltb y.started_at x.started_at

abbrev pub decide : Kept → Item → Decision
decide kept (i, c) = record {
  scan_id = c.scan_id;
  started_at = c.started_at;
  termination = c.termination;
  keep = is_some (kept_at i kept);
  rule = kept_at i kept;
}

unfoldable pub kept_of : List Candidate → ℕ → Retention → Kept
kept_of sorted now r = elim r.keep [
  | some k ↦ apply_keep sorted now k
  | none ↦ apply_bounds sorted now r
]

unfoldable pub select_keep : List Candidate → ℕ → Retention → List Decision
select_keep cands now r =
    let sorted = sort_stable candidate_less cands in
    map (decide (kept_of sorted now r)) (indexed 0 sorted)
