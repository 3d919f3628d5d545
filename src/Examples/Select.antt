-- ===== src/Examples/Select.antt =====
-- Three results of one series and the policies that thin them (internal/store/retention.go).
use wsaw.Prelude.{
  ℕ, ◌/◌, ◌≤◌, ◌≡◌, refl, ap, true, false, none, some, List, [], ◌∷◌, map, arith, any, All,
  if◌then◌else◌,
}
use wsaw.Prelude.Text.{bytes, eqb, less}
use wsaw.Prelude.Sort.{sort_stable, insert}
use wsaw.Prelude.Int64.{is_positive}
use wsaw.Model.Enums.{Termination, termination_failed, termination_truncated}
use wsaw.Store.Select.{
  Candidate, Civil, Period, Keep, Retention, Decision, candidate_less, indexed, bucket_keepers,
  bucket_loop, seen, improve, tier, select_keep, kept_of, kept_at, keep_index, keep_all,
  where_index, bucket, newest_rules, bucket_rules, apply_rules, apply_keep, empty, bounded,
  period_hourly,
}
use wsaw.Store.Select.Buckets.{best}
use wsaw.Store.Select.Periods.{newest_best, is_best, bucket_keepers-newest_best}
use wsaw.Store.Select.Kept.{ruled}
use wsaw.Store.Select.Filled.{select_keep-ruled}
use wsaw.Store.Select.Series.{select_keep-filled}
use wsaw.Store.Select.Grows.{IsCalendar, all_kept, select_keep-grows}

abbrev hour : ℕ
hour = 3_600_000_000_000

-- A calendar of hours alone.
abbrev hours_only : ℕ → Civil
hours_only t = record {
  year = 0;
  month = 0;
  day = 0;
  hour = t / 3_600_000_000_000;
  iso_year = 0;
  iso_week = 0;
}

hours_interval :
    (t u v : ℕ)
    → v ≤ u
    → u ≤ t
    → period_hourly (hours_only t) ≡ period_hourly (hours_only v)
    → period_hourly (hours_only u) ≡ period_hourly (hours_only v)
hours_interval t u v a b e =
    let same : t / 3_600_000_000_000 ≡ v / 3_600_000_000_000 = ap (λ (p : Period). p.d) e in
    let between : u / 3_600_000_000_000 ≡ v / 3_600_000_000_000 = omega arith in
    ap (λ (h : ℕ). record { a = 0; b = 0; c = 0; d = h }) between

hours_only-IsCalendar : IsCalendar hours_only
hours_only-IsCalendar = record {
  hours = hours_interval;
  days = λ t u v a b e. refl;
  weeks = λ t u v a b e. refl;
  months = λ t u v a b e. refl;
  years = λ t u v a b e. refl;
}

-- Two results of one hour, of which the newer hit the timeout, and one of the hour before.
abbrev cut_short : Candidate
cut_short = record {
  scan_id = bytes "c";
  started_at = 7_300_000_000_000;
  termination = Termination.timeout;
}

abbrev clean : Candidate
clean = record {
  scan_id = bytes "b";
  started_at = 7_250_000_000_000;
  termination = Termination.idle;
}

abbrev early : Candidate
early = record {
  scan_id = bytes "a";
  started_at = 3_700_000_000_000;
  termination = Termination.idle;
}

abbrev series : List Candidate
series = early ∷ cut_short ∷ clean ∷ []

bucket_keepers-newest_best_example :
    let key = λ (t : ℕ). period_hourly (hours_only t) in
    let sorted = sort_stable candidate_less series in
    (bucket_keepers key sorted 1 ≡ (if is_positive 1 then newest_best key sorted 1 else []))
    × ((p : Period)
        → All (λ x. is_best key p (best key p none (indexed 0 sorted)) x ≡ true) (indexed 0 sorted))
bucket_keepers-newest_best_example =
    bucket_keepers-newest_best (λ t. period_hourly (hours_only t)) hours_interval series 1

-- Of the newest hour the clean result is kept, not the newer one.
clean_kept :
    bucket_keepers (λ t. period_hourly (hours_only t)) (cut_short ∷ clean ∷ early ∷ []) 1 ≡ 1 ∷ []
unfolding bucket_keepers bucket_loop seen improve tier indexed termination_failed
    termination_truncated
clean_kept = refl

abbrev hourly_twice : Keep
hourly_twice = record {
  last = 0;
  within = 0;
  hourly = 2;
  daily = 0;
  weekly = 0;
  monthly = 0;
  yearly = 0;
  location = hours_only;
}

abbrev and_last : Keep
and_last = record {
  last = 1;
  within = 0;
  hourly = 3;
  daily = 1;
  weekly = 0;
  monthly = 0;
  yearly = 0;
  location = hours_only;
}

abbrev thinning : Keep → Retention
thinning k = record { max_age = 0; max_per_series = 0; keep = some k }

abbrev two_newest : Retention
two_newest = record { max_age = 3_600_000_000_000; max_per_series = 1; keep = none }

select_keep-ruled_example :
    map (λ (d : Decision). d.keep) (select_keep series 7_400_000_000_000 (thinning hourly_twice))
    ≡ map
        (λ x. ruled hourly_twice 7_400_000_000_000 (sort_stable candidate_less series) x.0 x.1)
        (indexed 0 (sort_stable candidate_less series))
unfolding empty
select_keep-ruled_example =
    select_keep-ruled series 7_400_000_000_000 (thinning hourly_twice) hourly_twice refl refl

select_keep-filled_example :
    any (λ (d : Decision). d.keep) (select_keep series 7_400_000_000_000 (thinning hourly_twice))
    ≡ true
unfolding bounded
select_keep-filled_example =
    select_keep-filled series 7_400_000_000_000 (thinning hourly_twice) hourly_twice refl refl refl

select_keep-grows_example :
    all_kept
      (map
        (λ (d : Decision). d.keep)
        (select_keep series 7_400_000_000_000 (thinning hourly_twice)))
      (map (λ (d : Decision). d.keep) (select_keep series 7_400_000_000_000 (thinning and_last)))
    ≡ true
unfolding empty
select_keep-grows_example =
    select_keep-grows series 7_400_000_000_000 (thinning hourly_twice) (thinning and_last)
      hourly_twice and_last refl refl refl hours_only-IsCalendar refl refl

hours_kept :
    map (λ (d : Decision). d.keep) (select_keep series 7_400_000_000_000 (thinning hourly_twice))
    ≡ false ∷ true ∷ true ∷ []
unfolding select_keep sort_stable insert candidate_less less eqb kept_of apply_keep apply_rules
    newest_rules bucket_rules bucket bucket_keepers bucket_loop seen improve tier indexed keep_all
    keep_index kept_at where_index termination_failed termination_truncated
hours_kept = refl
