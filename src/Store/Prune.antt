-- ===== src/Store/Prune.antt =====
-- internal/store/retention.go, Prune, PlanPrune and Sweep, where the statements of the database
-- succeed: from the plans to the collection of artifacts.
pub mod Survives
use wsaw.Prelude.{
  ℕ, zero, suc, ◌+◌, ◌-◌, ◌≡◌, Bool, true, false, not, ◌&&◌, ◌||◌, Option, none, some, List, [],
  ◌∷◌, ◌++◌, map, ltb, leb, ◌==◌, if◌then◌else◌, length, keep_if, any, count_if, take, drop,
}
use wsaw.Prelude.Text.{Text, eqb, less, is_empty}
use wsaw.Prelude.Sort.{sort_stable}
use wsaw.Store.Select.{Candidate, Decision, Retention, active, candidate_less, select_keep}
use wsaw.Store.Index.{
  Index, Owner, ResultRow, dangling, forget_stale_claims, results_with_unknown_refs, referenced,
  claimed_since, grace_period,
}
use wsaw.Store.Collect.{
  Faults, Run, Bucket, Object, PruneStats, no_stats, collect_pages, orphaned_refs,
  measure_artifacts, collectable, delete_artifact,
}

pub record Series : Type 0 where
  pub target : Text
  pub mode : Text

pub record SeriesPlan : Type 0 where
  pub series : Series
  pub decisions : List Decision

-- `SeriesPlan.Deleted` and `SeriesPlan.Kept`
unfoldable pub deleted : SeriesPlan → ℕ
deleted p = count_if (λ (d : Decision). not d.keep) p.decisions

unfoldable pub kept : SeriesPlan → ℕ
kept p = length p.decisions - deleted p

abbrev pub series_less : Series → Series → Bool
series_less a b = less a.target b.target || (eqb a.target b.target && less a.mode b.mode)

unfoldable pub insert_series : Series → List Series → List Series
insert_series s [] = s ∷ []
insert_series s (t ∷ ts) =
    let rest = insert_series s ts in
    if series_less s t then s ∷ t ∷ ts else if series_less t s then t ∷ rest else t ∷ ts

-- `select distinct target, consent_mode ... order by target, consent_mode`
unfoldable pub distinct_series : List ResultRow → List Series
distinct_series [] = []
distinct_series (r ∷ rs) =
    insert_series (record { target = r.owner.target; mode = r.owner.mode }) (distinct_series rs)

abbrev pub in_series : Series → Owner → Bool
in_series s o = eqb o.target s.target && eqb o.mode s.mode

abbrev pub candidate_of : ResultRow → Candidate
candidate_of r = record {
  scan_id = r.owner.scan_id;
  started_at = r.started_at;
  termination = r.termination;
}

-- Newest first, as the statement orders them.
unfoldable pub candidates : Index → Series → List Candidate
candidates ix s =
    sort_stable candidate_less
      (map candidate_of (keep_if (λ (r : ResultRow). in_series s r.owner) ix.results))

unfoldable pub prune_plans : Index → ℕ → Retention → List SeriesPlan
prune_plans ix now r =
    map (λ s. record { series = s; decisions = select_keep (candidates ix s) now r })
      (distinct_series ix.results)

unfoldable pub account_decisions : List Decision → PruneStats → PruneStats
account_decisions [] stats = stats
account_decisions (d ∷ ds) stats =
    let counted = record stats {
      results_kept = stats.results_kept + 1;
      oldest_kept = (elim stats.oldest_kept [
        | none ↦ some d.started_at
        | some t ↦ if ltb d.started_at t then some d.started_at else some t
      ]);
    } in
    account_decisions ds (if d.keep then counted else stats)

unfoldable pub account_for_kept : List SeriesPlan → PruneStats → PruneStats
account_for_kept [] stats = stats
account_for_kept (p ∷ ps) stats = account_for_kept ps (account_decisions p.decisions stats)

unfoldable pub doomed : List Decision → List Text
doomed [] = []
doomed (d ∷ ds) = let rest = doomed ds in if d.keep then rest else d.scan_id ∷ rest

-- `condemnedResults`, the names of the results.
unfoldable pub condemned_results : List SeriesPlan → List Owner
condemned_results [] = []
condemned_results (p ∷ ps) =
    map (λ id. record { target = p.series.target; mode = p.series.mode; scan_id = id })
      (doomed p.decisions)
    ++ condemned_results ps

abbrev pub in_batch : Series → List Text → ResultRow → Bool
in_batch s ids r = in_series s r.owner && any (eqb r.owner.scan_id) ids

-- The statement of one batch, and how many rows it affects.
unfoldable pub delete_batch : Series → List Text → Index → Index × ℕ
delete_batch s ids ix = (
  record ix { results = keep_if (λ r. not (in_batch s ids r)) ix.results },
  count_if (in_batch s ids) ix.results,
)

abbrev pub prune_batch : ℕ
prune_batch = 200

-- The batches of one series; one round of fuel for each scan id is enough.
unfoldable pub delete_batches : ℕ → Series → List Text → Index → Index × ℕ
delete_batches zero s ids ix = (ix, 0)
delete_batches (suc fuel) s [] ix = (ix, 0)
delete_batches (suc fuel) s (id ∷ ids) ix =
    let (next, n) = delete_batch s (take prune_batch (id ∷ ids)) ix in
    let (last, m) = delete_batches fuel s (drop prune_batch (id ∷ ids)) next in (last, n + m)

unfoldable pub delete_results : Series → List Text → Index → Index × ℕ
delete_results s ids ix = delete_batches (length ids) s ids ix

-- The index, the rows that went and the series that lost one.
unfoldable pub delete_condemned : List SeriesPlan → Index → Index × ℕ × ℕ
delete_condemned [] ix = (ix, 0, 0)
delete_condemned (p ∷ ps) ix =
    let (next, n) = delete_results p.series (doomed p.decisions) ix in
    let (last, m, k) = delete_condemned ps next in (last, n + m, (if ltb 0 n then 1 else 0) + k)

pub data Failure : Type 0 where
  unreachable cancelled empty_index : Failure

-- The statistics come back with an error too.
pub record Ended : Type 0 where
  pub run : Run
  pub failure : Option Failure

abbrev pub enough : Index → ℕ
enough ix = suc (length (dangling ix []))

-- The state in which the collection starts.
unfoldable pub condemned : ℕ → Retention → Index → Bucket → Run
condemned now r ix bucket =
    let plans = prune_plans ix now r in
    let stats =
      account_for_kept plans
        (record no_stats { unknown_references = results_with_unknown_refs ix }) in
    let (next, rows, series) = delete_condemned plans ix in
    record {
      index = next;
      bucket = bucket;
      stats = record stats { results_deleted = rows; series_pruned = series };
    }

unfoldable pub prune : Faults → Bool → ℕ → Retention → Index → Bucket → Ended
prune faults reachable now r ix bucket =
    let start = condemned now r ix bucket in
    let (out, through) = collect_pages faults (enough start.index) now [] start in
    if not (active r)
    then record { run = record { index = ix; bucket = bucket; stats = no_stats }; failure = none }
    else if not reachable
    then record {
      run = record { index = ix; bucket = bucket; stats = no_stats };
      failure = some unreachable;
    }
    else if through
    then record {
      run = record out { index = forget_stale_claims now grace_period out.index };
      failure = none;
    }
    else record { run = out; failure = some cancelled }

pub record Plan : Type 0 where
  pub plans : List SeriesPlan
  pub results : List Owner
  pub artifacts : List Text
  pub stats : PruneStats
  pub failure : Option Failure

abbrev pub no_plan : Plan
no_plan = record { plans = []; results = []; artifacts = []; stats = no_stats; failure = none }

-- The dry run, whose transaction is thrown away.
unfoldable pub planned : Faults → ℕ → Retention → Index → Bucket → Plan
planned faults now r ix bucket =
    let start = condemned now r ix bucket in
    let (refs, protected) =
      orphaned_refs (enough start.index) now start.index start.stats.unknown_references in
    let (count, freed) = measure_artifacts faults bucket refs in
    record {
      plans = prune_plans ix now r;
      results = condemned_results (prune_plans ix now r);
      artifacts = refs;
      stats = record start.stats {
        artifacts_deleted = count;
        bytes_freed = freed;
        artifacts_protected = protected;
      };
      failure = none;
    }

unfoldable pub plan_prune : Faults → Bool → ℕ → Retention → Index → Bucket → Plan
plan_prune faults reachable now r ix bucket =
    if not (active r)
    then no_plan
    else if not reachable
    then record no_plan { failure = some unreachable }
    else planned faults now r ix bucket
