-- ===== src/Examples/Store.antt =====
-- A store of two results that share a body, and what a prune and a sweep make of its bucket
-- (internal/store).
use wsaw.Prelude.{
  ℕ, ◌≡◌, refl, true, false, not, ◌&&◌, ◌||◌, none, [], ◌∷◌, arith, any, if◌then◌else◌, keep_if,
  count_if, length,
}
use wsaw.Prelude.Text.{Text, bytes, eqb, less, has_prefix}
use wsaw.Prelude.Sort.{sort_stable, insert}
use wsaw.Prelude.Assoc.{lookup, Unique}
use wsaw.Model.Enums.{Termination}
use wsaw.Store.Select.{
  Retention, candidate_less, indexed, select_keep, kept_of, kept_at, keep_index, keep_all,
  where_index, apply_bounds, bounds_rule, active, empty,
}
use wsaw.Store.Index.{
  Index, Owner, ResultRow, RefRow, is_live, dangling, dangling_refs, rising, insert_text,
  still_named, claimed_since, referenced, results_with_unknown_refs, grace_period,
}
use wsaw.Store.Collect.{
  Run, Bucket, Object, no_stats, collect_pages, collect_page, last_ref, collectable, orphaned_refs,
  orphan_pages, note_page,
}
use wsaw.Store.Collect.Pages.{snapshot, collect_pages-snapshot}
use wsaw.Store.Collect.Keeps.{has_reason, collect_pages-keeps}
use wsaw.Store.Collect.Removes.{no_faults, has_lost, collect_pages-removes}
use wsaw.Store.Prune.{
  prune, plan_prune, planned, condemned, prune_plans, distinct_series, insert_series, candidates,
  account_for_kept, account_decisions, doomed, condemned_results, delete_condemned, delete_results,
  delete_batches, delete_batch,
}
use wsaw.Store.Prune.Survives.{named_by_survivor, prune-survivor, prune-plan_prune}
use wsaw.Store.Sweep.{no_sweep, sweep_bucket, is_young}
use wsaw.Store.Sweep.Keeps.{spoken_for, sweep_bucket-keeps}
use wsaw.Store.Refs.{is_artifact_ref}

abbrev scan_of : Text → Owner
scan_of id = record { target = bytes "shop"; mode = bytes "ignore"; scan_id = id }

abbrev idle_at : Text → ℕ → ResultRow
idle_at id t = record {
  owner = scan_of id;
  started_at = t;
  termination = Termination.idle;
  refs_recorded = true;
}

abbrev row : Text → Text → RefRow
row id ref = record { owner = scan_of id; artifact_ref = ref; size = 10 }

abbrev ix : Index
ix = record {
  results = idle_at (bytes "new") 2000 ∷ idle_at (bytes "old") 1000 ∷ [];
  baselines = [];
  refs =
      row (bytes "old") (bytes "body/1")
      ∷ row (bytes "old") (bytes "body/2")
      ∷ row (bytes "new") (bytes "body/1")
      ∷ [];
  claims = [];
  sizes = [];
}

abbrev object : Object
object = record { size = 10; mod_time = 500 }

abbrev bodies : Bucket
bodies = (bytes "body/1", object) ∷ (bytes "body/2", object) ∷ []

bodies-Unique : Unique bodies
unfolding lookup eqb
bodies-Unique = (refl, (refl, tt))

abbrev newest_only : Retention
newest_only = record { max_age = 0; max_per_series = 1; keep = none }

-- What is left once the older result is gone.
abbrev after : Run
after = record {
  index = record ix { results = idle_at (bytes "new") 2000 ∷ [] };
  bucket = bodies;
  stats = no_stats;
}

two_dangle : length (dangling after.index []) ≡ 2
unfolding dangling rising insert_text is_live keep_if any eqb less
two_dangle = refl

collect_pages-snapshot_example :
    collect_pages no_faults 3 3000 [] after
    ≡ collect_page no_faults
        (claimed_since after.index 3000 grace_period)
        (snapshot no_faults after.index [])
        after
collect_pages-snapshot_example =
    collect_pages-snapshot no_faults 3 3000 [] after (omega (arith, two_dangle))

shared_named : has_reason no_faults (bytes "body/1") 3000 after ≡ true
unfolding still_named claimed_since collectable any is_live eqb lookup has_prefix
shared_named = refl

collect_pages-keeps_example :
    lookup (bytes "body/1") (collect_pages no_faults 3 3000 [] after).0.bucket
    ≡ lookup (bytes "body/1") bodies
collect_pages-keeps_example =
    collect_pages-keeps no_faults (bytes "body/1") 3 3000 after (omega (arith, two_dangle))
      shared_named

collect_pages-removes_example :
    let out = collect_pages no_faults 3 3000 [] after in
    (out.1 ≡ true)
    × (lookup (bytes "body/2") out.0.bucket ≡ (
        if has_lost after.index (bytes "body/2")
          && not (has_reason no_faults (bytes "body/2") 3000 after)
        then none
        else lookup (bytes "body/2") bodies))
collect_pages-removes_example =
    collect_pages-removes 3 3000 after (bytes "body/2") (omega (arith, two_dangle)) bodies-Unique

shared_survives : named_by_survivor ix (prune_plans ix 3000 newest_only) (bytes "body/1") ≡ true
unfolding prune_plans distinct_series insert_series candidates select_keep sort_stable insert
    candidate_less kept_of apply_bounds bounds_rule keep_all keep_index kept_at where_index indexed
    condemned_results doomed any keep_if eqb less
shared_survives = refl

prune-survivor_example :
    lookup (bytes "body/1") (prune no_faults true 3000 newest_only ix bodies).run.bucket
    ≡ lookup (bytes "body/1") bodies
prune-survivor_example =
    prune-survivor no_faults true 3000 newest_only ix bodies (bytes "body/1") shared_survives

prune-plan_prune_example :
    lookup (bytes "body/2") (prune no_faults true 3000 newest_only ix bodies).run.bucket ≡ (
      if any
        (λ t. eqb t (bytes "body/2"))
        (plan_prune no_faults true 3000 newest_only ix bodies).artifacts
      then none
      else lookup (bytes "body/2") bodies)
prune-plan_prune_example =
    prune-plan_prune true 3000 newest_only ix bodies (bytes "body/2") bodies-Unique

-- The dry run names the body of the older result alone.
one_goes : (plan_prune no_faults true 3000 newest_only ix bodies).artifacts ≡ bytes "body/2" ∷ []
unfolding plan_prune planned condemned active empty prune_plans distinct_series insert_series
    candidates select_keep sort_stable insert candidate_less kept_of apply_bounds bounds_rule
    keep_all keep_index kept_at where_index indexed doomed delete_condemned delete_results
    delete_batches delete_batch account_for_kept account_decisions results_with_unknown_refs
    orphaned_refs orphan_pages note_page last_ref dangling_refs dangling rising insert_text
    still_named is_live claimed_since collectable any keep_if count_if eqb less lookup
one_goes = refl

shared_spoken_for :
    (spoken_for no_faults 3000 false (bytes "body/1") (after, no_sweep)
      || not (
          any
            (λ x. eqb x.0 (bytes "body/1") && (is_artifact_ref x.0 && not (is_young 3000 x.1)))
            bodies))
    ≡ true
unfolding referenced any eqb
shared_spoken_for = refl

sweep_bucket-keeps_example :
    lookup (bytes "body/1") (sweep_bucket no_faults 3000 false (after, no_sweep)).0.bucket
    ≡ lookup (bytes "body/1") bodies
sweep_bucket-keeps_example =
    sweep_bucket-keeps no_faults 3000 false (bytes "body/1") after no_sweep shared_spoken_for
