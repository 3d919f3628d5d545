-- ===== src/Store/Sweep.antt =====
-- internal/store/retention.go, Sweep and PlanSweep, where the statements of the database succeed and
-- the context does not end.
pub mod Keeps
use wsaw.Prelude.{
  ℕ, zero, suc, ◌+◌, ◌≡◌, Bool, true, false, not, ◌&&◌, ◌||◌, Option, none, some, List, [], ◌∷◌,
  ◌++◌, ltb, ◌==◌, if◌then◌else◌, length,
}
use wsaw.Prelude.Text.{Text}
use wsaw.Store.Index.{
  Index, page_size, results_with_unknown_refs, referenced, claimed_since, grace_period,
}
use wsaw.Store.Collect.{
  Faults, Run, Bucket, Object, PruneStats, no_stats, collect_pages, orphaned_refs,
  measure_artifacts, collectable, delete_artifact,
}
use wsaw.Store.Prune.{Failure, unreachable, cancelled, empty_index, enough}
use wsaw.Store.Refs.{is_artifact_ref}

pub record SweepStats : Type 0 where
  pub artifacts_scanned : ℕ
  pub bytes_scanned : ℕ
  pub artifacts_deleted : ℕ
  pub bytes_freed : ℕ
  pub artifacts_protected : ℕ
  pub foreign_objects : ℕ
  pub artifacts_failed : ℕ
  pub unknown_references : ℕ
  pub rebuild_in_progress : ℕ
  pub artifacts : List Text

abbrev pub no_sweep : SweepStats
no_sweep = record {
  artifacts_scanned = 0;
  bytes_scanned = 0;
  artifacts_deleted = 0;
  bytes_freed = 0;
  artifacts_protected = 0;
  foreign_objects = 0;
  artifacts_failed = 0;
  unknown_references = 0;
  rebuild_in_progress = 0;
  artifacts = [];
}

-- A run, of which only the index and the bucket are read, and the statistics of the sweep.
abbrev pub State : Type 0
State = Run × SweepStats

abbrev pub Listed : Type 0
Listed = Text × Object

abbrev pub count_gone : Listed → SweepStats → SweepStats
count_gone x stats = record stats {
  artifacts_deleted = stats.artifacts_deleted + 1;
  bytes_freed = stats.bytes_freed + x.1.size;
}

abbrev pub swept : Listed → SweepStats → Run × Bool → State
swept x stats (run, true) = (run, count_gone x stats)
swept x stats (run, false) = (run, record stats { artifacts_failed = stats.artifacts_failed + 1 })

-- `obj.modTime.After(cutoff)`
abbrev pub is_young : ℕ → Object → Bool
is_young now obj = ltb now (obj.mod_time + grace_period)

abbrev pub scan : Listed → SweepStats → SweepStats
scan x stats = record stats {
  artifacts_scanned = stats.artifacts_scanned + 1;
  bytes_scanned = stats.bytes_scanned + x.1.size;
}

module _ (faults : Faults) (now : ℕ) (plan : Bool) where
  -- One object of a page of collectUnreferenced.
  unfoldable pub sweep_one : Listed → State → State
  sweep_one x (run, stats) =
      if referenced run.index x.0
      then (run, stats)
      else if claimed_since run.index now grace_period x.0
          || not (collectable x.0 stats.unknown_references)
      then (run, record stats { artifacts_protected = stats.artifacts_protected + 1 })
      else if plan
      then (run, record (count_gone x stats) { artifacts = stats.artifacts ++ x.0 ∷ [] })
      else swept x stats (delete_artifact faults x.0 run)

  unfoldable pub collect_unreferenced : List Listed → State → State
  collect_unreferenced [] st = st
  collect_unreferenced (x ∷ page) st = collect_unreferenced page (sweep_one x st)

  -- The walk over the listing with the page that is being filled.
  unfoldable pub sweep_listing : List Listed → List Listed → State → State
  sweep_listing [] page st = collect_unreferenced page st
  sweep_listing (x ∷ listing) page (run, stats) = elim (is_artifact_ref x.0) [
    | false ↦
        sweep_listing listing page
          (run, record stats { foreign_objects = stats.foreign_objects + 1 })
    | true ↦ elim (is_young now x.1) [
      | true ↦
          sweep_listing listing page
            (run, record (scan x stats) { artifacts_protected = stats.artifacts_protected + 1 })
      | false ↦ elim (ltb (length (page ++ x ∷ [])) page_size) [
        | true ↦ sweep_listing listing (page ++ x ∷ []) (run, scan x stats)
        | false ↦
            sweep_listing listing [] (collect_unreferenced (page ++ x ∷ []) (run, scan x stats))
      ]
    ]
  ]

  unfoldable pub sweep_bucket : State → State
  sweep_bucket st = sweep_listing st.0.bucket [] st

  -- The artifacts whose owners are gone, as a prune collects them or as a dry run names them.
  unfoldable pub sweep_dangling : State → State × Bool
  sweep_dangling (run, stats) =
      let start = record run {
        stats = record no_stats { unknown_references = stats.unknown_references };
      } in
      let (out, through) = collect_pages faults (enough run.index) now [] start in
      let (refs, protected) =
        orphaned_refs (enough run.index) now run.index stats.unknown_references in
      let (count, freed) = measure_artifacts faults run.bucket refs in
      if plan
      then (
        (
          run,
          record stats {
            artifacts = stats.artifacts ++ refs;
            artifacts_deleted = stats.artifacts_deleted + count;
            bytes_freed = stats.bytes_freed + freed;
            artifacts_protected = stats.artifacts_protected + protected;
          },
        ),
        true,
      )
      else if through
      then (
        (
          out,
          record stats {
            artifacts_deleted = stats.artifacts_deleted + out.stats.artifacts_deleted;
            bytes_freed = stats.bytes_freed + out.stats.bytes_freed;
            artifacts_failed = stats.artifacts_failed + out.stats.artifacts_failed;
            artifacts_protected = stats.artifacts_protected + out.stats.artifacts_protected;
          },
        ),
        true,
      )
      else ((out, stats), false)

abbrev pub is_none_of {ℓ} : {A : Type ℓ} → List A → Bool
is_none_of [] = true
is_none_of (x ∷ xs) = false

-- `indexIsEmpty`
abbrev pub index_is_empty : Index → Bool
index_is_empty ix =
    is_none_of ix.results && is_none_of ix.baselines && is_none_of ix.refs && is_none_of ix.claims

-- The markers are those of the rebuilds that are in progress.
unfoldable pub sweep :
    Faults → Bool → List Text → Bool → ℕ → Bool → Index → Bucket → State × Option Failure
sweep faults reachable markers allow_empty now plan ix bucket =
    let run : Run = record { index = ix; bucket = bucket; stats = no_stats } in
    let stats : SweepStats = record no_sweep {
      unknown_references = results_with_unknown_refs ix;
    } in
    let (next, through) = sweep_dangling faults now plan (run, stats) in
    if not reachable
    then ((run, no_sweep), some unreachable)
    else if not (is_none_of markers)
    then ((run, record stats { rebuild_in_progress = length markers }), none)
    else if not allow_empty && index_is_empty ix
    then ((run, stats), some empty_index)
    else if through
    then (sweep_bucket faults now plan next, none)
    else (next, some cancelled)
