-- ===== src/Store/Collect.antt =====
-- internal/store/retention.go, from collectDangling to collectable: what becomes of the artifacts
-- whose owners are gone.
pub mod Pages
pub mod Keeps
pub mod Removes
pub mod Orphans
use wsaw.Prelude.{
  ℕ, zero, suc, ◌+◌, ◌≡◌, Bool, true, false, not, ◌&&◌, ◌||◌, Option, none, some, List, [], ◌∷◌,
  ◌++◌, map, ltb, leb, ◌==◌, if◌then◌else◌,
}
use wsaw.Prelude.Text.{Text, bytes, has_prefix}
use wsaw.Prelude.Assoc.{lookup, delete}
use wsaw.Store.Index.{
  Index, DanglingRef, dangling_refs, claimed_since, forget_ref, forget_artifact_size, grace_period,
}

-- An object of the bucket: how large it is and when it was written.
pub record Object : Type 0 where
  pub size : ℕ
  pub mod_time : ℕ

abbrev pub Bucket : Type 0
Bucket = List (Text × Object)

-- What the bucket and the context answer: the requests about a key that fail for another reason
-- than that the key is not there, and whether the context has ended when a reference is met.
pub record Faults : Type 0 where
  pub stat_fails : Text → Bool
  pub remove_fails : Text → Bool
  pub cancelled : Text → Bool

pub record PruneStats : Type 0 where
  pub results_deleted : ℕ
  pub results_kept : ℕ
  pub series_pruned : ℕ
  pub oldest_kept : Option ℕ
  pub artifacts_deleted : ℕ
  pub bytes_freed : ℕ
  pub artifacts_failed : ℕ
  pub artifacts_protected : ℕ
  pub unknown_references : ℕ

abbrev pub no_stats : PruneStats
no_stats = record {
  results_deleted = 0;
  results_kept = 0;
  series_pruned = 0;
  oldest_kept = none;
  artifacts_deleted = 0;
  bytes_freed = 0;
  artifacts_failed = 0;
  artifacts_protected = 0;
  unknown_references = 0;
}

-- The index, the bucket and the statistics that a run of retention carries along.
pub record Run : Type 0 where
  pub index : Index
  pub bucket : Bucket
  pub stats : PruneStats

-- `artifactKindResult + refSeparator`
abbrev pub document_prefix : Text
document_prefix = bytes "result/"

-- Only a document can be declared unreferenced while some references are unknown.
unfoldable pub collectable : Text → ℕ → Bool
collectable ref unknown = unknown == 0 || has_prefix ref document_prefix

-- The size of an object, or none for a request that failed: an object that is gone counts as
-- removed with nothing freed.
unfoldable pub delete_artifact : Faults → Text → Run → Run × Bool
delete_artifact faults ref run = if faults.remove_fails ref then (run, false) else (
  record run { index = forget_artifact_size ref run.index; bucket = delete ref run.bucket },
  true,
)

unfoldable pub remove_artifact : Faults → Text → Run → Run × Option ℕ
remove_artifact faults ref run =
    if faults.stat_fails ref then (run, none) else elim (lookup ref run.bucket) [
      | none ↦ (record run { index = forget_artifact_size ref run.index }, some 0)
      | some obj ↦
          let (after, deleted) = delete_artifact faults ref run in
          if deleted then (after, some obj.size) else (after, none)
    ]

abbrev pub protect : Run → Run
protect run = record run {
  stats = record run.stats { artifacts_protected = run.stats.artifacts_protected + 1 };
}

abbrev pub fail : Run → Run
fail run = record run {
  stats = record run.stats { artifacts_failed = run.stats.artifacts_failed + 1 };
}

abbrev pub count_deleted : ℕ → Run → Run
count_deleted size run = record run {
  stats = record run.stats {
    artifacts_deleted = run.stats.artifacts_deleted + 1;
    bytes_freed = run.stats.bytes_freed + size;
  };
}

abbrev pub forget : Text → Run → Run
forget ref run = record run { index = forget_ref ref run.index }

abbrev pub settle : Text → Run × Option ℕ → Run
settle ref (run, none) = fail run
settle ref (run, some size) = forget ref (count_deleted size run)

-- The reference of the last item, which the next page starts after.
unfoldable pub last_ref : Text → List DanglingRef → Text
last_ref after [] = after
last_ref after (d ∷ ds) = last_ref d.ref ds

module _ (faults : Faults) where
  unfoldable pub collect_one : (Text → Bool) → DanglingRef → Run → Run
  collect_one claimed d run =
      if d.named
      then forget d.ref run
      else if claimed d.ref || not (collectable d.ref run.stats.unknown_references)
      then protect run
      else settle d.ref (remove_artifact faults d.ref run)

  -- The items of one page, until the context ends.
  unfoldable pub collect_page : (Text → Bool) → List DanglingRef → Run → Run × Bool
  collect_page claimed [] run = (run, true)
  collect_page claimed (d ∷ ds) run = elim (faults.cancelled d.ref) [
    | true ↦ (run, false)
    | false ↦ collect_page claimed ds (collect_one claimed d run)
  ]

  -- The loop over the pages. The Boolean is whether the walk came to its end.
  unfoldable pub collect_pages : ℕ → ℕ → Text → Run → Run × Bool
  collect_pages zero now after run = (run, false)
  collect_pages (suc fuel) now after run = elim (dangling_refs run.index after) [
    | [] ↦ (run, true)
    | d ∷ ds ↦
        let claimed = claimed_since run.index now grace_period in
        let (next, through) = collect_page claimed (d ∷ ds) run in
        elim through [
          | true ↦ collect_pages fuel now (last_ref after (d ∷ ds)) next
          | false ↦ (next, false)
        ]
  ]

-- What a walk that deletes nothing says of one item: that the artifact stays because it is named,
-- that it is protected, or that it would go.
abbrev pub note : (Text → Bool) → ℕ → DanglingRef → List Text × ℕ → List Text × ℕ
note claimed unknown d (refs, protected) =
    if d.named
    then (refs, protected)
    else if claimed d.ref || not (collectable d.ref unknown)
    then (refs, protected + 1)
    else (refs ++ d.ref ∷ [], protected)

unfoldable pub note_page : (Text → Bool) → ℕ → List DanglingRef → List Text × ℕ → List Text × ℕ
note_page claimed unknown [] out = out
note_page claimed unknown (d ∷ ds) out = note_page claimed unknown ds (note claimed unknown d out)

-- `orphanedRefs`
unfoldable pub orphan_pages : ℕ → ℕ → Index → ℕ → Text → List Text × ℕ → List Text × ℕ
orphan_pages zero now ix unknown after out = out
orphan_pages (suc fuel) now ix unknown after out = elim (dangling_refs ix after) [
  | [] ↦ out
  | d ∷ ds ↦
      orphan_pages fuel now ix unknown (last_ref after (d ∷ ds))
        (note_page (claimed_since ix now grace_period) unknown (d ∷ ds) out)
]

-- The references and the count of the protected ones.
unfoldable pub orphaned_refs : ℕ → ℕ → Index → ℕ → List Text × ℕ
orphaned_refs fuel now ix unknown = orphan_pages fuel now ix unknown [] ([], 0)

-- `measureArtifacts`, where the context does not end: every reference is counted, and one that
-- cannot be measured adds nothing to the bytes.
unfoldable pub measure_artifacts : Faults → Bucket → List Text → ℕ × ℕ
measure_artifacts faults bucket [] = (0, 0)
measure_artifacts faults bucket (ref ∷ refs) =
    let (count, total) = measure_artifacts faults bucket refs in
    if faults.stat_fails ref then (count + 1, total) else elim (lookup ref bucket) [
      | none ↦ (count + 1, total)
      | some obj ↦ (count + 1, obj.size + total)
    ]
