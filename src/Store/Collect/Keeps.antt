-- ===== src/Store/Collect/Keeps.antt =====
-- collectDangling deletes no artifact that it has a reason to keep, and every other one.
use wsaw.Prelude.{
  ℕ, ◌<◌, ◌≡◌, refl, sym, ap, ◌∙◌, Bool, true, false, not, ◌||◌, Bool-cases, inl, inr, List, [],
  ◌∷◌, map, arith, All, Option, some, none, length, Option-cases, subst,
}
use wsaw.Prelude.Text.{Text, eqb, eqb_iff}
use wsaw.Prelude.Assoc.{lookup, delete}
use wsaw.Store.Index.{
  DanglingRef, dangling_ref, dangling, claimed_since, still_named, forget_ref, grace_period,
}
use wsaw.Store.Collect.{
  Faults, Run, Bucket, collect_one, collect_page, collect_pages, remove_artifact, delete_artifact,
  settle, collectable,
}
use wsaw.Store.Collect.Pages.{snapshot, collect_pages-snapshot}

pub lookup-delete_other :
    (k j : Text) (bucket : Bucket) → eqb k j ≡ false → lookup j (delete k bucket) ≡ lookup j bucket
unfolding lookup delete
lookup-delete_other k j [] h = refl
lookup-delete_other k j ((i, v) ∷ bucket) h = elim (Bool-cases (eqb i k)) [
  | inl e ↦
      let same : i ≡ k = (eqb_iff i k).0 e in ground (arith, e, h, ap (λ (m : Text). eqb m j) same)
  | inr e ↦ ground (arith, e, lookup-delete_other k j bucket h)
]

-- Nothing of a run that bears on an artifact is touched.
pub record Untouched (r : Text) (run next : Run) : Type 0 where
  pub object : lookup r next.bucket ≡ lookup r run.bucket
  pub unknown : next.stats.unknown_references ≡ run.stats.unknown_references

module _ (faults : Faults) (r : Text) where
  Untouched-refl : (run : Run) → Untouched r run run
  Untouched-refl run = record { object = refl; unknown = refl }

  Untouched-trans : (a b c : Run) → Untouched r a b → Untouched r b c → Untouched r a c
  Untouched-trans a b c s t = record {
    object = t.object ∙ s.object;
    unknown = t.unknown ∙ s.unknown;
  }

  delete_artifact-Untouched :
      (k : Text) (run : Run) → eqb k r ≡ false → Untouched r run (delete_artifact faults k run).0
  unfolding delete_artifact
  delete_artifact-Untouched k run h = elim (Bool-cases (faults.remove_fails k)) [
    | inl e ↦ rw e (Untouched-refl run)
    | inr e ↦ rw e (record { object = lookup-delete_other k r run.bucket h; unknown = refl })
  ]

  remove_artifact-Untouched :
      (k : Text) (run : Run) → eqb k r ≡ false → Untouched r run (remove_artifact faults k run).0
  unfolding remove_artifact
  remove_artifact-Untouched k run h = elim (Bool-cases (faults.stat_fails k)) [
    | inl e ↦ rw e (Untouched-refl run)
    | inr e ↦ elim (Option-cases (lookup k run.bucket)) [
      | inl f ↦ rw (e, f) (record { object = refl; unknown = refl })
      | inr (obj, f) ↦ elim (Bool-cases (delete_artifact faults k run).1) [
        | inl g ↦ rw (e, f, g) (delete_artifact-Untouched k run h)
        | inr g ↦ rw (e, f, g) (delete_artifact-Untouched k run h)
      ]
    ]
  ]

  settle-Untouched :
      (k : Text) (run next : Run) (size : Option ℕ)
      → Untouched r run next
      → Untouched r run (settle k (next, size))
  settle-Untouched k run next none u = record { object = u.object; unknown = u.unknown }
  settle-Untouched k run next (some size) u =
      unfold forget_ref in record { object = u.object; unknown = u.unknown }

  -- An item about another artifact, or one that is a reason to keep this one.
  abbrev pub spares : (Text → Bool) → ℕ → DanglingRef → Bool
  spares claimed unknown d =
      not (eqb d.ref r) || (d.named || (claimed d.ref || not (collectable d.ref unknown)))

  collect_one-Untouched :
      (claimed : Text → Bool) (d : DanglingRef) (run : Run)
      → spares claimed run.stats.unknown_references d ≡ true
      → Untouched r run (collect_one faults claimed d run)
  unfolding collect_one forget_ref
  collect_one-Untouched claimed d run h = elim (Bool-cases d.named) [
    | inl e ↦ rw e (record { object = refl; unknown = refl })
    | inr e ↦
        elim (Bool-cases (claimed d.ref || not (collectable d.ref run.stats.unknown_references))) [
          | inl f ↦ rw (e, f) (record { object = refl; unknown = refl })
          | inr f ↦
              rw (e, f)
                (settle-Untouched d.ref run (remove_artifact faults d.ref run).0
                  (remove_artifact faults d.ref run).1
                  (remove_artifact-Untouched d.ref run (ground (arith, h, e, f))))
        ]
  ]

  collect_page-Untouched :
      (claimed : Text → Bool) (unknown : ℕ) (ds : List DanglingRef) (run : Run)
      → run.stats.unknown_references ≡ unknown
      → All (λ d. spares claimed unknown d ≡ true) ds
      → Untouched r run (collect_page faults claimed ds run).0
  unfolding collect_page
  collect_page-Untouched claimed unknown [] run u h = Untouched-refl run
  collect_page-Untouched claimed unknown (d ∷ ds) run u h =
      elim (Bool-cases (faults.cancelled d.ref)) [
        | inl e ↦ rw (collect_page, e) (Untouched-refl run)
        | inr e ↦
            let one = collect_one-Untouched claimed d run (rw u h.0) in
            rw (collect_page, e)
              (Untouched-trans run (collect_one faults claimed d run) _ one (
                collect_page-Untouched claimed unknown ds (collect_one faults claimed d run)
                  (one.unknown ∙ u) h.1))
      ]

  -- A reason to keep an artifact.
  abbrev pub has_reason : ℕ → Run → Bool
  has_reason now run =
      still_named run.index r
      || (claimed_since run.index now grace_period r
          || not (collectable r run.stats.unknown_references))

  snapshot-spares :
      (now : ℕ) (run : Run) (ts : List Text)
      → has_reason now run ≡ true
      → All
          (λ d.
            spares (claimed_since run.index now grace_period) run.stats.unknown_references d ≡ true)
          (map (dangling_ref run.index) ts)
  snapshot-spares now run [] h = tt
  snapshot-spares now run (t ∷ ts) h = (one, snapshot-spares now run ts h)
    where
      one :
          spares
            (claimed_since run.index now grace_period)
            run.stats.unknown_references
            (dangling_ref run.index t)
          ≡ true
      one = elim (Bool-cases (eqb t r)) [
        | inl e ↦ ground (
          arith,
          e,
          subst
              (λ (m : Text).
                (still_named run.index m
                  || (claimed_since run.index now grace_period m
                      || not (collectable m run.stats.unknown_references)))
                ≡ true)
              (sym ((eqb_iff t r).0 e)) h,
        )
        | inr e ↦ ground (arith, e)
      ]

  -- With fuel for every dangling reference, collectDangling leaves the object of an artifact as it
  -- is if a result or a baseline that is still there names it, if a claim younger than the grace
  -- period is on it, or if some references are unknown and it is not a document; whatever requests
  -- fail and whenever the context ends.
  pub collect_pages-keeps :
      (fuel now : ℕ) (run : Run)
      → length (dangling run.index []) < fuel
      → has_reason now run ≡ true
      → lookup r (collect_pages faults fuel now [] run).0.bucket ≡ lookup r run.bucket
  collect_pages-keeps fuel now run f h =
      rw (collect_pages-snapshot faults fuel now [] run f)
        (collect_page-Untouched (claimed_since run.index now grace_period)
          run.stats.unknown_references (snapshot faults run.index []) run refl
          (snapshot-spares now run (dangling run.index []) h)).object
