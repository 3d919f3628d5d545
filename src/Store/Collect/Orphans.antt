-- ===== src/Store/Collect/Orphans.antt =====
-- orphanedRefs names exactly the artifacts that collectDangling deletes.
use wsaw.Prelude.{
  ℕ, zero, suc, ◌<◌, ◌≡◌, refl, sym, ap, ◌∙◌, Bool, not, ◌&&◌, ◌||◌, inl, inr, List, [], ◌∷◌, ◌++◌,
  map, arith, if◌then◌else◌, any, none, length, take, drop, take-drop,
}
use wsaw.Prelude.Text.{Text, eqb}
use wsaw.Prelude.Assoc.{lookup, Unique}
use wsaw.Store.Index.{
  Index, DanglingRef, dangling_ref, dangling, dangling_refs, claimed_since, grace_period,
}
use wsaw.Store.Index.Above.{SameAbove-refl}
use wsaw.Store.Index.Rising.{last_of}
use wsaw.Store.Collect.{Run, note, note_page, orphan_pages, orphaned_refs, collect_pages}
use wsaw.Store.Collect.Pages.{
  snapshot, List-cases, rest_of_snapshot, page_taken, last_ref-map, snapshot-append, left_over,
}
use wsaw.Store.Collect.Keeps.{has_reason}
use wsaw.Store.Collect.Removes.{
  no_faults, removable, has_lost, any-snapshot, any-dangling, collect_pages-removes,
}

note_page-append :
    (claimed : Text → Bool) (unknown : ℕ) (ds es : List DanglingRef) (out : List Text × ℕ)
    → note_page claimed unknown (ds ++ es) out
      ≡ note_page claimed unknown es (note_page claimed unknown ds out)
unfolding note_page
note_page-append claimed unknown [] es out = refl
note_page-append claimed unknown (d ∷ ds) es out =
    note_page-append claimed unknown ds es (note claimed unknown d out)

orphans_done :
    (fuel now : ℕ) (ix : Index) (unknown : ℕ) (after : Text) (out : List Text × ℕ)
    → dangling ix after ≡ []
    → orphan_pages (suc fuel) now ix unknown after out ≡ out
unfolding orphan_pages dangling_refs
orphans_done fuel now ix unknown after out e = ground (arith, e)

orphans_next :
    (fuel now : ℕ) (ix : Index) (unknown : ℕ) (after t : Text) (us : List Text)
    (out : List Text × ℕ)
    → dangling_refs ix after ≡ map (dangling_ref ix) (t ∷ us)
    → orphan_pages (suc fuel) now ix unknown after out
      ≡ orphan_pages fuel now ix unknown (last_of t us) (
          note_page
            (claimed_since ix now grace_period)
            unknown
            (map (dangling_ref ix) (t ∷ us))
            out)
unfolding orphan_pages
orphans_next fuel now ix unknown after t us out d =
    ground (arith, d, last_ref-map no_faults ix after t us)

orphan_pages-snapshot :
    (fuel now : ℕ) (ix : Index) (unknown : ℕ) (after : Text) (out : List Text × ℕ)
    → length (dangling ix after) < fuel
    → orphan_pages fuel now ix unknown after out
      ≡ note_page (claimed_since ix now grace_period) unknown (snapshot no_faults ix after) out
orphan_pages-snapshot zero now ix unknown after out h = absurd (omega arith)
orphan_pages-snapshot (suc fuel) now ix unknown after out h =
    elim (List-cases (dangling ix after)) [
      | inl e ↦
          orphans_done fuel now ix unknown after out e
          ∙ sym (
              unfold note_page in
              ap
                (λ ts.
                  note_page (claimed_since ix now grace_period) unknown (map (dangling_ref ix) ts)
                    out)
                e)
      | inr (t, us, e) ↦
          let claimed = claimed_since ix now grace_period in
          let P = take 255 us in
          let Q = drop 255 us in
          let whole : dangling ix after ≡ t ∷ P ++ Q =
            e ∙ ap (λ vs. t ∷ vs) (sym (take-drop 255 us)) in
          let (rest, snap) =
            rest_of_snapshot no_faults ix ix after t P Q whole (SameAbove-refl (last_of t P) ix) in
          let noted = note_page claimed unknown (map (dangling_ref ix) (t ∷ P)) out in
          orphans_next fuel now ix unknown after t P out (page_taken no_faults ix after t us e)
          ∙ orphan_pages-snapshot fuel now ix unknown (last_of t P) noted
              (left_over no_faults ix ix after (last_of t P) t P Q fuel whole rest h)
          ∙ ap (λ ds. note_page claimed unknown ds noted) snap
          ∙ sym (
              ap (λ ds. note_page claimed unknown ds out)
                (snapshot-append no_faults ix after t P Q whole)
              ∙ note_page-append claimed unknown (map (dangling_ref ix) (t ∷ P))
                  (map (dangling_ref ix) Q) out)
    ]

any-append : (p : Text → Bool) (xs ys : List Text) → any p (xs ++ ys) ≡ (any p xs || any p ys)
unfolding any
any-append p [] ys = refl
any-append p (x ∷ xs) ys = ground (arith, any-append p xs ys)

-- An artifact is among the ones that would go.
any-note_page :
    (claimed : Text → Bool) (unknown : ℕ) (r : Text) (ds : List DanglingRef) (out : List Text × ℕ)
    → any (λ t. eqb t r) (note_page claimed unknown ds out).0
      ≡ (any (λ t. eqb t r) out.0 || any (λ d. eqb d.ref r && removable claimed unknown d) ds)
unfolding note_page any
any-note_page claimed unknown r [] out = ground arith
any-note_page claimed unknown r (d ∷ ds) out = ground (
  arith,
  any-note_page claimed unknown r ds (note claimed unknown d out),
  any-append (λ t. eqb t r) out.0 (d.ref ∷ []),
)

orphaned_refs-lost :
    (fuel now : ℕ) (run : Run) (r : Text)
    → length (dangling run.index []) < fuel
    → any (λ t. eqb t r) (orphaned_refs fuel now run.index run.stats.unknown_references).0
      ≡ (has_lost run.index r && not (has_reason no_faults r now run))
unfolding orphaned_refs any
orphaned_refs-lost fuel now run r f =
    let claimed = claimed_since run.index now grace_period in
    let unknown = run.stats.unknown_references in
    ap (λ (out : List Text × ℕ). any (λ t. eqb t r) out.0)
      (orphan_pages-snapshot fuel now run.index unknown [] ([], 0) f)
    ∙ any-note_page claimed unknown r (snapshot no_faults run.index []) ([], 0)
    ∙ any-snapshot now run r (dangling run.index [])
    ∙ ap (λ b. b && not (has_reason no_faults r now run)) (any-dangling run.index r)

-- Where no request fails and the context does not end, and with fuel for every dangling reference,
-- the objects that collectDangling deletes of a bucket whose keys are unique are exactly those
-- that orphanedRefs names for a dry run of the same index.
pub orphaned_refs-collect_pages :
    (fuel now : ℕ) (run : Run) (r : Text)
    → length (dangling run.index []) < fuel
    → Unique run.bucket
    → lookup r (collect_pages no_faults fuel now [] run).0.bucket ≡ (
        if any (λ t. eqb t r) (orphaned_refs fuel now run.index run.stats.unknown_references).0
        then none
        else lookup r run.bucket)
orphaned_refs-collect_pages fuel now run r f u =
    (collect_pages-removes fuel now run r f u).1
    ∙ ap (λ (b : Bool). if b then none else lookup r run.bucket)
        (sym (orphaned_refs-lost fuel now run r f))
