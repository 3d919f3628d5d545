-- ===== src/Store/Sweep/Keeps.antt =====
-- A sweep of the bucket deletes no object that it has a reason to keep.
use wsaw.Prelude.{
  ℕ, ◌+◌, ◌≡◌, refl, ap, ◌∙◌, Bool, true, false, not, ◌&&◌, ◌||◌, Bool-cases, inl, inr, List, [],
  ◌∷◌, ◌++◌, arith, ltb, any, All, All-append, length,
}
use wsaw.Prelude.Text.{Text, eqb, eqb_iff}
use wsaw.Prelude.Assoc.{lookup}
use wsaw.Store.Index.{page_size, referenced, claimed_since, grace_period, forget_artifact_size}
use wsaw.Store.Collect.{Faults, Run, collectable, delete_artifact}
use wsaw.Store.Collect.Keeps.{lookup-delete_other}
use wsaw.Store.Refs.{is_artifact_ref}
use wsaw.Store.Sweep.{
  State, Listed, SweepStats, sweep_one, collect_unreferenced, sweep_listing, sweep_bucket, is_young,
  swept, scan,
}

module _ (r : Text) where
  -- What bears on an object: it is there, and the rows and the claims that speak for it.
  record Same (a b : State) : Type 0 where
    object : lookup r b.0.bucket ≡ lookup r a.0.bucket
    refs : b.0.index.refs ≡ a.0.index.refs
    claims : b.0.index.claims ≡ a.0.index.claims
    unknown : b.1.unknown_references ≡ a.1.unknown_references

  Same-refl : (a : State) → Same a a
  Same-refl a = record { object = refl; refs = refl; claims = refl; unknown = refl }

  Same-trans : (a b c : State) → Same a b → Same b c → Same a c
  Same-trans a b c s t = record {
    object = t.object ∙ s.object;
    refs = t.refs ∙ s.refs;
    claims = t.claims ∙ s.claims;
    unknown = t.unknown ∙ s.unknown;
  }

  Same-start :
      (run : Run) (stats counted : SweepStats) (b : State)
      → counted.unknown_references ≡ stats.unknown_references
      → Same (run, counted) b
      → Same (run, stats) b
  Same-start run stats counted b e s = record {
    object = s.object;
    refs = s.refs;
    claims = s.claims;
    unknown = s.unknown ∙ e;
  }

module _ (faults : Faults) (now : ℕ) (plan : Bool) (r : Text) where
  -- A reference, a young claim, or unknown references and no document.
  abbrev pub spoken_for : State → Bool
  spoken_for (run, stats) =
      referenced run.index r
      || (claimed_since run.index now grace_period r
          || not (collectable r stats.unknown_references))

  spoken_for-Same : (a b : State) → Same r a b → spoken_for b ≡ spoken_for a
  unfolding referenced claimed_since
  spoken_for-Same a b same = cc (same.refs, same.claims, same.unknown)

  swept-Same :
      (x : Listed) (run : Run) (stats : SweepStats)
      → eqb x.0 r ≡ false
      → Same r (run, stats) (swept x stats (delete_artifact faults x.0 run))
  unfolding delete_artifact forget_artifact_size
  swept-Same x run stats h = elim (Bool-cases (faults.remove_fails x.0)) [
    | inl e ↦ rw e (record { object = refl; refs = refl; claims = refl; unknown = refl })
    | inr e ↦ rw e (record {
      object = lookup-delete_other x.0 r run.bucket h;
      refs = refl;
      claims = refl;
      unknown = refl;
    })
  ]

  -- An item about another object, or a reason to keep this one.
  abbrev spared : Bool → Listed → Bool
  spared b x = not (eqb x.0 r) || b

  sweep_one-Same :
      (x : Listed) (st : State)
      → spared (spoken_for st) x ≡ true
      → Same r st (sweep_one faults now plan x st)
  unfolding sweep_one
  sweep_one-Same x (run, stats) h = elim (Bool-cases (referenced run.index x.0)) [
    | inl e ↦ rw e (record { object = refl; refs = refl; claims = refl; unknown = refl })
    | inr e ↦
        elim (Bool-cases (
          claimed_since run.index now grace_period x.0
          || not (collectable x.0 stats.unknown_references))) [
            | inl f ↦
                rw (e, f) (record { object = refl; refs = refl; claims = refl; unknown = refl })
            | inr f ↦ elim (Bool-cases plan) [
              | inl g ↦
                  rw (e, f, g)
                    (record { object = refl; refs = refl; claims = refl; unknown = refl })
              | inr g ↦ rw (e, f, g) (swept-Same x run stats (other e f))
            ]
          ]
  ]
    where
      other :
          referenced run.index x.0 ≡ false
          → (claimed_since run.index now grace_period x.0
              || not (collectable x.0 stats.unknown_references))
            ≡ false
          → eqb x.0 r ≡ false
      other e f = elim (Bool-cases (eqb x.0 r)) [
        | inl g ↦ ground (
          arith,
          e,
          f,
          g,
          h,
          ap
              (λ (m : Text).
                referenced run.index m
                || (claimed_since run.index now grace_period m
                    || not (collectable m stats.unknown_references)))
              ((eqb_iff x.0 r).0 g),
        )
        | inr g ↦ g
      ]

  collect_unreferenced-Same :
      (b : Bool) (page : List Listed) (st : State)
      → spoken_for st ≡ b
      → All (λ x. spared b x ≡ true) page
      → Same r st (collect_unreferenced faults now plan page st)
  unfolding collect_unreferenced
  collect_unreferenced-Same b [] st e h = Same-refl r st
  collect_unreferenced-Same b (x ∷ page) st e h =
      let one = sweep_one-Same x st (rw e h.0) in
      let next = sweep_one faults now plan x st in
      Same-trans r st next _ one
        (collect_unreferenced-Same b page next (spoken_for-Same st next one ∙ e) h.1)

  -- An object that the walk may hand on to a page.
  abbrev passed : Bool → Listed → Bool
  passed b x = spared b x || (not (is_artifact_ref x.0) || is_young now x.1)

  sweep_listing-Same :
      (b : Bool) (listing page : List Listed) (run : Run) (stats : SweepStats)
      → spoken_for (run, stats) ≡ b
      → All (λ x. passed b x ≡ true) listing
      → All (λ x. spared b x ≡ true) page
      → Same r (run, stats) (sweep_listing faults now plan listing page (run, stats))
  unfolding sweep_listing
  sweep_listing-Same b [] page run stats e h k = collect_unreferenced-Same b page (run, stats) e k
  sweep_listing-Same b (x ∷ listing) page run stats e h k =
      let seen : SweepStats = scan x stats in
      let protected : SweepStats = record seen {
        artifacts_protected = stats.artifacts_protected + 1;
      } in
      let foreign : SweepStats = record stats { foreign_objects = stats.foreign_objects + 1 } in
      elim (Bool-cases (is_artifact_ref x.0)) [
        | inr f ↦
            rw (sweep_listing, f)
              (Same-start r run stats foreign _ refl
                (sweep_listing-Same b listing page run foreign e h.1 k))
        | inl f ↦ elim (Bool-cases (is_young now x.1)) [
          | inl g ↦
              rw (sweep_listing, f, g)
                (Same-start r run stats protected _ refl
                  (sweep_listing-Same b listing page run protected e h.1 k))
          | inr g ↦
              let filled : All (λ x. spared b x ≡ true) (page ++ x ∷ []) =
                All-append (λ x. spared b x ≡ true) page (x ∷ []) k
                  (ground (arith, h.0, f, g), tt) in
              elim (Bool-cases (ltb (length (page ++ x ∷ [])) page_size)) [
                | inl l ↦
                    rw (sweep_listing, f, g, l)
                      (Same-start r run stats seen _ refl
                        (sweep_listing-Same b listing (page ++ x ∷ []) run seen e h.1 filled))
                | inr l ↦
                    let flushed =
                      collect_unreferenced faults now plan (page ++ x ∷ []) (run, seen) in
                    let first = collect_unreferenced-Same b (page ++ x ∷ []) (run, seen) e filled in
                    rw (sweep_listing, f, g, l)
                      (Same-start r run stats seen _ refl (
                        Same-trans r (run, seen) flushed _ first
                          (sweep_listing-Same b listing [] flushed.0 flushed.1
                            (spoken_for-Same (run, seen) flushed first ∙ e) h.1 tt)))
              ]
        ]
      ]

  listing-passed :
      (b : Bool) (listing : List Listed)
      → (b || not (any (λ x. eqb x.0 r && (is_artifact_ref x.0 && not (is_young now x.1))) listing))
        ≡ true
      → All (λ x. passed b x ≡ true) listing
  unfolding any
  listing-passed b [] h = tt
  listing-passed b (x ∷ listing) h =
      (ground (arith, h), listing-passed b listing (ground (arith, h)))

  -- The walk of a sweep over the bucket leaves an object as it is if a row of the index names it,
  -- if a claim younger than the grace period is on it, if some references are unknown and it is
  -- not a document, or if the listing has it only under a key that this store does not write or
  -- as younger than the grace period; whatever requests fail.
  pub sweep_bucket-keeps :
      (run : Run) (stats : SweepStats)
      → (spoken_for (run, stats)
          || not
              (any (λ x. eqb x.0 r && (is_artifact_ref x.0 && not (is_young now x.1))) run.bucket))
        ≡ true
      → lookup r (sweep_bucket faults now plan (run, stats)).0.bucket ≡ lookup r run.bucket
  unfolding sweep_bucket
  sweep_bucket-keeps run stats h =
      (sweep_listing-Same (spoken_for (run, stats)) run.bucket [] run stats refl
        (listing-passed (spoken_for (run, stats)) run.bucket h) tt).object
