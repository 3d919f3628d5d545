-- ===== src/Store/Collect/Pages.antt =====
-- collectDangling walks a list that it shortens: the pages together are one walk over the
-- references that dangled at the start.
use wsaw.Prelude.{
  ℕ, zero, suc, ◌<◌, ◌≡◌, refl, sym, ap, ◌∙◌, Bool, true, false, not, ◌||◌, Bool-cases, ◌⊎◌, inl,
  inr, List, [], ◌∷◌, ◌++◌, map, arith, if◌then◌else◌, keep_if, All, Option, some, none, length,
  take, drop, Option-cases, length-append, subst, All-left, take-drop,
}
use mathlib.Core.Path.{fun_ext}
use wsaw.Prelude.Text.{Text, less}
use wsaw.Prelude.Assoc.{lookup}
use wsaw.Store.Index.{
  Index, DanglingRef, dangling_ref, dangling, dangling_refs, claimed_since, forget_artifact_size,
  grace_period,
}
use wsaw.Store.Index.Rising.{
  IsRising, last_of, last_of-greatest, last_of-past, last_of-All, keep_if-rest,
}
use wsaw.Store.Index.Above.{
  SameAbove, SameAbove-refl, SameAbove-trans, forget_ref-SameAbove, dangling-SameAbove,
  still_named-SameAbove, claimed_since-SameAbove, keep_if-dangling_later, dangling-past,
  dangling-IsRising,
}
use wsaw.Store.Collect.{
  Faults, Run, collect_one, collect_page, collect_pages, last_ref, remove_artifact, delete_artifact,
  settle, collectable,
}

pub List-cases {ℓ} :
    {A : Type ℓ} (xs : List A) → (xs ≡ []) ⊎ ((x : A) × (ys : List A) × (xs ≡ x ∷ ys))
List-cases [] = inl refl
List-cases (x ∷ xs) = inr (x, xs, refl)

module _ (faults : Faults) where
  delete_artifact-SameAbove :
      (a ref : Text) (run : Run) → SameAbove a run.index (delete_artifact faults ref run).0.index
  unfolding delete_artifact forget_artifact_size
  delete_artifact-SameAbove a ref run = elim (Bool-cases (faults.remove_fails ref)) [
    | inl e ↦ rw e (SameAbove-refl a run.index)
    | inr e ↦ rw e (record { results = refl; baselines = refl; claims = refl; rows = refl })
  ]

  settle-SameAbove :
      (a ref : Text) (run next : Run) (size : Option ℕ)
      → less a ref ≡ false
      → SameAbove a run.index next.index
      → SameAbove a run.index (settle ref (next, size)).index
  settle-SameAbove a ref run next none h s = s
  settle-SameAbove a ref run next (some size) h s =
      SameAbove-trans a run.index next.index _ s (forget_ref-SameAbove a ref next.index h)

  remove_artifact-SameAbove :
      (a ref : Text) (run : Run) → SameAbove a run.index (remove_artifact faults ref run).0.index
  unfolding remove_artifact forget_artifact_size
  remove_artifact-SameAbove a ref run = elim (Bool-cases (faults.stat_fails ref)) [
    | inl e ↦ rw e (SameAbove-refl a run.index)
    | inr e ↦ elim (Option-cases (lookup ref run.bucket)) [
      | inl f ↦ rw (e, f) (record { results = refl; baselines = refl; claims = refl; rows = refl })
      | inr (obj, f) ↦ elim (Bool-cases (delete_artifact faults ref run).1) [
        | inl g ↦ rw (e, f, g) (delete_artifact-SameAbove a ref run)
        | inr g ↦ rw (e, f, g) (delete_artifact-SameAbove a ref run)
      ]
    ]
  ]

  collect_one-SameAbove :
      (a : Text) (claimed : Text → Bool) (d : DanglingRef) (run : Run)
      → less a d.ref ≡ false
      → SameAbove a run.index (collect_one faults claimed d run).index
  unfolding collect_one
  collect_one-SameAbove a claimed d run h = elim (Bool-cases d.named) [
    | inl e ↦ rw e (forget_ref-SameAbove a d.ref run.index h)
    | inr e ↦
        elim (Bool-cases (claimed d.ref || not (collectable d.ref run.stats.unknown_references))) [
          | inl f ↦ rw (e, f) (SameAbove-refl a run.index)
          | inr f ↦
              rw (e, f)
                (settle-SameAbove a d.ref run (remove_artifact faults d.ref run).0
                  (remove_artifact faults d.ref run).1 h (remove_artifact-SameAbove a d.ref run))
        ]
  ]

  collect_page-SameAbove :
      (a : Text) (claimed : Text → Bool) (ds : List DanglingRef) (run : Run)
      → All (λ d. less a d.ref ≡ false) ds
      → SameAbove a run.index (collect_page faults claimed ds run).0.index
  unfolding collect_page
  collect_page-SameAbove a claimed [] run h = SameAbove-refl a run.index
  collect_page-SameAbove a claimed (d ∷ ds) run h = elim (Bool-cases (faults.cancelled d.ref)) [
    | inl e ↦ rw (collect_page, e) (SameAbove-refl a run.index)
    | inr e ↦
        rw (collect_page, e)
          (SameAbove-trans a run.index (collect_one faults claimed d run).index _
            (collect_one-SameAbove a claimed d run h.0)
            (collect_page-SameAbove a claimed ds (collect_one faults claimed d run) h.1))
  ]

  -- A walk over two lists in turn.
  abbrev pub go_on : (Text → Bool) → List DanglingRef → Run × Bool → Run × Bool
  go_on claimed ds (run, true) = collect_page faults claimed ds run
  go_on claimed ds (run, false) = (run, false)

  collect_page-append :
      (claimed : Text → Bool) (ds es : List DanglingRef) (run : Run)
      → collect_page faults claimed (ds ++ es) run
        ≡ go_on claimed es (collect_page faults claimed ds run)
  unfolding collect_page
  collect_page-append claimed [] es run = refl
  collect_page-append claimed (d ∷ ds) es run =
      ground (arith, collect_page-append claimed ds es (collect_one faults claimed d run))

  -- The snapshot of the references that dangle past a text.
  abbrev pub snapshot : Index → Text → List DanglingRef
  snapshot ix after = map (dangling_ref ix) (dangling ix after)

  map-dangling_ref :
      (a : Text) (ix jx : Index) (ts : List Text)
      → SameAbove a ix jx
      → All (λ t. less a t ≡ true) ts
      → map (dangling_ref jx) ts ≡ map (dangling_ref ix) ts
  map-dangling_ref a ix jx [] s h = refl
  map-dangling_ref a ix jx (t ∷ ts) s h =
      ground (arith, still_named-SameAbove a t ix jx s h.0, map-dangling_ref a ix jx ts s h.1)

  pub last_ref-map :
      (ix : Index) (after t : Text) (us : List Text)
      → last_ref after (map (dangling_ref ix) (t ∷ us)) ≡ last_of t us
  unfolding last_ref last_of
  last_ref-map ix after t [] = refl
  last_ref-map ix after t (u ∷ us) = last_ref-map ix t u us

  dangling_refs-split :
      (ix : Index) (after t : Text) (us : List Text)
      → dangling ix after ≡ t ∷ us
      → dangling_refs ix after ≡ dangling_ref ix t ∷ map (dangling_ref ix) (take 255 us)
  unfolding dangling_refs
  dangling_refs-split ix after t us e = rw e refl

  -- What a page leaves of the snapshot.
  pub rest_of_snapshot :
      (ix jx : Index) (after t : Text) (us vs : List Text)
      → dangling ix after ≡ t ∷ us ++ vs
      → SameAbove (last_of t us) ix jx
      → (dangling jx (last_of t us) ≡ vs) × (snapshot jx (last_of t us) ≡ map (dangling_ref ix) vs)
  rest_of_snapshot ix jx after t us vs e s =
      let l = last_of t us in
      let past = subst (All (λ v. less after v ≡ true)) e (dangling-past after ix) in
      let rising : IsRising (t ∷ us ++ vs) = subst IsRising e (dangling-IsRising after ix) in
      let before : less after l ≡ true =
        last_of-All (λ v. less after v ≡ true) t us past.0 (All-left _ us vs past.1) in
      let rest : dangling jx l ≡ vs =
        dangling-SameAbove l ix jx s
        ∙ sym (keep_if-dangling_later after l ix before)
        ∙ ap (keep_if (less l)) e
        ∙ keep_if-rest t us vs rising in
      (
        rest,
        ap (map (dangling_ref jx)) rest
            ∙ map-dangling_ref l ix jx vs s (last_of-past t us vs rising),
      )

  All-refs :
      (P : Text → Type 0) (ix : Index) (ts : List Text)
      → All P ts
      → All (λ d. P d.ref) (map (dangling_ref ix) ts)
  All-refs P ix [] h = tt
  All-refs P ix (t ∷ ts) h = (h.0, All-refs P ix ts h.1)

  page-SameAbove :
      (claimed : Text → Bool) (run : Run) (after t : Text) (us vs : List Text)
      → dangling run.index after ≡ t ∷ us ++ vs
      → SameAbove
          (last_of t us)
          run.index
          (collect_page faults claimed (map (dangling_ref run.index) (t ∷ us)) run).0.index
  page-SameAbove claimed run after t us vs e =
      let rising : IsRising (t ∷ us ++ vs) = subst IsRising e (dangling-IsRising after run.index) in
      collect_page-SameAbove (last_of t us) claimed (map (dangling_ref run.index) (t ∷ us)) run (
        All-refs (λ v. less (last_of t us) v ≡ false) run.index (t ∷ us)
          (last_of-greatest t us vs rising))

  next_page :
      (fuel now : ℕ) (run : Run) (after t : Text) (us vs : List Text)
      → dangling run.index after ≡ t ∷ us ++ vs
      → dangling_refs run.index after ≡ map (dangling_ref run.index) (t ∷ us)
      → let page =
          collect_page faults
            (claimed_since run.index now grace_period)
            (map (dangling_ref run.index) (t ∷ us))
            run in
        collect_pages faults (suc fuel) now after run
        ≡ (if page.1 then collect_pages faults fuel now (last_of t us) page.0 else (page.0, false))
  unfolding collect_pages
  next_page fuel now run after t us vs e d = ground (arith, d, last_ref-map run.index after t us)

  pub page_taken :
      (ix : Index) (after t : Text) (us : List Text)
      → dangling ix after ≡ t ∷ us
      → dangling_refs ix after ≡ map (dangling_ref ix) (t ∷ take 255 us)
  unfolding dangling_refs
  page_taken ix after t us e = rw e refl

  map-append : {A B : Type 0} (f : A → B) (xs ys : List A) → map f (xs ++ ys) ≡ map f xs ++ map f ys
  map-append f [] ys = refl
  map-append f (x ∷ xs) ys = ap (λ zs. f x ∷ zs) (map-append f xs ys)

  no_page :
      (fuel now : ℕ) (after : Text) (run : Run)
      → dangling run.index after ≡ []
      → collect_pages faults (suc fuel) now after run
        ≡ collect_page faults
            (claimed_since run.index now grace_period)
            (snapshot run.index after)
            run
  unfolding collect_pages dangling_refs collect_page
  no_page fuel now after run e = ground (arith, e)

  go_on-pages :
      (fuel now : ℕ) (l : Text) (claimed : Text → Bool) (es : List DanglingRef) (p : Run × Bool)
      → collect_pages faults fuel now l p.0 ≡ collect_page faults claimed es p.0
      → (if p.1 then collect_pages faults fuel now l p.0 else (p.0, false)) ≡ go_on claimed es p
  go_on-pages fuel now l claimed es (run, true) h = h
  go_on-pages fuel now l claimed es (run, false) h = refl

  pub snapshot-append :
      (ix : Index) (after t : Text) (us vs : List Text)
      → dangling ix after ≡ t ∷ us ++ vs
      → snapshot ix after ≡ map (dangling_ref ix) (t ∷ us) ++ map (dangling_ref ix) vs
  snapshot-append ix after t us vs e =
      ap (map (dangling_ref ix)) e ∙ map-append (dangling_ref ix) (t ∷ us) vs

  same_walk :
      (now : ℕ) (l : Text) (run next : Run) (es : List DanglingRef)
      → SameAbove l run.index next.index
      → snapshot next.index l ≡ es
      → collect_page faults (claimed_since next.index now grace_period) (snapshot next.index l) next
        ≡ collect_page faults (claimed_since run.index now grace_period) es next
  same_walk now l run next es s e =
      ap (λ (claimed : Text → Bool). collect_page faults claimed (snapshot next.index l) next)
        (fun_ext λ ref. claimed_since-SameAbove l run.index next.index now grace_period ref s)
      ∙ ap (λ ds. collect_page faults (claimed_since run.index now grace_period) ds next) e

  pub left_over :
      (ix jx : Index) (after l t : Text) (us vs : List Text) (fuel : ℕ)
      → dangling ix after ≡ t ∷ us ++ vs
      → dangling jx l ≡ vs
      → length (dangling ix after) < suc fuel
      → length (dangling jx l) < fuel
  left_over ix jx after l t us vs fuel e r h =
      ground (arith, ap length e, ap length r, length-append us vs)

  -- With fuel for every reference that dangles past a text at the start, the loop over the pages
  -- does exactly what one walk over the snapshot of these references does.
  pub collect_pages-snapshot :
      (fuel now : ℕ) (after : Text) (run : Run)
      → length (dangling run.index after) < fuel
      → collect_pages faults fuel now after run
        ≡ collect_page faults
            (claimed_since run.index now grace_period)
            (snapshot run.index after)
            run
  collect_pages-snapshot zero now after run h = absurd (omega arith)
  collect_pages-snapshot (suc fuel) now after run h = elim (List-cases (dangling run.index after)) [
    | inl e ↦ no_page fuel now after run e
    | inr (t, us, e) ↦
        let claimed = claimed_since run.index now grace_period in
        let P = take 255 us in
        let Q = drop 255 us in
        let whole : dangling run.index after ≡ t ∷ P ++ Q =
          e ∙ ap (λ vs. t ∷ vs) (sym (take-drop 255 us)) in
        let page = collect_page faults claimed (map (dangling_ref run.index) (t ∷ P)) run in
        let same = page-SameAbove claimed run after t P Q whole in
        let (rest, snap) = rest_of_snapshot run.index page.0.index after t P Q whole same in
        next_page fuel now run after t P Q whole (page_taken run.index after t us e)
        ∙ go_on-pages fuel now (last_of t P) claimed (map (dangling_ref run.index) Q) page (
            collect_pages-snapshot fuel now (last_of t P) page.0
              (left_over run.index page.0.index after (last_of t P) t P Q fuel whole rest h)
            ∙ same_walk now (last_of t P) run page.0 (map (dangling_ref run.index) Q) same snap)
        ∙ sym (
            ap (λ ds. collect_page faults claimed ds run)
              (snapshot-append run.index after t P Q whole)
            ∙ collect_page-append claimed (map (dangling_ref run.index) (t ∷ P))
                (map (dangling_ref run.index) Q) run)
  ]
