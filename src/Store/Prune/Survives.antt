-- ===== src/Store/Prune/Survives.antt =====
-- A prune leaves the evidence of what survives it.
use wsaw.Prelude.{
  ℕ, zero, suc, ◌≡◌, refl, sym, ap, ◌∙◌, Bool, true, false, not, ◌&&◌, ◌||◌, List, [], ◌∷◌, ◌++◌,
  map, arith, if◌then◌else◌, keep_if, any, none, take, drop,
}
use wsaw.Prelude.Text.{Text, eqb}
use wsaw.Prelude.Assoc.{lookup, Unique}
use wsaw.Store.Select.{Retention, active}
use wsaw.Store.Index.{Index, Owner, ResultRow, same_owner, is_live, names_live, still_named}
use wsaw.Store.Collect.{Faults, Bucket, collect_pages}
use wsaw.Store.Collect.Keeps.{collect_pages-keeps}
use wsaw.Store.Collect.Removes.{no_faults}
use wsaw.Store.Collect.Orphans.{orphaned_refs-collect_pages}
use wsaw.Store.Prune.{
  Series, SeriesPlan, in_series, in_batch, delete_batch, delete_batches, delete_results,
  prune_batch, doomed, condemned_results, delete_condemned, prune_plans, condemned, prune,
  plan_prune, planned, enough,
}

any-keep_if :
    (q b : ResultRow → Bool) (rows : List ResultRow)
    → ((r : ResultRow) → q r ≡ true → b r ≡ false)
    → any q (keep_if (λ r. not (b r)) rows) ≡ any q rows
unfolding any keep_if
any-keep_if q b [] h = refl
any-keep_if q b (r ∷ rows) h = ground (arith, any-keep_if q b rows h, h r)

any-take : (p : Text → Bool) (n : ℕ) (ts : List Text) → any p ts ≡ false → any p (take n ts) ≡ false
unfolding any
any-take p zero ts h = refl
any-take p (suc n) [] h = refl
any-take p (suc n) (t ∷ ts) h = ground (arith, any-take p n ts)

any-drop : (p : Text → Bool) (n : ℕ) (ts : List Text) → any p ts ≡ false → any p (drop n ts) ≡ false
unfolding any
any-drop p zero ts h = h
any-drop p (suc n) [] h = refl
any-drop p (suc n) (t ∷ ts) h = any-drop p n ts (ground arith)

-- Only results go, and none that passes a test.
record Spares (q : ResultRow → Bool) (ix jx : Index) : Type 0 where
  results : any q jx.results ≡ any q ix.results
  refs : jx.refs ≡ ix.refs
  baselines : jx.baselines ≡ ix.baselines
  claims : jx.claims ≡ ix.claims

Spares-refl : (q : ResultRow → Bool) (ix : Index) → Spares q ix ix
Spares-refl q ix = record { results = refl; refs = refl; baselines = refl; claims = refl }

Spares-trans :
    (q : ResultRow → Bool) (ix jx kx : Index) → Spares q ix jx → Spares q jx kx → Spares q ix kx
Spares-trans q ix jx kx s t = record {
  results = t.results ∙ s.results;
  refs = t.refs ∙ s.refs;
  baselines = t.baselines ∙ s.baselines;
  claims = t.claims ∙ s.claims;
}

delete_batch-Spares :
    (q : ResultRow → Bool) (s : Series) (ids : List Text) (ix : Index)
    → ((r : ResultRow) → q r ≡ true → in_batch s ids r ≡ false)
    → Spares q ix (delete_batch s ids ix).0
unfolding delete_batch
delete_batch-Spares q s ids ix h = record {
  results = any-keep_if q (in_batch s ids) ix.results h;
  refs = refl;
  baselines = refl;
  claims = refl;
}

in_batch-part :
    (s : Series) (ids part : List Text) (r : ResultRow)
    → (any (eqb r.owner.scan_id) ids ≡ false → any (eqb r.owner.scan_id) part ≡ false)
    → in_batch s ids r ≡ false
    → in_batch s part r ≡ false
in_batch-part s ids part r h k = ground (arith, h, k)

delete_batches-Spares :
    (q : ResultRow → Bool) (fuel : ℕ) (s : Series) (ids : List Text) (ix : Index)
    → ((r : ResultRow) → q r ≡ true → in_batch s ids r ≡ false)
    → Spares q ix (delete_batches fuel s ids ix).0
unfolding delete_batches
delete_batches-Spares q zero s ids ix h = Spares-refl q ix
delete_batches-Spares q (suc fuel) s [] ix h = Spares-refl q ix
delete_batches-Spares q (suc fuel) s (id ∷ ids) ix h =
    let next = (delete_batch s (take prune_batch (id ∷ ids)) ix).0 in
    Spares-trans q ix next _
      (delete_batch-Spares q s (take prune_batch (id ∷ ids)) ix λ r e.
        in_batch-part s (id ∷ ids) _ r (any-take (eqb r.owner.scan_id) prune_batch (id ∷ ids))
          (h r e))
      (delete_batches-Spares q fuel s (drop prune_batch (id ∷ ids)) next λ r e.
        in_batch-part s (id ∷ ids) _ r (any-drop (eqb r.owner.scan_id) prune_batch (id ∷ ids))
          (h r e))

-- The result is one of those to be deleted.
abbrev pub is_condemned : List SeriesPlan → ResultRow → Bool
is_condemned plans r = any (same_owner r.owner) (condemned_results plans)

any-condemned :
    (o : Owner) (s : Series) (ids : List Text) (rest : List Owner)
    → any
        (same_owner o)
        (map (λ id. record { target = s.target; mode = s.mode; scan_id = id }) ids ++ rest)
      ≡ ((in_series s o && any (eqb o.scan_id) ids) || any (same_owner o) rest)
unfolding any
any-condemned o s [] rest = ground arith
any-condemned o s (id ∷ ids) rest = ground (arith, any-condemned o s ids rest)

either_false : (a b c : Bool) → a ≡ (b || c) → a ≡ false → (b ≡ false) × (c ≡ false)
either_false a b c h e = ground (arith, h, e)

not_condemned :
    (p : SeriesPlan) (plans : List SeriesPlan) (r : ResultRow)
    → is_condemned (p ∷ plans) r ≡ false
    → (in_batch p.series (doomed p.decisions) r ≡ false) × (is_condemned plans r ≡ false)
unfolding condemned_results
not_condemned p plans r h =
    either_false _ _ _
      (any-condemned r.owner p.series (doomed p.decisions) (condemned_results plans)) h

delete_condemned-Spares :
    (q : ResultRow → Bool) (plans : List SeriesPlan) (ix : Index)
    → ((r : ResultRow) → q r ≡ true → is_condemned plans r ≡ false)
    → Spares q ix (delete_condemned plans ix).0
unfolding delete_condemned
delete_condemned-Spares q [] ix h = Spares-refl q ix
delete_condemned-Spares q (p ∷ plans) ix h =
    let next = (delete_results p.series (doomed p.decisions) ix).0 in
    Spares-trans q ix next _
      (unfold delete_results in
        delete_batches-Spares q _ p.series (doomed p.decisions) ix
          λ r e. (not_condemned p plans r (h r e)).0)
      (delete_condemned-Spares q plans next λ r e. (not_condemned p plans r (h r e)).1)

-- An owner that the plans leave: a baseline, or a result that they do not condemn.
abbrev pub survives : Index → List SeriesPlan → Owner → Bool
survives ix plans o =
    any (λ r. same_owner o r.owner && not (is_condemned plans r)) ix.results
    || any (same_owner o) ix.baselines

-- Such an owner names an artifact.
abbrev pub named_by_survivor : Index → List SeriesPlan → Text → Bool
named_by_survivor ix plans ref =
    any (λ row. eqb row.artifact_ref ref && survives ix plans row.owner) ix.refs

any-weaker :
    {A : Type 0} (p q : A → Bool) (xs : List A)
    → ((x : A) → p x ≡ true → q x ≡ true)
    → any p xs ≡ true
    → any q xs ≡ true
unfolding any
any-weaker p q [] f h = h
any-weaker p q (x ∷ xs) f h = ground (arith, any-weaker p q xs f, f x)

survives-is_live :
    (ix : Index) (plans : List SeriesPlan) (o : Owner)
    → survives ix plans o ≡ true
    → is_live (delete_condemned plans ix).0 o ≡ true
unfolding is_live
survives-is_live ix plans o h =
    let q = λ (r : ResultRow). same_owner o r.owner && not (is_condemned plans r) in
    let next = (delete_condemned plans ix).0 in
    let spared = delete_condemned-Spares q plans ix λ r e. ground arith in
    let weaker =
      any-weaker q (λ (r : ResultRow). same_owner o r.owner) next.results λ r e. ground arith in
    ground (arith, spared.results, ap (any (same_owner o)) spared.baselines, weaker)

survivor-still_named :
    (ix : Index) (plans : List SeriesPlan) (ref : Text)
    → named_by_survivor ix plans ref ≡ true
    → still_named (delete_condemned plans ix).0 ref ≡ true
unfolding still_named
survivor-still_named ix plans ref h =
    let next = (delete_condemned plans ix).0 in
    let spared = delete_condemned-Spares (λ r. false) plans ix λ r e. cc in
    rw (spared.refs) (
      any-weaker _ (names_live next ref) ix.refs
        (λ row e. ground (arith, survives-is_live ix plans row.owner)) h)

-- What a prune does to the objects, it does by the collection, or it does nothing.
prune-bucket :
    (faults : Faults) (reachable : Bool) (now : ℕ) (r : Retention) (ix : Index) (bucket : Bucket)
    → let start = condemned now r ix bucket in
      (prune faults reachable now r ix bucket).run.bucket ≡ (
        if active r && reachable
        then (collect_pages faults (enough start.index) now [] start).0.bucket
        else bucket)
unfolding prune
prune-bucket faults reachable now r ix bucket = ground arith

lookup_either :
    (ref : Text) (c : Bool) (out bucket : Bucket)
    → lookup ref out ≡ lookup ref bucket
    → lookup ref (if c then out else bucket) ≡ lookup ref bucket
lookup_either ref true out bucket h = h
lookup_either ref false out bucket h = refl

-- Whatever requests fail and whenever the context ends, a prune leaves the object of an artifact
-- as it is if a baseline names it, or a result that the plans do not condemn.
pub prune-survivor :
    (faults : Faults) (reachable : Bool) (now : ℕ) (r : Retention) (ix : Index) (bucket : Bucket)
    (ref : Text)
    → named_by_survivor ix (prune_plans ix now r) ref ≡ true
    → lookup ref (prune faults reachable now r ix bucket).run.bucket ≡ lookup ref bucket
unfolding condemned
prune-survivor faults reachable now r ix bucket ref h =
    let start = condemned now r ix bucket in
    let named : still_named start.index ref ≡ true =
      survivor-still_named ix (prune_plans ix now r) ref h in
    let kept =
      collect_pages-keeps faults ref (enough start.index) now start (omega arith)
        (ground (arith, named)) in
    ap (lookup ref) (prune-bucket faults reachable now r ix bucket)
    ∙ lookup_either ref (active r && reachable) _ bucket kept

lookup_planned :
    (ref : Text) (c b : Bool) (out bucket : Bucket)
    → lookup ref out ≡ (if b then none else lookup ref bucket)
    → lookup ref (if c then out else bucket) ≡ (if c && b then none else lookup ref bucket)
lookup_planned ref true b out bucket h = h
lookup_planned ref false b out bucket h = refl

plan-artifacts :
    (reachable : Bool) (now : ℕ) (r : Retention) (ix : Index) (bucket : Bucket) (ref : Text)
    → any (λ t. eqb t ref) (plan_prune no_faults reachable now r ix bucket).artifacts ≡ (
        (active r && reachable)
        && any (λ t. eqb t ref) (planned no_faults now r ix bucket).artifacts)
unfolding plan_prune any
plan-artifacts reachable now r ix bucket ref = ground arith

-- Where no request fails and the context does not end, a prune of a bucket whose keys are unique
-- deletes exactly the objects whose references the dry run of the same index names.
pub prune-plan_prune :
    (reachable : Bool) (now : ℕ) (r : Retention) (ix : Index) (bucket : Bucket) (ref : Text)
    → Unique bucket
    → lookup ref (prune no_faults reachable now r ix bucket).run.bucket ≡ (
        if any (λ t. eqb t ref) (plan_prune no_faults reachable now r ix bucket).artifacts
        then none
        else lookup ref bucket)
unfolding condemned planned
prune-plan_prune reachable now r ix bucket ref u =
    let start = condemned now r ix bucket in
    ap (lookup ref) (prune-bucket no_faults reachable now r ix bucket)
    ∙ lookup_planned ref (active r && reachable) _ _ bucket
        (orphaned_refs-collect_pages (enough start.index) now start ref (omega arith) u)
    ∙ ap (λ (b : Bool). if b then none else lookup ref bucket)
        (sym (plan-artifacts reachable now r ix bucket ref))
