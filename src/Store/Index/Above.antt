-- ===== src/Store/Index/Above.antt =====
-- What the queries return past a text depends only on the rows past it, so that deleting rows
-- before it does not disturb a walk over the pages.
use wsaw.Prelude.{
  ℕ, ◌≡◌, refl, sym, ap, ◌∙◌, Bool, true, false, Bool-cases, inl, inr, List, [], ◌∷◌, map, arith,
  keep_if, any, All,
}
use wsaw.Prelude.Text.{Text, less, eqb, eqb_iff}
use wsaw.Store.Index.{
  Index, Owner, RefRow, is_live, rising, dangling, is_dangling, still_named, names_live, forget_ref,
  outlives, claimed_since,
}
use wsaw.Store.Index.Rising.{less_trans, keep_if-rising, All-rising, IsRising, rising-IsRising}

abbrev pub above : Text → RefRow → Bool
above a row = less a row.artifact_ref

-- The owners and the claims are the same, and so are the rows past a text.
pub record SameAbove (a : Text) (ix jx : Index) : Type 0 where
  pub results : jx.results ≡ ix.results
  pub baselines : jx.baselines ≡ ix.baselines
  pub claims : jx.claims ≡ ix.claims
  pub rows : keep_if (above a) jx.refs ≡ keep_if (above a) ix.refs

pub SameAbove-refl : (a : Text) (ix : Index) → SameAbove a ix ix
SameAbove-refl a ix = record { results = refl; baselines = refl; claims = refl; rows = refl }

pub SameAbove-trans :
    (a : Text) (ix jx kx : Index) → SameAbove a ix jx → SameAbove a jx kx → SameAbove a ix kx
SameAbove-trans a ix jx kx s t = record {
  results = t.results ∙ s.results;
  baselines = t.baselines ∙ s.baselines;
  claims = t.claims ∙ s.claims;
  rows = t.rows ∙ s.rows;
}

keep_if-outlives :
    (a ref : Text) (ix : Index) (rows : List RefRow)
    → less a ref ≡ false
    → keep_if (above a) (keep_if (outlives ix ref) rows) ≡ keep_if (above a) rows
unfolding keep_if
keep_if-outlives a ref ix [] h = refl
keep_if-outlives a ref ix (r ∷ rows) h = elim (Bool-cases (eqb r.artifact_ref ref)) [
  | inl e ↦
      let same : r.artifact_ref ≡ ref = (eqb_iff r.artifact_ref ref).0 e in
      ground (arith, keep_if-outlives a ref ix rows h, h, ap (less a) same)
  | inr e ↦ ground (arith, keep_if-outlives a ref ix rows h, e)
]

pub forget_ref-SameAbove :
    (a ref : Text) (ix : Index) → less a ref ≡ false → SameAbove a ix (forget_ref ref ix)
unfolding forget_ref
forget_ref-SameAbove a ref ix h = record {
  results = refl;
  baselines = refl;
  claims = refl;
  rows = keep_if-outlives a ref ix ix.refs h;
}

is_live-SameAbove :
    (a : Text) (ix jx : Index) (o : Owner) → SameAbove a ix jx → is_live jx o ≡ is_live ix o
unfolding is_live
is_live-SameAbove a ix jx o s = cc (s.results, s.baselines)

keep_if-dangling :
    (a : Text) (ix jx : Index) (rows : List RefRow)
    → SameAbove a ix jx
    → keep_if (is_dangling jx a) rows ≡ keep_if (is_dangling ix a) (keep_if (above a) rows)
unfolding keep_if
keep_if-dangling a ix jx [] s = refl
keep_if-dangling a ix jx (r ∷ rows) s =
    ground (arith, is_live-SameAbove a ix jx r.owner s, keep_if-dangling a ix jx rows s)

pub dangling-SameAbove :
    (a : Text) (ix jx : Index) → SameAbove a ix jx → dangling jx a ≡ dangling ix a
unfolding dangling
dangling-SameAbove a ix jx s =
    ap (λ (rows : List RefRow). rising (map (λ r. r.artifact_ref) rows))
      (keep_if-dangling a ix jx jx.refs s
        ∙ ap (keep_if (is_dangling ix a)) s.rows
        ∙ sym (keep_if-dangling a ix ix ix.refs (SameAbove-refl a ix)))

any-names_live :
    (a ref : Text) (ix jx : Index) (rows : List RefRow)
    → SameAbove a ix jx
    → less a ref ≡ true
    → any (names_live jx ref) rows ≡ any (names_live ix ref) (keep_if (above a) rows)
unfolding any keep_if
any-names_live a ref ix jx [] s h = refl
any-names_live a ref ix jx (r ∷ rows) s h = elim (Bool-cases (eqb r.artifact_ref ref)) [
  | inl e ↦
      let same : r.artifact_ref ≡ ref = (eqb_iff r.artifact_ref ref).0 e in
      ground (
        arith,
        any-names_live a ref ix jx rows s h,
        is_live-SameAbove a ix jx r.owner s,
        h,
        e,
        ap (less a) same,
      )
  | inr e ↦ ground (arith, any-names_live a ref ix jx rows s h, e)
]

pub still_named-SameAbove :
    (a ref : Text) (ix jx : Index)
    → SameAbove a ix jx
    → less a ref ≡ true
    → still_named jx ref ≡ still_named ix ref
unfolding still_named
still_named-SameAbove a ref ix jx s h =
    any-names_live a ref ix jx jx.refs s h
    ∙ ap (any (names_live ix ref)) s.rows
    ∙ sym (any-names_live a ref ix ix ix.refs (SameAbove-refl a ix) h)

pub claimed_since-SameAbove :
    (a : Text) (ix jx : Index) (now grace : ℕ) (ref : Text)
    → SameAbove a ix jx
    → claimed_since jx now grace ref ≡ claimed_since ix now grace ref
unfolding claimed_since
claimed_since-SameAbove a ix jx now grace ref s = cc s.claims

-- The references past a later text are those past an earlier one that it precedes.
keep_if-later :
    (a l : Text) (ix : Index) (rows : List RefRow)
    → less a l ≡ true
    → keep_if (less l) (map (λ r. r.artifact_ref) (keep_if (is_dangling ix a) rows))
      ≡ map (λ r. r.artifact_ref) (keep_if (is_dangling ix l) rows)
unfolding keep_if
keep_if-later a l ix [] h = refl
keep_if-later a l ix (r ∷ rows) h =
    ground (arith, less_trans a l r.artifact_ref h, keep_if-later a l ix rows h)

pub keep_if-dangling_later :
    (a l : Text) (ix : Index) → less a l ≡ true → keep_if (less l) (dangling ix a) ≡ dangling ix l
unfolding dangling
keep_if-dangling_later a l ix h = keep_if-rising l _ ∙ ap rising (keep_if-later a l ix ix.refs h)

rows-past :
    (a : Text) (ix : Index) (rows : List RefRow)
    → All (λ t. less a t ≡ true) (map (λ r. r.artifact_ref) (keep_if (is_dangling ix a) rows))
unfolding keep_if
rows-past a ix [] = tt
rows-past a ix (r ∷ rows) = elim (Bool-cases (is_dangling ix a r)) [
  | inl e ↦ rw e (ground (arith, e), rows-past a ix rows)
  | inr e ↦ rw e (rows-past a ix rows)
]

pub dangling-past : (a : Text) (ix : Index) → All (λ t. less a t ≡ true) (dangling ix a)
unfolding dangling
dangling-past a ix = All-rising (λ t. less a t ≡ true) _ (rows-past a ix ix.refs)

pub dangling-IsRising : (a : Text) (ix : Index) → IsRising (dangling ix a)
unfolding dangling
dangling-IsRising a ix = rising-IsRising _
