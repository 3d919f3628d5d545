-- ===== src/Store/Collect/Removes.antt =====
-- collectDangling where no request fails: exactly which objects are gone afterwards.
use wsaw.Prelude.{
  ℕ, ◌<◌, ◌≡◌, refl, sym, ap, ◌∙◌, Bool, true, false, not, ◌&&◌, ◌||◌, Bool-cases, inl, inr, List,
  [], ◌∷◌, map, arith, if◌then◌else◌, keep_if, any, Option, some, none, length, Option-cases, subst,
}
use wsaw.Prelude.Text.{Text, eqb, eqb_iff, eq_of_not-less}
use wsaw.Prelude.Assoc.{lookup, delete, Unique, lookup-delete, delete-Unique}
use wsaw.Store.Index.{
  Index, DanglingRef, RefRow, dangling_ref, dangling, claimed_since, is_dangling, insert_text,
  rising, forget_ref, grace_period,
}
use wsaw.Store.Collect.{
  Faults, Run, Bucket, Object, collect_one, collect_page, collect_pages, remove_artifact,
  delete_artifact, collectable,
}
use wsaw.Store.Collect.Pages.{snapshot, collect_pages-snapshot}
use wsaw.Store.Collect.Keeps.{has_reason}

abbrev pub no_faults : Faults
no_faults = record {
  stat_fails = λ ref. false;
  remove_fails = λ ref. false;
  cancelled = λ ref. false;
}

-- An item whose artifact is deleted.
abbrev pub removable : (Text → Bool) → ℕ → DanglingRef → Bool
removable claimed unknown d = not d.named && (not (claimed d.ref) && collectable d.ref unknown)

removed_bucket : Text → Bucket → Bucket
removed_bucket ref bucket = elim (lookup ref bucket) [
  | none ↦ bucket
  | some obj ↦ delete ref bucket
]

removed-lookup :
    (k r : Text) (bucket : Bucket)
    → Unique bucket
    → lookup r (removed_bucket k bucket) ≡ (if eqb k r then none else lookup r bucket)
unfolding removed_bucket
removed-lookup k r bucket u = elim (Option-cases (lookup k bucket)) [
  | inl e ↦ elim (Bool-cases (eqb k r)) [
    | inl f ↦
        let same : k ≡ r = (eqb_iff k r).0 f in
        ground (arith, e, f, ap (λ (m : Text). lookup m bucket) same)
    | inr f ↦ ground (arith, e, f)
  ]
  | inr (obj, e) ↦ ground (arith, e, lookup-delete k r bucket u)
]

removed-Unique : (k : Text) (bucket : Bucket) → Unique bucket → Unique (removed_bucket k bucket)
unfolding removed_bucket
removed-Unique k bucket u = elim (Option-cases (lookup k bucket)) [
  | inl e ↦ rw (removed_bucket, e) u
  | inr (obj, e) ↦ rw (removed_bucket, e) (delete-Unique k bucket u)
]

collect_one-bucket :
    (claimed : Text → Bool) (d : DanglingRef) (run : Run)
    → (collect_one no_faults claimed d run).bucket ≡ (
        if removable claimed run.stats.unknown_references d
        then removed_bucket d.ref run.bucket
        else run.bucket)
unfolding collect_one remove_artifact delete_artifact forget_ref removed_bucket
collect_one-bucket claimed d run = ground arith

collect_one-unknown :
    (claimed : Text → Bool) (d : DanglingRef) (run : Run)
    → (collect_one no_faults claimed d run).stats.unknown_references ≡ run.stats.unknown_references
unfolding collect_one remove_artifact delete_artifact forget_ref
collect_one-unknown claimed d run = ground arith

abbrev pub about : Text → (Text → Bool) → ℕ → DanglingRef → Bool
about r claimed unknown d = eqb d.ref r && removable claimed unknown d

if_true {ℓ} : {A : Type ℓ} (c : Bool) (x y : A) → c ≡ true → (if c then x else y) ≡ x
if_true c x y h = rw h refl

if_false {ℓ} : {A : Type ℓ} (c : Bool) (x y : A) → c ≡ false → (if c then x else y) ≡ y
if_false c x y h = rw h refl

collect_one-lookup :
    (claimed : Text → Bool) (r : Text) (d : DanglingRef) (run : Run)
    → Unique run.bucket
    → let next = collect_one no_faults claimed d run in
      Unique next.bucket
      × (lookup r next.bucket
          ≡ (if about r claimed run.stats.unknown_references d then none else lookup r run.bucket))
collect_one-lookup claimed r d run u =
    let next = collect_one no_faults claimed d run in
    let b = collect_one-bucket claimed d run in
    elim (Bool-cases (removable claimed run.stats.unknown_references d)) [
      | inl f ↦
          let removed : next.bucket ≡ removed_bucket d.ref run.bucket = b ∙ if_true _ _ _ f in
          (
            subst Unique (sym removed) (removed-Unique d.ref run.bucket u),
            ap (lookup r) removed ∙ removed-lookup d.ref r run.bucket u ∙ ground (arith, f),
          )
      | inr f ↦
          let same : next.bucket ≡ run.bucket = b ∙ if_false _ _ _ f in
          (subst Unique (sym same) u, ap (lookup r) same ∙ ground (arith, f))
    ]

collect_page-lookup :
    (claimed : Text → Bool) (unknown : ℕ) (r : Text) (ds : List DanglingRef) (run : Run)
    → run.stats.unknown_references ≡ unknown
    → Unique run.bucket
    → ((collect_page no_faults claimed ds run).1 ≡ true)
      × (lookup r (collect_page no_faults claimed ds run).0.bucket
          ≡ (if any (about r claimed unknown) ds then none else lookup r run.bucket))
unfolding collect_page any
collect_page-lookup claimed unknown r [] run e u = (refl, refl)
collect_page-lookup claimed unknown r (d ∷ ds) run e u =
    let next = collect_one no_faults claimed d run in
    let (uniq, one) = collect_one-lookup claimed r d run u in
    let (through, rest) =
      collect_page-lookup claimed unknown r ds next (collect_one-unknown claimed d run ∙ e) uniq in
    (
      through,
      rest
          ∙ ap (λ (o : Option Object). if any (about r claimed unknown) ds then none else o) one
          ∙ ground (arith, ap (λ (m : ℕ). about r claimed m d) e),
    )

any-insert_text :
    (p : Text → Bool) (s : Text) (ts : List Text) → any p (insert_text s ts) ≡ (p s || any p ts)
unfolding any insert_text
any-insert_text p s [] = refl
any-insert_text p s (t ∷ ts) =
    ground (arith, any-insert_text p s ts, eq_of_not-less s t, λ (e : s ≡ t). ap p e)

any-rising : (p : Text → Bool) (ss : List Text) → any p (rising ss) ≡ any p ss
unfolding any rising
any-rising p [] = refl
any-rising p (s ∷ ss) = ground (arith, any-insert_text p s (rising ss), any-rising p ss)

-- A reference has a row whose owner is gone.
abbrev pub has_lost : Index → Text → Bool
has_lost ix r = any (λ row. eqb row.artifact_ref r && is_dangling ix [] row) ix.refs

any-dangling_rows :
    (ix : Index) (r : Text) (rows : List RefRow)
    → any (λ t. eqb t r) (map (λ r. r.artifact_ref) (keep_if (is_dangling ix []) rows))
      ≡ any (λ row. eqb row.artifact_ref r && is_dangling ix [] row) rows
unfolding any keep_if
any-dangling_rows ix r [] = refl
any-dangling_rows ix r (row ∷ rows) = ground (arith, any-dangling_rows ix r rows)

pub any-dangling : (ix : Index) (r : Text) → any (λ t. eqb t r) (dangling ix []) ≡ has_lost ix r
unfolding dangling
any-dangling ix r = any-rising (λ t. eqb t r) _ ∙ any-dangling_rows ix r ix.refs

pub any-snapshot :
    (now : ℕ) (run : Run) (r : Text) (ts : List Text)
    → any
        (about r (claimed_since run.index now grace_period) run.stats.unknown_references)
        (map (dangling_ref run.index) ts)
      ≡ (any (λ t. eqb t r) ts && not (has_reason no_faults r now run))
unfolding any
any-snapshot now run r [] = refl
any-snapshot now run r (t ∷ ts) = elim (Bool-cases (eqb t r)) [
  | inl e ↦ ground (
    arith,
    e,
    any-snapshot now run r ts,
    ap (λ (m : Text). has_reason no_faults m now run) ((eqb_iff t r).0 e),
  )
  | inr e ↦ ground (arith, e, any-snapshot now run r ts)
]

-- Where no request fails and the context does not end, and with fuel for every dangling reference,
-- collectDangling comes to its end, and of a bucket whose keys are unique it deletes exactly the
-- objects whose reference has a row of an owner that is gone, unless a reason to keep it holds.
pub collect_pages-removes :
    (fuel now : ℕ) (run : Run) (r : Text)
    → length (dangling run.index []) < fuel
    → Unique run.bucket
    → let out = collect_pages no_faults fuel now [] run in
      (out.1 ≡ true)
      × (lookup r out.0.bucket ≡ (
          if has_lost run.index r && not (has_reason no_faults r now run)
          then none
          else lookup r run.bucket))
collect_pages-removes fuel now run r f u =
    let (through, look) =
      collect_page-lookup (claimed_since run.index now grace_period) run.stats.unknown_references r
        (snapshot no_faults run.index []) run refl u in
    rw (collect_pages-snapshot no_faults fuel now [] run f) (
      through,
      look
          ∙ ap (λ (b : Bool). if b then none else lookup r run.bucket)
              (any-snapshot now run r (dangling run.index [])
                ∙ ap (λ b. b && not (has_reason no_faults r now run)) (any-dangling run.index r)),
    )
