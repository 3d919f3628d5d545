-- ===== src/Limiter/Laws.antt =====
-- The origin limiter of internal/daemon/schedule.go against the scans that hold a slot.
use wsaw.Prelude.{
  ℕ, ◌+◌, ◌-◌, ◌≤◌, ◌≡◌, refl, ◌∙◌, Bool, true, false, ◌&&◌, Option, none, some, List, [], ◌∷◌,
  ◌++◌, arith, if◌then◌else◌, ltb, leb, ◌==◌, count_if, Bool-cases, inl, inr,
}
use wsaw.Prelude.Text.{Text, eqb, eqb_iff, eqb_refl}
use wsaw.Prelude.Assoc
use wsaw.Limiter.{Limiter, new_limiter, used, try_acquire, lower, sweep, wake, release}

-- How many of the scans that hold a slot hold one of an origin.
unfoldable pub holders : Text → List Text → ℕ
holders origin = count_if (λ o. eqb o origin)

count_if-append :
    (p : Text → Bool) (xs ys : List Text) → count_if p (xs ++ ys) ≡ count_if p xs + count_if p ys
unfolding count_if
count_if-append p [] ys = omega arith
count_if-append p (x ∷ xs) ys = omega (arith, count_if-append p xs ys)

-- What the daemon does: a scan takes a slot if there is one, and each scan that took one gives it
-- back once. The list holds the origins of the scans that hold a slot.
pub data Runs : Limiter → List Text → Type 0 where
  new : (limit : ℕ) → Runs (new_limiter limit) []
  acquires :
      (l : Limiter) (held : List Text) (o : Text)
      → Runs l held
      → (try_acquire l o).1 ≡ true
      → Runs (try_acquire l o).0 (o ∷ held)
  refused :
      (l : Limiter) (held : List Text) (o : Text)
      → Runs l held
      → (try_acquire l o).1 ≡ false
      → Runs (try_acquire l o).0 held
  releases :
      (l : Limiter) (before : List Text) (o : Text) (after : List Text)
      → Runs l (before ++ o ∷ after)
      → Runs (release l o).0 (before ++ after)

-- The entry of an origin with some holders.
abbrev pub entry : ℕ → Option ℕ
entry n = if n == 0 then none else some n

-- The table counts the holders of every origin and keeps no entry of 0.
abbrev Inv : Limiter → List Text → Type 0
Inv l held =
    Assoc.Unique l.in_use
    × (1 ≤ l.limit)
    × ((o : Text) → (Assoc.lookup o l.in_use ≡ entry (holders o held)) × (holders o held ≤ l.limit))

new-Inv : (limit : ℕ) → Inv (new_limiter limit) []
unfolding new_limiter Assoc.lookup holders count_if
new-Inv limit = (tt, ground arith, λ o. (refl, omega arith))

acquire-Inv :
    (l : Limiter) (held : List Text) (o : Text)
    → Inv l held
    → (try_acquire l o).1 ≡ true
    → Inv (try_acquire l o).0 (o ∷ held)
unfolding try_acquire holders count_if
acquire-Inv l held o (u, p, h) e = elim (Bool-cases (leb l.limit (used o l))) [
  | inl full ↦ absurd (ground arith)
  | inr free ↦ rw free (
    Assoc.set-Unique o _ l.in_use u,
    p,
    λ x. ground (arith, Assoc.lookup-set o x (used o l + 1) l.in_use, h o, h x, eqb_iff o x),
  )
]

refused-Inv :
    (l : Limiter) (held : List Text) (o : Text)
    → Inv l held
    → (try_acquire l o).1 ≡ false
    → Inv (try_acquire l o).0 held
unfolding try_acquire
refused-Inv l held o i e = elim (Bool-cases (leb l.limit (used o l))) [
  | inl full ↦ rw full i
  | inr free ↦ absurd (ground arith)
]

wake-keeps :
    (l : Limiter) (o : Text) → ((wake l o).0.in_use ≡ l.in_use) × ((wake l o).0.limit ≡ l.limit)
unfolding wake
wake-keeps l o = ground arith

lower-Unique : (l : Limiter) (o : Text) → Assoc.Unique l.in_use → Assoc.Unique (lower l o).in_use
unfolding lower
lower-Unique l o u = elim (Bool-cases (ltb 0 (used o l))) [
  | inl e ↦ rw e (Assoc.set-Unique o _ l.in_use u)
  | inr e ↦ rw e u
]

sweep-Unique : (l : Limiter) (o : Text) → Assoc.Unique l.in_use → Assoc.Unique (sweep l o).in_use
unfolding sweep
sweep-Unique l o u = elim (Bool-cases (used o l == 0)) [
  | inl e ↦ rw e (Assoc.delete-Unique o l.in_use u)
  | inr e ↦ rw e u
]

lookup-lower :
    (l : Limiter) (o x : Text) (n : ℕ)
    → Assoc.lookup o l.in_use ≡ some (n + 1)
    → Assoc.lookup x (lower l o).in_use ≡ (if eqb o x then some n else Assoc.lookup x l.in_use)
unfolding lower
lookup-lower l o x n e = ground (arith, Assoc.lookup-set o x (used o l - 1) l.in_use)

lookup-sweep :
    (l : Limiter) (o x : Text)
    → Assoc.Unique l.in_use
    → Assoc.lookup x (sweep l o).in_use
      ≡ (if eqb o x && (used o l == 0) then none else Assoc.lookup x l.in_use)
unfolding sweep
lookup-sweep l o x u = ground (arith, Assoc.lookup-delete o x l.in_use u)

limit-kept : (l : Limiter) (o : Text) → (release l o).0.limit ≡ l.limit
unfolding release lower sweep
limit-kept l o = (wake-keeps (sweep (lower l o) o) o).1 ∙ ground arith

holders-remove :
    (x : Text) (before : List Text) (o : Text) (after : List Text)
    → holders x (before ++ o ∷ after) ≡ holders x (before ++ after) + (if eqb o x then 1 else 0)
unfolding holders count_if
holders-remove x before o after = omega (
  arith,
  count_if-append (λ y. eqb y x) before (o ∷ after),
  count_if-append (λ y. eqb y x) before after,
)

release-Inv :
    (l : Limiter) (before : List Text) (o : Text) (after : List Text)
    → Inv l (before ++ o ∷ after)
    → Inv (release l o).0 (before ++ after)
unfolding release
release-Inv l before o after (u, p, h) =
    rw ((wake-keeps (sweep (lower l o) o) o).0, limit-kept l o)
      (
        sweep-Unique (lower l o) o (lower-Unique l o u),
        p,
        λ x. ground (
          arith,
          h x,
          holders-remove x before o after,
          lookup-sweep (lower l o) o x (lower-Unique l o u),
          lookup-lower l o x n found,
          lookup-lower l o o n found,
          eqb_refl o,
          eqb_iff o x,
        ),
      )
  where
    n : ℕ
    n = holders o (before ++ after)

    found : Assoc.lookup o l.in_use ≡ some (n + 1)
    found = ground (arith, h o, holders-remove o before o after, eqb_refl o)

runs-Inv : (l : Limiter) (held : List Text) → Runs l held → Inv l held
runs-Inv _ _ (Runs.new limit) = new-Inv limit
runs-Inv _ _ (Runs.acquires l held o r e) = acquire-Inv l held o (runs-Inv l held r) e
runs-Inv _ _ (Runs.refused l held o r e) = refused-Inv l held o (runs-Inv l held r) e
runs-Inv _ _ (Runs.releases l before o after r) =
    release-Inv l before o after (runs-Inv l (before ++ o ∷ after) r)

-- However scans take slots and give them back, no origin has more holders than the limit, the table
-- has an entry for exactly the origins with holders, which counts them, and a scan is refused
-- exactly when its origin has as many holders as the limit.
pub limiter-bounds :
    (l : Limiter) (held : List Text) (o : Text)
    → Runs l held
    → (holders o held ≤ l.limit)
      × (Assoc.lookup o l.in_use ≡ entry (holders o held))
      × ((try_acquire l o).1 ≡ ltb (holders o held) l.limit)
unfolding try_acquire
limiter-bounds l held o r =
    let (u, p, h) = runs-Inv l held r in ((h o).1, (h o).0, ground (arith, h o))
