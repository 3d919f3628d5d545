-- ===== src/Diff/Flap/Laws.antt =====
-- What the suppressor of internal/diff/flap.go emits.
use wsaw.Prelude.{
  ℕ, ◌+◌, ◌≤◌, ◌<◌, ◌≡◌, refl, sym, ◌∙◌, ◌⊎◌, inl, inr, Bool, true, Option, none, some, List, [],
  ◌∷◌, ◌++◌, arith, if◌then◌else◌, length, length-append, count_if, Bool-cases,
}
use wsaw.Prelude.Text.{eqb_iff, eqb_refl}
use wsaw.Model.Enums.{mode_text}
use wsaw.Diff.Change.{Change, type_text}
use wsaw.Diff.Flap.{
  FlapKey, Seen, FlapSuppressor, Filtered, key_of, same_key, seen_at, record_at, is_recent,
  filter_step, filter_from, filter,
}

pub same_key_refl : (k : FlapKey) → same_key k k ≡ true
unfolding same_key
same_key_refl k = ground (
  arith,
  eqb_refl k.target,
  eqb_refl (mode_text k.mode),
  eqb_refl (type_text k.typ),
  eqb_refl k.subject,
)

pub same_key_cong : (i k j : FlapKey) → same_key i k ≡ true → same_key i j ≡ same_key k j
unfolding same_key
same_key_cong i k j h = ground (
  arith,
  eqb_iff i.target k.target,
  eqb_iff (mode_text i.mode) (mode_text k.mode),
  eqb_iff (type_text i.typ) (type_text k.typ),
  eqb_iff i.subject k.subject,
)

pub same_key_sym : (i k : FlapKey) → same_key i k ≡ true → same_key k i ≡ true
same_key_sym i k h = sym (same_key_cong i k i h) ∙ same_key_refl i

pub seen-record :
    (k j : FlapKey) (t : ℕ) (m : Seen)
    → seen_at j (record_at k t m) ≡ (if same_key k j then some t else seen_at j m)
unfolding seen_at record_at
seen-record k j t [] = refl
seen-record k j t ((i, u) ∷ m) = elim (Bool-cases (same_key i k)) [
  | inl e ↦ rw (e, same_key_cong i k j e) (ground arith)
  | inr e ↦ rw e (ground (arith, seen-record k j t m, same_key_cong i j k, same_key_sym k j))
]

filter_step-count :
    (window now : ℕ) (f : Filtered) (c : Change)
    → let out = filter_step window now f c in
      length out.emit + out.suppressed ≡ length f.emit + f.suppressed + 1
unfolding filter_step
filter_step-count window now f c = ground (arith, length-append f.emit (c ∷ []))

filter_from-count :
    (window now : ℕ) (f : Filtered) (cs : List Change)
    → let out = filter_from window now f cs in
      length out.emit + out.suppressed ≡ length f.emit + f.suppressed + length cs
unfolding filter_from
filter_from-count window now f [] = omega arith
filter_from-count window now f (c ∷ cs) = omega (
  arith,
  filter_from-count window now (filter_step window now f c) cs,
  filter_step-count window now f c,
)

-- Every change is either emitted or counted as suppressed.
pub filter-count :
    (s : Option FlapSuppressor) (now : ℕ) (cs : List Change)
    → length (filter s now cs).1 + (filter s now cs).2 ≡ length cs
unfolding filter
filter-count none now cs = omega arith
filter-count (some s) now cs =
    ground (
      arith,
      filter_from-count s.window now (record { seen = s.seen; emit = []; suppressed = 0 }) cs,
    )

-- The emitted changes of one identity.
unfoldable pub emissions : FlapKey → List Change → ℕ
emissions k = count_if (λ c. same_key (key_of c) k)

emissions-nil : (k : FlapKey) → emissions k [] ≡ 0
unfolding emissions count_if
emissions-nil k = refl

-- Once an identity is emitted it is recent.
IsOnce : ℕ → ℕ → FlapKey → Filtered → Type 0
IsOnce window now k f =
    (emissions k f.emit ≡ 0)
    ⊎ ((emissions k f.emit ≡ 1) × (is_recent window now (seen_at k f.seen) ≡ true))

count_if-append {ℓ} :
    {A : Type ℓ} (p : A → Bool) (xs ys : List A)
    → count_if p (xs ++ ys) ≡ count_if p xs + count_if p ys
unfolding count_if
count_if-append p [] ys = omega arith
count_if-append p (x ∷ xs) ys = omega (arith, count_if-append p xs ys)

pub seen_at_cong : (i k : FlapKey) (m : Seen) → same_key i k ≡ true → seen_at i m ≡ seen_at k m
unfolding seen_at
seen_at_cong i k [] h = refl
seen_at_cong i k ((j, t) ∷ m) h = ground (
  arith,
  seen_at_cong i k m,
  same_key_cong i k j,
  same_key_cong j i k,
  same_key_cong j k i,
  same_key_sym i k,
)

filter_step-IsOnce :
    (window now : ℕ) (k : FlapKey) (f : Filtered) (c : Change)
    → 0 < window
    → IsOnce window now k f
    → IsOnce window now k (filter_step window now f c)
unfolding filter_step IsOnce emissions count_if is_recent
filter_step-IsOnce window now k f c pos h = ground (
  arith,
  count_if-append (λ c. same_key (key_of c) k) f.emit (c ∷ []),
  seen-record (key_of c) k now f.seen,
  seen_at_cong (key_of c) k f.seen,
)

filter_from-IsOnce :
    (window now : ℕ) (k : FlapKey) (f : Filtered) (cs : List Change)
    → 0 < window
    → IsOnce window now k f
    → IsOnce window now k (filter_from window now f cs)
unfolding filter_from
filter_from-IsOnce window now k f [] pos h = h
filter_from-IsOnce window now k f (c ∷ cs) pos h =
    filter_from-IsOnce window now k (filter_step window now f c) cs pos
      (filter_step-IsOnce window now k f c pos h)

-- With a positive window, one call emits at most one change of an identity: a host that is added
-- and removed again, or reported twice, is one event.
pub filter-once :
    (s : FlapSuppressor) (now : ℕ) (cs : List Change) (k : FlapKey)
    → 0 < s.window
    → emissions k (filter (some s) now cs).1 ≤ 1
unfolding filter IsOnce
filter-once s now cs k pos = ground (
  arith,
  filter_from-IsOnce s.window now k (record { seen = s.seen; emit = []; suppressed = 0 }) cs pos
      (inl (emissions-nil k)),
)
