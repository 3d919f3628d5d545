-- ===== src/Diff/Flap/Prune.antt =====
-- Pruning the suppressor of internal/diff/flap.go is never seen.
use wsaw.Prelude.{
  ℕ, ◌-◌, ◌≤◌, ◌≡◌, refl, ◌∙◌, inl, inr, none, some, List, [], ◌∷◌, arith, if◌then◌else◌, leb, ◌==◌,
  Bool-cases,
}
use wsaw.Diff.Change.{Change}
use wsaw.Diff.Flap.{
  FlapKey, Seen, FlapSuppressor, Filtered, key_of, same_key, seen_at, record_at, is_recent,
  filter_step, filter_from, filter, prune_seen, prune,
}
use wsaw.Diff.Flap.Laws.{same_key_sym, seen-record, seen_at_cong}

-- No identity stands twice.
abbrev pub UniqueSeen : Seen → Type 0
UniqueSeen [] = Unit {0}
UniqueSeen ((k, t) ∷ m) = (seen_at k m ≡ none) × UniqueSeen m

pub record_at-UniqueSeen :
    (k : FlapKey) (t : ℕ) (m : Seen) → UniqueSeen m → UniqueSeen (record_at k t m)
unfolding record_at seen_at
record_at-UniqueSeen k t [] u = (refl, tt)
record_at-UniqueSeen k t ((j, w) ∷ m) u = elim (Bool-cases (same_key j k)) [
  | inl e ↦ rw e u
  | inr e ↦
      rw e (seen-record k j t m ∙ ground (arith, same_key_sym k j), record_at-UniqueSeen k t m u.1)
]

seen-prune :
    (window now : ℕ) (k : FlapKey) (m : Seen)
    → UniqueSeen m
    → seen_at k (prune_seen window now m)
      ≡ elim (seen_at k m) [ none ↦ none | some t ↦ if leb window (now - t) then none else some t ]
unfolding seen_at prune_seen
seen-prune window now k [] u = refl
seen-prune window now k ((j, t) ∷ m) u =
    ground (arith, seen-prune window now k m u.1, seen_at_cong j k m)

-- An identity that `Prune` dropped was no longer recent, then or later.
recent-prune :
    (window now later : ℕ) (k : FlapKey) (m : Seen)
    → UniqueSeen m
    → now ≤ later
    → is_recent window later (seen_at k (prune_seen window now m))
      ≡ is_recent window later (seen_at k m)
unfolding is_recent
recent-prune window now later k m u h = ground (arith, seen-prune window now k m u)

-- Two states that treat every identity alike.
Alike : ℕ → ℕ → Filtered → Filtered → Type 0
Alike window now f g =
    ((k : FlapKey)
      → is_recent window now (seen_at k f.seen) ≡ is_recent window now (seen_at k g.seen))
    × (f.emit ≡ g.emit)
    × (f.suppressed ≡ g.suppressed)

filter_step-Alike :
    (window now : ℕ) (f g : Filtered) (c : Change)
    → Alike window now f g
    → Alike window now (filter_step window now f c) (filter_step window now g c)
unfolding filter_step Alike is_recent
filter_step-Alike window now f g c h = (
  (λ k. ground (
    arith,
    h.0 k,
    h.0 (key_of c),
    seen-record (key_of c) k now f.seen,
    seen-record (key_of c) k now g.seen,
  )),
  ground (arith, h.0 (key_of c)),
  ground (arith, h.0 (key_of c)),
)

filter_from-Alike :
    (window now : ℕ) (f g : Filtered) (cs : List Change)
    → Alike window now f g
    → Alike window now (filter_from window now f cs) (filter_from window now g cs)
unfolding filter_from
filter_from-Alike window now f g [] h = h
filter_from-Alike window now f g (c ∷ cs) h =
    filter_from-Alike window now (filter_step window now f c) (filter_step window now g c) cs
      (filter_step-Alike window now f g c h)

-- `Prune` only forgets what no longer matters: where the table holds no identity twice, the
-- suppressor emits and suppresses, at the same or a later time, exactly what it would have without
-- the prune.
pub filter-prune :
    (s : FlapSuppressor) (now later : ℕ) (cs : List Change)
    → UniqueSeen s.seen
    → now ≤ later
    → ((filter (prune (some s) now) later cs).1 ≡ (filter (some s) later cs).1)
      × ((filter (prune (some s) now) later cs).2 ≡ (filter (some s) later cs).2)
unfolding filter prune Alike
filter-prune s now later cs u h = elim (Bool-cases (s.window == 0)) [
  | inl e ↦ rw e (refl, refl)
  | inr e ↦ rw e (alike.1, alike.2)
]
  where
    alike :
        Alike s.window later
          (filter_from s.window later
            (record { seen = prune_seen s.window now s.seen; emit = []; suppressed = 0 })
            cs)
          (filter_from s.window later (record { seen = s.seen; emit = []; suppressed = 0 }) cs)
    alike =
        filter_from-Alike s.window later _ _ cs
          ((λ k. recent-prune s.window now later k s.seen u h), refl, refl)
