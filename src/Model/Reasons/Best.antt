-- ===== src/Model/Reasons/Best.antt =====
-- Which reason `TopIncompleteReason` of internal/model/result.go reports.
use wsaw.Prelude.{
  ◌&&◌, ltb, ◌==◌, ℕ, ◌+◌, ◌≤◌, ◌<◌, ◌≡◌, refl, ◌∙◌, ◌⊎◌, inl, inr, true, false, List, [], ◌∷◌,
  none, some, arith, if◌then◌else◌, count_if, Option-cases,
}
use wsaw.Prelude.Text.{Text, less, less_asymm, less_cotrans, less_irrefl, eqb, eqb_iff, eqb_refl}
use wsaw.Prelude.Assoc
use wsaw.Prelude.Assoc.{MapOrder, in_order}
use wsaw.Model.Request.{Request}
use wsaw.Model.Result.{Result}
use wsaw.Model.Reasons.{
  reason_of, bump, tally_from, beats, pick, pick_all, top_incomplete_reason,
  top_incomplete_reason-order,
}

-- How many requests were not observed for a reason.
unfoldable pub occurrences : Text → List Request → ℕ
unfolding reason_of
occurrences k = count_if (λ q. elim (reason_of q) [ none ↦ false | some j ↦ eqb j k ])

count_of : Text → List (Text × ℕ) → ℕ
count_of k t = elim (Assoc.lookup k t) [ none ↦ 0 | some n ↦ n ]

count_of-bump :
    (k j : Text) (t : List (Text × ℕ))
    → count_of k (bump j t) ≡ count_of k t + (if eqb j k then 1 else 0)
unfolding count_of bump
count_of-bump k j t = ground (
  arith,
  Assoc.lookup-set j k (elim (Assoc.lookup j t) [ none ↦ 1 | some n ↦ n + 1 ]) t,
  eqb_iff j k,
)

count_of-tally :
    (k : Text) (t : List (Text × ℕ)) (qs : List Request)
    → count_of k (tally_from t qs) ≡ count_of k t + occurrences k qs
unfolding tally_from occurrences count_if
count_of-tally k t [] = omega arith
count_of-tally k t (q ∷ qs) = elim (Option-cases (reason_of q)) [
  | inl e ↦ rw (e, tally_from, occurrences, count_if) (omega (arith, count_of-tally k t qs))
  | inr (j, e) ↦
      rw (e, tally_from, occurrences, count_if)
        (omega (arith, count_of-tally k (bump j t) qs, count_of-bump k j t))
]

bump-Unique : (j : Text) (t : List (Text × ℕ)) → Assoc.Unique t → Assoc.Unique (bump j t)
unfolding bump
bump-Unique j t u = Assoc.set-Unique j _ t u

tally-Unique :
    (t : List (Text × ℕ)) (qs : List Request) → Assoc.Unique t → Assoc.Unique (tally_from t qs)
unfolding tally_from
tally-Unique t [] u = u
tally-Unique t (q ∷ qs) u = elim (Option-cases (reason_of q)) [
  | inl e ↦ rw (e, tally_from) (tally-Unique t qs u)
  | inr (j, e) ↦ rw (e, tally_from) (tally-Unique (bump j t) qs (bump-Unique j t u))
]

not-beats_trans : (a b c : Text × ℕ) → beats b a ≡ false → beats c b ≡ false → beats c a ≡ false
unfolding beats
not-beats_trans (a, k) (b, m) (c, n) h h' = ground (arith, less_cotrans c b a)

beats_asymm : (a b : Text × ℕ) → beats a b ≡ true → beats b a ≡ false
unfolding beats
beats_asymm (a, k) (b, m) h = ground (arith, less_asymm a b)

beats_irrefl : (a : Text × ℕ) → beats a a ≡ false
unfolding beats
beats_irrefl (a, k) = ground (arith, less_irrefl a)

pick-best : (b x : Text × ℕ) → (beats b (pick b x) ≡ false) × (beats x (pick b x) ≡ false)
unfolding pick
pick-best b x = ground (arith, beats_asymm x b, beats_irrefl b, beats_irrefl x)

pick_all-best : (b : Text × ℕ) (es : List (Text × ℕ)) → beats b (pick_all b es) ≡ false
unfolding pick_all
pick_all-best b [] = beats_irrefl b
pick_all-best b (e ∷ es) =
    not-beats_trans (pick_all (pick b e) es) (pick b e) b (pick_all-best (pick b e) es)
      (pick-best b e).0

pick_all-entries :
    (b : Text × ℕ) (es : List (Text × ℕ)) (k : Text) (n : ℕ)
    → Assoc.lookup k es ≡ some n
    → beats (k, n) (pick_all b es) ≡ false
unfolding pick_all Assoc.lookup
pick_all-entries b [] k n h = cc
pick_all-entries b ((j, m) ∷ es) k n h = ground (
  arith,
  eqb_iff j k,
  pick_all-entries (pick b (j, m)) es k n,
  not-beats_trans (pick_all (pick b (j, m)) es) (pick b (j, m)) (j, m)
      (pick_all-best (pick b (j, m)) es) (pick-best b (j, m)).1,
)

-- The pick is the start or an entry.
pick_all-from :
    (b : Text × ℕ) (es : List (Text × ℕ))
    → Assoc.Unique es
    → (pick_all b es ≡ b) ⊎ (Assoc.lookup (pick_all b es).0 es ≡ some (pick_all b es).1)
unfolding pick_all Assoc.lookup pick
pick_all-from b [] u = inl refl
pick_all-from b ((j, m) ∷ es) u = ground (
  arith,
  pick_all-from (pick b (j, m)) es u.1,
  eqb_iff j (pick_all (pick b (j, m)) es).0,
  eqb_refl j,
)

-- A reason with its count does not beat the pick.
not-beats_top :
    (k : Text) (t : List (Text × ℕ))
    → 0 < count_of k t
    → beats (k, count_of k t) (pick_all ([], 0) t) ≡ false
unfolding count_of
not-beats_top k t h = elim (Option-cases (Assoc.lookup k t)) [
  | inl e ↦ absurd (ground arith)
  | inr (n, e) ↦ rw (e, count_of) (pick_all-entries ([], 0) t k n e)
]

count-top :
    (t : List (Text × ℕ))
    → Assoc.Unique t
    → (pick_all ([], 0) t).1 ≡ count_of (pick_all ([], 0) t).0 t
unfolding count_of beats
count-top t u = ground (arith, pick_all-from ([], 0) t u, not-beats_top [] t)

top-IsBest :
    (t : List (Text × ℕ)) (k : Text)
    → let top = pick_all ([], 0) t in
      (count_of k t ≤ top.1) × ((ltb 0 top.1 && ((count_of k t == top.1) && less k top.0)) ≡ false)
unfolding beats
top-IsBest t k = (ground (arith, not-beats_top k t), ground (arith, not-beats_top k t))

count_of-tally_from :
    (k : Text) (qs : List Request) → count_of k (tally_from [] qs) ≡ occurrences k qs
unfolding count_of Assoc.lookup
count_of-tally_from k qs = omega (arith, count_of-tally k [] qs)

-- The reason that is reported is the most frequent one, with its number of occurrences; of the
-- reasons that are as frequent it is the first by its bytes.
pub top_incomplete_reason-best :
    (o : MapOrder) (r : Result)
    → let top = top_incomplete_reason o r in
      (top.1 ≡ occurrences top.0 r.requests)
      × ((k : Text)
          → (occurrences k r.requests ≤ top.1)
            × ((ltb 0 top.1 && ((occurrences k r.requests == top.1) && less k top.0)) ≡ false))
unfolding top_incomplete_reason
top_incomplete_reason-best o r =
    rw (top_incomplete_reason-order o in_order r, top_incomplete_reason)
      (
        count-top t (tally-Unique [] r.requests tt) ∙ count_of-tally_from _ r.requests,
        λ k. rw (count_of-tally_from k r.requests) at (top-IsBest t k),
      )
  where
    t : List (Text × ℕ)
    t = tally_from [] r.requests
