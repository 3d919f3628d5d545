-- ===== src/Model/Reasons.antt =====
-- `TopIncompleteReason` of internal/model/result.go: the tally of the reasons for which requests
-- were not observed, and the most frequent one.
pub mod Best
use mathlib.Core.List.{Permᴰ}
use wsaw.Prelude.{
  ℕ, ◌+◌, ◌≤◌, ◌<◌, ◌≡◌, refl, sym, ap, ◌∙◌, ◌⊎◌, inl, inr, Bool, true, false, ◌&&◌, ◌||◌, List, [],
  ◌∷◌, Option, none, some, arith, if◌then◌else◌, ltb, ◌==◌, count_if, Option-cases,
}
use wsaw.Prelude.Text.{
  Text, less, less_asymm, less_cotrans, less_irrefl, eq_of_not-less, eqb, eqb_iff, eqb_refl,
}
use wsaw.Prelude.Assoc
use wsaw.Prelude.Assoc.{MapOrder, in_order}
use wsaw.Model.Request.{Request, capture_failure, never_completed, reason_never_completed}
use wsaw.Model.Result.{Result}

-- The reason that the `switch` counts a request under.
unfoldable pub reason_of : Request → Option Text
reason_of q =
    if capture_failure q
    then some q.failure_reason
    else if never_completed q
    then some reason_never_completed
    else none

-- `tally[reason]++`
unfoldable pub bump : Text → List (Text × ℕ) → List (Text × ℕ)
bump reason t = Assoc.set reason (elim (Assoc.lookup reason t) [ none ↦ 1 | some n ↦ n + 1 ]) t

unfoldable pub tally_from : List (Text × ℕ) → List Request → List (Text × ℕ)
unfolding reason_of bump
tally_from t [] = t
tally_from t (q ∷ qs) =
    tally_from (elim (reason_of q) [ none ↦ t | some reason ↦ bump reason t ]) qs

-- The test of the second loop.
unfoldable pub beats : Text × ℕ → Text × ℕ → Bool
beats (candidate, n) (reason, count) = ltb count n || (n == count && less candidate reason)

unfoldable pub pick : Text × ℕ → Text × ℕ → Text × ℕ
unfolding beats
pick best entry = if beats entry best then entry else best

unfoldable pub pick_all : Text × ℕ → List (Text × ℕ) → Text × ℕ
unfolding pick
pick_all best [] = best
pick_all best (e ∷ es) = pick_all (pick best e) es

unfoldable pub top_incomplete_reason : MapOrder → Result → Text × ℕ
unfolding pick_all tally_from
top_incomplete_reason order r = pick_all ([], 0) (order.visit 0 (tally_from [] r.requests))

pick_swap : (b x y : Text × ℕ) → pick (pick b x) y ≡ pick (pick b y) x
unfolding pick
pick_swap (b, k) (x, m) (y, n) = ground (
  arith,
  less_asymm x y,
  less_asymm x b,
  less_asymm y b,
  less_asymm b x,
  less_asymm b y,
  less_asymm y x,
  less_cotrans x b y,
  less_cotrans y b x,
  less_cotrans x y b,
  less_cotrans y x b,
  less_cotrans b x y,
  less_cotrans b y x,
  eq_of_not-less x y,
)

pick_all-perm :
    {xs ys : List (Text × ℕ)} (b : Text × ℕ) → Permᴰ xs ys → pick_all b xs ≡ pick_all b ys
unfolding pick_all
pick_all-perm b Permᴰ.nil = refl
pick_all-perm b (Permᴰ.cons {a = x} {b = y} {l₂ = ys} e r) =
    pick_all-perm (pick b x) r ∙ ap (λ z. pick_all (pick b z) ys) e
pick_all-perm b (Permᴰ.swap {a = x} {b = y} {l = l} e f) =
    ap (λ c. pick_all c l) (pick_swap b x y ∙ (rw (e, f)))
pick_all-perm b (Permᴰ.trans r s) = pick_all-perm b r ∙ pick_all-perm b s

-- The reason that a degradation report names does not depend on the order in which Go visits the
-- tally.
pub top_incomplete_reason-order :
    (o o' : MapOrder) (r : Result) → top_incomplete_reason o r ≡ top_incomplete_reason o' r
unfolding top_incomplete_reason
top_incomplete_reason-order o o' r =
    sym (pick_all-perm ([], 0) (o.visit-Permᴰ 0 _)) ∙ pick_all-perm ([], 0) (o'.visit-Permᴰ 0 _)
