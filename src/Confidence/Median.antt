-- ===== src/Confidence/Median.antt =====
-- The median of internal/confidence/confidence.go, which the duration of a scan is held against.
use mathlib.Core.List.{Permᴰ}
use wsaw.Prelude.{
  ℕ, zero, suc, ◌-◌, ◌/◌, ◌≤◌, ◌<◌, ◌≡◌, refl, ap, ◌∙◌, true, List, [], ◌∷◌, arith, ltb, length,
  All, All-Permᴰ, Permᴰ-sym, keep_if,
}
use wsaw.Prelude.Sort.{sort_stable, sort_stable-Permᴰ, sort_stable-eq, IsOrder, tie}
use wsaw.Confidence.{median_of, get_or_zero}

ltb-IsOrder : IsOrder ltb
ltb-IsOrder = record { asymm = λ a b. ground arith; cotrans = λ a b c. ground arith }

length-Permᴰ : {xs ys : List ℕ} → Permᴰ xs ys → length xs ≡ length ys
length-Permᴰ Permᴰ.nil = refl
length-Permᴰ (Permᴰ.cons e r) = ap suc (length-Permᴰ r)
length-Permᴰ (Permᴰ.swap e f) = refl
length-Permᴰ (Permᴰ.trans r s) = length-Permᴰ r ∙ length-Permᴰ s

get_or_zero-All :
    (P : ℕ → Type 0) (xs : List ℕ) (i : ℕ) → i < length xs → All P xs → P (get_or_zero xs i)
get_or_zero-All P [] i h a = absurd (omega arith)
get_or_zero-All P (x ∷ xs) zero h a = a.0
get_or_zero-All P (x ∷ xs) (suc i) h a = get_or_zero-All P xs i (omega arith) a.1

-- The median of at least one duration, all of which lie between two bounds, lies between them.
pub median_of-bounds :
    (lo hi : ℕ) (ds : List ℕ)
    → 0 < length ds
    → All (λ d. (lo ≤ d) × (d ≤ hi)) ds
    → (lo ≤ median_of ds) × (median_of ds ≤ hi)
unfolding median_of
median_of-bounds lo hi ds pos h = ground (arith, at (length ds / 2), at (length ds / 2 - 1), same)
  where
    same : length (sort_stable ltb ds) ≡ length ds
    same = length-Permᴰ (sort_stable-Permᴰ ltb ltb-IsOrder ds)

    at :
        (i : ℕ)
        → i < length ds
        → (lo ≤ get_or_zero (sort_stable ltb ds) i) × (get_or_zero (sort_stable ltb ds) i ≤ hi)
    at i hi =
        get_or_zero-All _ (sort_stable ltb ds) i (omega (arith, same))
          (All-Permᴰ _ (Permᴰ-sym (sort_stable-Permᴰ ltb ltb-IsOrder ds)) h)

tie→≡ : (a b : ℕ) → tie ltb a b ≡ true → a ≡ b
tie→≡ a b h = ground arith

keep_if-tie :
    (a : ℕ) {xs ys : List ℕ} → Permᴰ xs ys → keep_if (tie ltb a) xs ≡ keep_if (tie ltb a) ys
unfolding keep_if
keep_if-tie a Permᴰ.nil = refl
keep_if-tie a (Permᴰ.cons e r) = ground (arith, keep_if-tie a r)
keep_if-tie a (Permᴰ.swap e f) = ground arith
keep_if-tie a (Permᴰ.trans r s) = keep_if-tie a r ∙ keep_if-tie a s

-- The median does not depend on the order in which the earlier scans are listed.
pub median_of-perm : {ds ds' : List ℕ} → Permᴰ ds ds' → median_of ds ≡ median_of ds'
unfolding median_of
median_of-perm {ds} {ds'} p =
    rw (length-Permᴰ p, sort_stable-eq ltb ltb-IsOrder ds ds' (λ a. keep_if-tie a p))
