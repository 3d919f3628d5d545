-- ===== src/Robots/Laws.antt =====
-- What internal/robots/robots.go refuses.
use wsaw.Prelude.{
  ℕ, ◌+◌, ◌≡◌, refl, ◌∙◌, Bool, not, ◌&&◌, ◌||◌, List, [], ◌∷◌, if◌then◌else◌, ltb, leb, length,
  any, max, arith,
}
use wsaw.Prelude.Text.{Text, is_empty}
use wsaw.Robots.{Group, match_pattern, longest_from, longest_match, group_allows}

-- A rule applies to a path; the empty one applies to all.
unfoldable pub applies : Text → Text → Bool
applies path p = is_empty p || match_pattern p path

longest-reaches :
    (n best : ℕ) (ps : List Text) (path : Text)
    → leb n (longest_from best ps path)
      ≡ (leb n best || any (λ p. applies path p && leb n (length p + 1)) ps)
unfolding longest_from any applies
longest-reaches n best [] path = ground arith
longest-reaches n best ([] ∷ ps) path =
    ground (arith, longest-reaches n (if ltb best 1 then 1 else best) ps path)
longest-reaches n best ((c ∷ t) ∷ ps) path =
    let p : Text = c ∷ t in
    ground (
      arith,
      longest-reaches n
          (if match_pattern p path && ltb best (length p + 1) then length p + 1 else best) ps path,
    )

-- Some rule of a list applies and is as long as a number at least.
longest_match-reaches :
    (n : ℕ) (ps : List Text) (path : Text)
    → leb (n + 1) (longest_match ps path)
      ≡ any (λ p. applies path p && leb (n + 1) (length p + 1)) ps
unfolding longest_match
longest_match-reaches n ps path = longest-reaches (n + 1) 0 ps path ∙ ground arith

any-cong {ℓ} :
    {A : Type ℓ} (f g : A → Bool) (xs : List A) → ((x : A) → f x ≡ g x) → any f xs ≡ any g xs
unfolding any
any-cong f g [] h = refl
any-cong f g (x ∷ xs) h = ground (arith, h x, any-cong f g xs h)

-- A Disallow rule that refuses a path: it is not empty, applies, and no Allow rule that applies is as
-- long.
unfoldable pub refuses : List Text → Text → Text → Bool
unfolding applies
refuses allow path p =
    not (is_empty p)
    && (applies path p
        && not (any (λ q. applies path q && leb (length p + 1) (length q + 1)) allow))

refuses-long :
    (allow : List Text) (path p : Text)
    → refuses allow path p
      ≡ (applies path p && leb (max (longest_match allow path) 1 + 1) (length p + 1))
unfolding refuses
refuses-long allow path [] = ground arith
refuses-long allow path (c ∷ t) = ground (arith, longest_match-reaches (length (c ∷ t)) allow path)

-- The rules of a group refuse a path exactly when there is a Disallow rule that refuses it: the
-- longest rule wins, an Allow rule wins a tie, and an empty Disallow refuses nothing. The order of
-- the rules does not matter.
pub group_allows-refuses :
    (g : Group) (path : Text) → group_allows g path ≡ not (any (refuses g.allow path) g.disallow)
unfolding group_allows
group_allows-refuses g path =
    let most = max (longest_match g.allow path) 1 in
    ground (
      arith,
      any-cong (refuses g.allow path) (λ p. applies path p && leb (most + 1) (length p + 1))
          g.disallow (refuses-long g.allow path),
      longest_match-reaches most g.disallow path,
    )
