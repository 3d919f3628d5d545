-- ===== src/Examples/Robots.antt =====
-- A robots.txt and the paths that it refuses (internal/robots).
use wsaw.Prelude.{◌≡◌, refl, true, false, not, [], ◌∷◌, any}
use wsaw.Prelude.Text.{
  bytes, eqb, has_prefix, has_suffix, trim_prefix, trim_suffix, trim_space, to_lower, after_first,
  cut,
}
use wsaw.Robots.{
  Group, parse, parse_line, uncomment, user_agent, rule, all_groups, split_stars, find_parts,
  match_pattern, group_allows,
}
use wsaw.Robots.Laws.{refuses, group_allows-refuses}

abbrev shop : Group
shop = record {
  agents = bytes "*" ∷ [];
  allow = bytes "/p/a" ∷ [];
  disallow = bytes "/p" ∷ bytes "/*.php$" ∷ [] ∷ [];
}

group_allows-refuses_example :
    group_allows shop (bytes "/p/b") ≡ not (any (refuses shop.allow (bytes "/p/b")) shop.disallow)
group_allows-refuses_example = group_allows-refuses shop (bytes "/p/b")

-- A blank line between two agents does not end their group.
one_group :
    parse (bytes "User-agent: a" ∷ [] ∷ bytes "User-agent: b # bot" ∷ bytes "Disallow: /x" ∷ [])
    ≡ record { agents = bytes "a" ∷ bytes "b" ∷ []; allow = []; disallow = bytes "/x" ∷ [] } ∷ []
unfolding parse parse_line uncomment user_agent rule all_groups cut trim_space to_lower eqb
one_group = refl

-- The leftmost match of the last part before `$` is taken, and the pattern misses a path that ends in
-- it again.
php : match_pattern (bytes "/*.php$") (bytes "/a.php") ≡ true
unfolding match_pattern split_stars find_parts has_suffix trim_suffix trim_prefix has_prefix
    after_first
php = refl

php_twice : match_pattern (bytes "/*.php$") (bytes "/a.php.php") ≡ false
unfolding match_pattern split_stars find_parts has_suffix trim_suffix trim_prefix has_prefix
    after_first
php_twice = refl
