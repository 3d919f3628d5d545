-- ===== src/Robots.antt =====
-- internal/robots/robots.go: parsing robots.txt and deciding whether a path may be fetched. The lines
-- are those that bufio.Scanner gives; fetching and caching the file is I/O.
pub mod Laws
use wsaw.Prelude.{
  ℕ, ◌+◌, Bool, true, false, not, ◌&&◌, ◌||◌, Option, none, some, List, [], ◌∷◌, ◌++◌,
  if◌then◌else◌, ltb, leb, ◌==◌, length, any,
}
use wsaw.Prelude.Text.{
  Text, bytes, eqb, is_empty, has_prefix, has_suffix, trim_prefix, trim_suffix, trim_space,
  to_lower, after_first, cut,
}

pub record Group : Type 0 where
  pub agents : List Text
  pub allow : List Text
  pub disallow : List Text

-- `Rules`, the groups in the order of the file, and the two variables of the loop of `Parse`: the
-- last group is `current`, if there is one.
pub record Parsing : Type 0 where
  pub groups : List Group
  pub current : Option Group
  pub saw_rule : Bool

-- The groups before `current`, and `current` itself.
unfoldable pub all_groups : Parsing → List Group
all_groups s = elim s.current [ none ↦ s.groups | some g ↦ s.groups ++ g ∷ [] ]

-- A line without its comment.
unfoldable pub uncomment : Text → Text
uncomment line = elim (cut b'#' line) [ none ↦ line | some parts ↦ parts.0 ]

unfoldable pub user_agent : Text → Parsing → Parsing
unfolding all_groups
user_agent agent s = elim s.current [
  | none ↦ record {
    groups = s.groups;
    current = some (record { agents = agent ∷ []; allow = []; disallow = [] });
    saw_rule = false;
  }
  | some g ↦
      if s.saw_rule
      then record {
        groups = s.groups ++ g ∷ [];
        current = some (record { agents = agent ∷ []; allow = []; disallow = [] });
        saw_rule = false;
      }
      else record s { current = some (record g { agents = g.agents ++ agent ∷ [] }) }
]

unfoldable pub rule : Bool → Text → Parsing → Parsing
rule allows value s = elim s.current [
  | none ↦ s
  | some g ↦ record {
    groups = s.groups;
    current = some (
        if allows
        then record g { allow = g.allow ++ value ∷ [] }
        else record g { disallow = g.disallow ++ value ∷ [] });
    saw_rule = true;
  }
]

-- One pass of the loop. The crawl delay, which nothing here reads, is left out.
unfoldable pub parse_line : Parsing → Text → Parsing
unfolding user_agent rule uncomment
parse_line s raw =
    let line = trim_space (uncomment raw) in
    elim (cut b':' line) [
      | none ↦ s
      | some (field, value) ↦
          let name = to_lower (trim_space field) in
          if eqb name (bytes "user-agent")
          then user_agent (to_lower (trim_space value)) s
          else if eqb name (bytes "disallow")
          then rule false (trim_space value) s
          else if eqb name (bytes "allow")
          then rule true (trim_space value) s
          else s
    ]

unfoldable pub parse_from : Parsing → List Text → Parsing
unfolding parse_line
parse_from s [] = s
parse_from s (l ∷ ls) = parse_from (parse_line s l) ls

unfoldable pub parse : List Text → List Group
unfolding parse_from
parse ls = all_groups (parse_from (record { groups = []; current = none; saw_rule = false }) ls)

-- The loop over the agents of one group: an exact match, or the last wildcard.
unfoldable pub names : Text → Group → Bool
names agent g = any (λ a. eqb a agent) g.agents

unfoldable pub group_from : Option Group → List Group → Text → Option Group
unfolding names
group_from wildcard [] agent = wildcard
group_from wildcard (g ∷ gs) agent =
    let rest = group_from (if names (bytes "*") g then some g else wildcard) gs agent in
    if names agent g then some g else rest

unfoldable pub group_for : List Group → Text → Option Group
unfolding group_from
group_for = group_from none

-- `strings.Split(pattern, "*")`: the first part and the others.
unfoldable pub split_stars : Text → Text × List Text
split_stars [] = ([], [])
split_stars (c ∷ s) =
    let rest = split_stars s in if c == b'*' then ([], rest.0 ∷ rest.1) else (c ∷ rest.0, rest.1)

-- The loop over the parts after the first: what is left of the path, if every part is found.
unfoldable pub find_parts : List Text → Text → Option Text
find_parts [] path = some path
find_parts (p ∷ ps) path =
    if is_empty p
    then find_parts ps path
    else elim (after_first p path) [ none ↦ none | some rest ↦ find_parts ps rest ]

abbrev last_empty : List Text → Bool
last_empty [] = false
last_empty (p ∷ []) = is_empty p
last_empty (p ∷ q ∷ ps) = last_empty (q ∷ ps)

-- `matchPattern`; a path is left by cutting off what is matched.
unfoldable pub match_pattern : Text → Text → Bool
unfolding split_stars find_parts
match_pattern pattern path =
    let anchored = has_suffix pattern (bytes "$") in
    let parts = split_stars (if anchored then trim_suffix pattern (bytes "$") else pattern) in
    if not (has_prefix path parts.0)
    then false
    else elim (find_parts parts.1 (trim_prefix path parts.0)) [
      | none ↦ false
      | some rest ↦ if anchored then last_empty parts.1 || is_empty rest else true
    ]

-- The loop of `longestMatch`. Integers are one more than in the source, where it starts at -1.
unfoldable pub longest_from : ℕ → List Text → Text → ℕ
longest_from best [] path = best
longest_from best (p ∷ ps) path =
    longest_from
      (if is_empty p
        then (if ltb best 1 then 1 else best)
        else if match_pattern p path && ltb best (length p + 1)
        then length p + 1
        else best)
      ps path

unfoldable pub longest_match : List Text → Text → ℕ
unfolding longest_from
longest_match = longest_from 0

-- `Allowed`, once the group is found.
unfoldable pub group_allows : Group → Text → Bool
unfolding longest_match
group_allows g path =
    let best_allow = longest_match g.allow path in
    let best_disallow = longest_match g.disallow path in
    if best_disallow == 0
    then true
    else if best_disallow == 1
    then true
    else leb best_disallow best_allow

unfoldable pub allowed : List Group → Text → Text → Bool
unfolding group_for group_allows
allowed groups agent path = elim (group_for groups (to_lower agent)) [
  | none ↦ true
  | some g ↦ group_allows g (if is_empty path then bytes "/" else path)
]
