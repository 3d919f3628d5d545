-- ===== src/Diff/HostList.antt =====
-- internal/diff/rules.go: allow and deny lists of hosts.
pub mod Laws
use wsaw.Prelude.{Bool, true, false, not, ◌&&◌, ◌||◌, List, [], ◌∷◌, ◌++◌, any, if◌then◌else◌}
use wsaw.Prelude.Text.{
  Text, bytes, eqb, is_empty, to_lower, trim_space, trim_prefix, has_prefix, has_suffix,
}
use wsaw.Classify.{Domains, registrable_domain, mem}
use wsaw.Diff.Change.{Change, ChangeType}

pub record HostList : Type 0 where
  pub exact : List Text
  pub suffixes : List Text

-- The loop of `NewHostList`.
unfoldable pub add_patterns : HostList → List Text → HostList
add_patterns l [] = l
add_patterns l (raw ∷ rest) =
    let p = to_lower (trim_space raw) in
    add_patterns
      (if is_empty p
        then l
        else if has_prefix p (bytes "*.")
        then record l { suffixes = l.suffixes ++ trim_prefix p (bytes "*.") ∷ [] }
        else record { exact = p ∷ l.exact; suffixes = l.suffixes ++ p ∷ [] })
      rest

unfoldable pub new_host_list : List Text → HostList
unfolding add_patterns
new_host_list patterns = add_patterns (record { exact = []; suffixes = [] }) patterns

abbrev is_nil : List Text → Bool
is_nil [] = true
is_nil (x ∷ xs) = false

-- `Empty`.
unfoldable pub list_empty : HostList → Bool
list_empty l = is_nil l.exact && is_nil l.suffixes

-- One suffix of the loop of `Matches`.
unfoldable pub under : Text → Text → Bool
unfolding has_suffix
under host suffix = eqb host suffix || has_suffix host (bytes "." ++ suffix)

unfoldable pub matches : Domains → HostList → Text → Bool
unfolding under mem registrable_domain
matches d l raw =
    if is_empty raw
    then false
    else let host = to_lower raw in
      let domain = registrable_domain d host in
      mem host l.exact
      || ((not (eqb domain host) && mem domain l.exact) || any (under host) l.suffixes)

-- The changes about the program's own ability to observe, which no allow list hides.
abbrev pub is_own : ChangeType → Bool
is_own ChangeType.consent_changed = true
is_own ChangeType.scan_degraded = true
is_own ChangeType.denied_host = true
is_own _ = false

-- `Suppresses`.
unfoldable pub suppresses : Domains → HostList → Change → Bool
unfolding matches list_empty
suppresses d l c =
    if list_empty l || is_empty c.domain
    then false
    else if is_own c.type
    then false
    else matches d l c.domain
