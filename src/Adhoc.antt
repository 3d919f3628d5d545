-- ===== src/Adhoc.antt =====
-- internal/adhoc/adhoc.go: which typed URLs are scanned, and under what name. url.Parse, the parser
-- of addresses and the resolver are parameters.
pub mod Addresses
pub mod Blocks
pub mod Laws
pub mod Names
pub mod Runes
use wsaw.Prelude.{
  ℕ, Bool, true, false, not, ◌&&◌, ◌||◌, Option, none, some, List, [], ◌∷◌, ltb, leb, ◌==◌,
  if◌then◌else◌, length, take,
}
use wsaw.Prelude.Text.{
  Text, bytes, eqb, is_empty, has_prefix, has_suffix, trim_prefix, trim_suffix, trim_space,
  to_lower,
}
use mathlib.Core.List.{reverse}
use wsaw.Adhoc.Addresses.{Ip, is_public}
use wsaw.Adhoc.Runes.{runes}

pub data Refusal : Type 0 where
  no_url too_long not_valid no_scheme no_host credentials no_name : Refusal
  bad_scheme : Text → Refusal
  loopback_name unresolved no_address : Text → Refusal
  not_public : Text → Ip → Refusal

pub data Answer {ℓ} (A : Type ℓ) : Type ℓ where
  accepted : A → Answer A
  refused : Refusal → Answer A

-- What the code reads of a parsed URL.
pub record Url : Type 0 where
  pub scheme : Text
  pub host : Text
  pub has_user : Bool
  pub hostname : Text

-- The libraries: url.Parse, net.ParseIP and the lookup of a name.
pub record Net : Type 0 where
  pub parse_url : Text → Option Url
  pub parse_ip : Text → Option Ip
  pub lookup_ip : Text → Option (List Ip)

abbrev pub max_url_length : ℕ
max_url_length = 2048

abbrev pub max_name : ℕ
max_name = 80

-- The bytes that a name may hold.
unfoldable pub is_name_byte : ℕ → Bool
is_name_byte c =
    (leb b'a' c && leb c b'z')
    || (leb b'A' c && leb c b'Z')
    || (leb b'0' c && leb c b'9')
    || c == b'-'
    || c == b'.'
    || c == b'_'

unfoldable pub name_byte : ℕ → ℕ
name_byte c = if is_name_byte c then c else b'-'

unfoldable pub name_bytes : List ℕ → Text
name_bytes [] = []
name_bytes (c ∷ s) = name_byte c ∷ name_bytes s

abbrev pub is_edge : ℕ → Bool
is_edge c = c == b'-' || c == b'.'

-- `strings.Trim(s, "-.")`
unfoldable pub trim_edges_left : Text → Text
trim_edges_left [] = []
trim_edges_left (c ∷ s) = if is_edge c then trim_edges_left s else c ∷ s

unfoldable pub trim_edges : Text → Text
trim_edges s = reverse (trim_edges_left (reverse (trim_edges_left s)))

-- `strings.ToLower(strings.TrimSuffix(host, "."))` names this machine.
unfoldable pub is_loopback_name : Text → Bool
is_loopback_name host =
    let h = to_lower (trim_suffix host (bytes ".")) in
    eqb h (bytes "localhost") || has_suffix h (bytes ".localhost")

-- The first address that is not public.
unfoldable pub first_private : List Ip → Option Ip
first_private [] = none
first_private (a ∷ addrs) = if is_public a then first_private addrs else some a

unfoldable pub name : Text → Text
name raw =
    let trimmed = trim_prefix (trim_prefix (trim_space raw) (bytes "https://")) (bytes "http://") in
    take max_name (trim_edges (name_bytes (runes (trim_suffix trimmed (bytes "/")))))

module _ (net : Net) where
  unfoldable pub check_url : Url → Answer Url
  check_url u =
      if is_empty u.scheme
      then refused no_scheme
      else if not (eqb u.scheme (bytes "http") || eqb u.scheme (bytes "https"))
      then refused (bad_scheme u.scheme)
      else if is_empty u.host
      then refused no_host
      else if u.has_user
      then refused credentials
      else accepted u

  unfoldable pub parse : Text → Answer Url
  parse raw =
      if is_empty raw
      then refused no_url
      else if ltb max_url_length (length raw)
      then refused too_long
      else elim (net.parse_url raw) [ none ↦ refused not_valid | some u ↦ check_url u ]

  -- The addresses of a name, every one of which has to be public.
  unfoldable pub check_addrs : Text → List Ip → Option Refusal
  check_addrs host [] = some (no_address host)
  check_addrs host (a ∷ addrs) = elim (first_private (a ∷ addrs)) [
    | none ↦ none
    | some b ↦ some (not_public host b)
  ]

  unfoldable pub check_resolved : Text → Option Refusal
  check_resolved host = elim (net.parse_ip host) [
    | some ip ↦ if is_public ip then none else some (not_public host ip)
    | none ↦ elim (net.lookup_ip host) [
      | none ↦ some (unresolved host)
      | some addrs ↦ check_addrs host addrs
    ]
  ]

  -- No refusal is the answer nil.
  unfoldable pub check_host : Bool → Text → Option Refusal
  check_host allow_private host =
      if is_empty host
      then some no_host
      else if allow_private
      then none
      else if is_loopback_name host
      then some (loopback_name host)
      else check_resolved host

  abbrev pub answer_of : Text → Option Refusal → Answer Text
  answer_of n none = accepted n
  answer_of n (some r) = refused r

  unfoldable pub accept_url : Bool → Text → Url → Answer Text
  accept_url allow_private raw u =
      if is_empty (name raw)
      then refused no_name
      else answer_of (name raw) (check_host allow_private u.hostname)

  unfoldable pub accept : Bool → Text → Answer Text
  accept allow_private raw_url =
      let raw = trim_space raw_url in
      elim (parse raw) [ refused r ↦ refused r | accepted u ↦ accept_url allow_private raw u ]
