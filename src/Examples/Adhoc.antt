-- ===== src/Examples/Adhoc.antt =====
-- Typed URLs under a resolver that knows two names (internal/adhoc).
use wsaw.Prelude.{
  ◌≡◌, refl, ◌≤◌, true, false, ◌||◌, not, any, none, some, [], ◌∷◌, arith, if◌then◌else◌, length,
}
use wsaw.Prelude.Text.{
  Text, bytes, eqb, has_prefix, has_suffix, trim_space, trim_left, trim_prefix, trim_suffix,
  to_lower, is_space, lower,
}
use wsaw.Adhoc.{
  Net, Url, accepted, refused, not_public, loopback_name, name, name_bytes, name_byte, is_name_byte,
  trim_edges, trim_edges_left, parse, check_url, accept_url, accept, is_loopback_name,
  first_private, check_host, check_resolved, check_addrs,
}
use wsaw.Adhoc.Addresses.{is_public, to4, special_v4, is_public_v4}
use wsaw.Adhoc.Blocks.{is_public-blocks, in_block, number, blocks}
use wsaw.Adhoc.Laws.{accept-public, host_public}
use wsaw.Adhoc.Names.{name-IsName, IsName}
use wsaw.Adhoc.Runes.{runes, runes_after, first_rune, extra_bytes}

abbrev url_of : Text → Url
url_of host = record { scheme = bytes "https"; host = host; has_user = false; hostname = host }

abbrev shop : Net
shop = record {
  parse_url = λ raw.
      if has_prefix raw (bytes "https://a")
      then some (url_of (bytes "a"))
      else if has_prefix raw (bytes "https://b")
      then some (url_of (bytes "b"))
      else some (url_of (bytes "x.localhost."));
  parse_ip = λ _. none;
  lookup_ip = λ host.
      if eqb host (bytes "a")
      then some ((93 ∷ 184 ∷ 216 ∷ 34 ∷ []) ∷ [])
      else some ((93 ∷ 184 ∷ 216 ∷ 34 ∷ []) ∷ (169 ∷ 254 ∷ 169 ∷ 254 ∷ []) ∷ []);
}

abbrev typed : Text
typed = bytes " https://a/x?y "

typed_name : accept shop false typed ≡ accepted (bytes "a-x-y")
unfolding accept parse check_url accept_url check_host check_resolved check_addrs first_private
    is_public to4 special_v4 is_public_v4 is_loopback_name name name_bytes name_byte is_name_byte
    runes runes_after first_rune extra_bytes trim_edges trim_edges_left eqb has_prefix has_suffix
    trim_space trim_left is_space trim_prefix trim_suffix to_lower lower
typed_name = refl

one_private :
    accept shop false (bytes "https://b")
    ≡ refused (not_public (bytes "b") (169 ∷ 254 ∷ 169 ∷ 254 ∷ []))
unfolding accept parse check_url accept_url check_host check_resolved check_addrs first_private
    is_public to4 special_v4 is_public_v4 is_loopback_name name name_bytes name_byte is_name_byte
    runes runes_after first_rune extra_bytes trim_edges trim_edges_left eqb has_prefix has_suffix
    trim_space trim_left is_space trim_prefix trim_suffix to_lower lower
one_private = refl

this_machine :
    accept shop false (bytes "https://c") ≡ refused (loopback_name (bytes "x.localhost."))
unfolding accept parse check_url accept_url check_host check_resolved check_addrs first_private
    is_public to4 special_v4 is_public_v4 is_loopback_name name name_bytes name_byte is_name_byte
    runes runes_after first_rune extra_bytes trim_edges trim_edges_left eqb has_prefix has_suffix
    trim_space trim_left is_space trim_prefix trim_suffix to_lower lower
this_machine = refl

allowed : accept shop true (bytes "https://b") ≡ accepted (bytes "b")
unfolding accept parse check_url accept_url check_host check_resolved check_addrs first_private
    is_public to4 special_v4 is_public_v4 is_loopback_name name name_bytes name_byte is_name_byte
    runes runes_after first_rune extra_bytes trim_edges trim_edges_left eqb has_prefix has_suffix
    trim_space trim_left is_space trim_prefix trim_suffix to_lower lower
allowed = refl

mapped_loopback :
    is_public (0 ∷ 0 ∷ 0 ∷ 0 ∷ 0 ∷ 0 ∷ 0 ∷ 0 ∷ 0 ∷ 0 ∷ 255 ∷ 255 ∷ 127 ∷ 0 ∷ 0 ∷ 1 ∷ []) ≡ false
unfolding accept parse check_url accept_url check_host check_resolved check_addrs first_private
    is_public to4 special_v4 is_public_v4 is_loopback_name name name_bytes name_byte is_name_byte
    runes runes_after first_rune extra_bytes trim_edges trim_edges_left eqb has_prefix has_suffix
    trim_space trim_left is_space trim_prefix trim_suffix to_lower lower
mapped_loopback = refl

broken_runes : runes (195 ∷ 169 ∷ 255 ∷ 97 ∷ []) ≡ (233 ∷ 65533 ∷ 97 ∷ [])
unfolding accept parse check_url accept_url check_host check_resolved check_addrs first_private
    is_public to4 special_v4 is_public_v4 is_loopback_name name name_bytes name_byte is_name_byte
    runes runes_after first_rune extra_bytes trim_edges trim_edges_left eqb has_prefix has_suffix
    trim_space trim_left is_space trim_prefix trim_suffix to_lower lower
broken_runes = refl

accept-public_example :
    (u : Url) × (shop.parse_url (trim_space typed) ≡ some u)
    × ((eqb u.scheme (bytes "http") || eqb u.scheme (bytes "https")) ≡ true)
    × (u.has_user ≡ false)
    × (bytes "a-x-y" ≡ name (trim_space typed))
    × (is_loopback_name u.hostname ≡ false)
    × (host_public shop u.hostname ≡ true)
accept-public_example = accept-public shop typed (bytes "a-x-y") typed_name

is_public-blocks_example :
    is_public (198 ∷ 19 ∷ 255 ∷ 1 ∷ []) ≡ not (any (in_block (number 198 19 255 1)) blocks)
is_public-blocks_example =
    is_public-blocks 198 19 255 1 (omega arith) (omega arith) (omega arith) (omega arith)

name-IsName_example : IsName (name typed) × (length (name typed) ≤ 80)
name-IsName_example = name-IsName typed
