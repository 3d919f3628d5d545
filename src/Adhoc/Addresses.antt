-- ===== src/Adhoc/Addresses.antt =====
-- isPublic and isPublicV4 of internal/adhoc/adhoc.go, with the predicates of net.IP that they ask.
-- An address is its four or sixteen bytes.
use wsaw.Prelude.{
  ◌/◌, Bool, true, false, not, ◌&&◌, ◌||◌, Option, none, some, [], ◌∷◌, leb, ◌==◌, if◌then◌else◌,
  drop, length,
}
use wsaw.Prelude.Text.{Text, eqb, has_prefix, is_empty}

abbrev pub Ip : Type 0
Ip = Text

-- Ten zeros and two times 255: an IPv4 address in the form of an IPv6 one.
abbrev pub mapped_prefix : Text
mapped_prefix = 0 ∷ 0 ∷ 0 ∷ 0 ∷ 0 ∷ 0 ∷ 0 ∷ 0 ∷ 0 ∷ 0 ∷ 255 ∷ 255 ∷ []

-- `To4`
unfoldable pub to4 : Ip → Option Ip
to4 ip =
    if length ip == 4
    then some ip
    else if length ip == 16 && has_prefix ip mapped_prefix
    then some (drop 12 ip)
    else none

abbrev pub is_loopback_v4 : Ip → Bool
is_loopback_v4 (a ∷ _) = a == 127
is_loopback_v4 [] = false

abbrev pub is_unspecified_v4 : Ip → Bool
is_unspecified_v4 (a ∷ b ∷ c ∷ d ∷ _) = a == 0 && b == 0 && c == 0 && d == 0
is_unspecified_v4 _ = false

abbrev pub is_private_v4 : Ip → Bool
is_private_v4 (a ∷ b ∷ _) = a == 10 || (a == 172 && b / 16 == 1) || (a == 192 && b == 168)
is_private_v4 _ = false

abbrev pub is_link_local_v4 : Ip → Bool
is_link_local_v4 (a ∷ b ∷ _) = a == 169 && b == 254
is_link_local_v4 _ = false

-- The link-local groups are among the multicast ones.
abbrev pub is_multicast_v4 : Ip → Bool
is_multicast_v4 (a ∷ _) = a / 16 == 14
is_multicast_v4 [] = false

-- The ranges of the switch.
unfoldable pub is_public_v4 : Ip → Bool
is_public_v4 (a ∷ b ∷ c ∷ d ∷ _) =
    if a == 0
    then false
    else if a == 100 && leb 64 b && leb b 127
    then false
    else if a == 192 && b == 0 && c == 0
    then false
    else if a == 198 && (b == 18 || b == 19)
    then false
    else true
is_public_v4 _ = true

unfoldable pub special_v4 : Ip → Bool
special_v4 ip =
    is_loopback_v4 ip
    || is_unspecified_v4 ip
    || is_private_v4 ip
    || is_link_local_v4 ip
    || is_multicast_v4 ip

abbrev pub loopback_v6 : Ip
loopback_v6 = 0 ∷ 0 ∷ 0 ∷ 0 ∷ 0 ∷ 0 ∷ 0 ∷ 0 ∷ 0 ∷ 0 ∷ 0 ∷ 0 ∷ 0 ∷ 0 ∷ 0 ∷ 1 ∷ []

abbrev pub unspecified_v6 : Ip
unspecified_v6 = 0 ∷ 0 ∷ 0 ∷ 0 ∷ 0 ∷ 0 ∷ 0 ∷ 0 ∷ 0 ∷ 0 ∷ 0 ∷ 0 ∷ 0 ∷ 0 ∷ 0 ∷ 0 ∷ []

-- fc00::/7, fe80::/10 and ff00::/8; the scoped groups are among the multicast ones.
abbrev pub is_reserved_v6 : Ip → Bool
is_reserved_v6 (a ∷ b ∷ _) = a / 2 == 126 || (a == 254 && b / 64 == 2) || a == 255
is_reserved_v6 _ = false

unfoldable pub special_v6 : Ip → Bool
special_v6 ip =
    eqb ip loopback_v6 || eqb ip unspecified_v6 || (length ip == 16 && is_reserved_v6 ip)

-- A nil address is the empty one.
unfoldable pub is_public : Ip → Bool
is_public ip = if is_empty ip then false else elim (to4 ip) [
  | some ip4 ↦ not (special_v4 ip4) && is_public_v4 ip4
  | none ↦ not (special_v6 ip)
]
