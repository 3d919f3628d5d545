-- ===== src/Adhoc/Blocks.antt =====
-- isPublic of internal/adhoc/adhoc.go against a table of address blocks.
use wsaw.Prelude.{
  ℕ, ◌+◌, ◌*◌, ◌/◌, ◌<◌, ◌≡◌, Bool, not, ◌&&◌, ◌||◌, List, [], ◌∷◌, arith, leb, ◌==◌, any,
}
use wsaw.Adhoc.Addresses.{is_public, to4, special_v4, is_public_v4}

-- An address as a number.
abbrev pub number : ℕ → ℕ → ℕ → ℕ → ℕ
number a b c d = a * 16777216 + b * 65536 + c * 256 + d

-- A block: how many addresses it has, and which of the blocks of that size it is.
pub record Block : Type 0 where
  pub size : ℕ
  pub index : ℕ

abbrev pub in_block : ℕ → Block → Bool
in_block n b = n / b.size == b.index

-- 0.0.0.0/8, 10.0.0.0/8, 100.64.0.0/10, 127.0.0.0/8, 169.254.0.0/16, 172.16.0.0/12, 192.0.0.0/24,
-- 192.168.0.0/16, 198.18.0.0/15 and 224.0.0.0/4.
abbrev pub blocks : List Block
blocks =
    record { size = 16777216; index = 0 }
    ∷ record { size = 16777216; index = 10 }
    ∷ record { size = 4194304; index = 401 }
    ∷ record { size = 16777216; index = 127 }
    ∷ record { size = 65536; index = 43518 }
    ∷ record { size = 1048576; index = 2753 }
    ∷ record { size = 256; index = 12582912 }
    ∷ record { size = 65536; index = 49320 }
    ∷ record { size = 131072; index = 25353 }
    ∷ record { size = 268435456; index = 14 }
    ∷ []

module _ (a b c d : ℕ) (ha : a < 256) (hb : b < 256) (hc : c < 256) (hd : d < 256) where
  in_24 : (k : ℕ) → in_block (number a b c d) (record { size = 16777216; index = k }) ≡ (a == k)
  in_24 k = ground arith

  in_16 :
      (j k : ℕ)
      → k < 256
      → in_block (number a b c d) (record { size = 65536; index = j * 256 + k })
        ≡ (a == j && b == k)
  in_16 j k h = ground arith

  -- 100.64.0.0/10
  in_carrier :
      in_block (number a b c d) (record { size = 4194304; index = 401 })
      ≡ (a == 100 && leb 64 b && leb b 127)
  in_carrier = ground arith

  -- 172.16.0.0/12
  in_private_12 :
      in_block (number a b c d) (record { size = 1048576; index = 2753 })
      ≡ (a == 172 && b / 16 == 1)
  in_private_12 = ground arith

  -- 192.0.0.0/24
  in_protocol :
      in_block (number a b c d) (record { size = 256; index = 12582912 })
      ≡ (a == 192 && b == 0 && c == 0)
  in_protocol = ground arith

  -- 198.18.0.0/15
  in_benchmark :
      in_block (number a b c d) (record { size = 131072; index = 25353 })
      ≡ (a == 198 && (b == 18 || b == 19))
  in_benchmark = ground arith

  -- 224.0.0.0/4
  in_multicast :
      in_block (number a b c d) (record { size = 268435456; index = 14 }) ≡ (a / 16 == 14)
  in_multicast = ground arith

  -- An IPv4 address is public exactly if it is in none of the blocks.
  pub is_public-blocks :
      is_public (a ∷ b ∷ c ∷ d ∷ []) ≡ not (any (in_block (number a b c d)) blocks)
  unfolding is_public to4 special_v4 is_public_v4 any
  is_public-blocks = ground (
    arith,
    in_24 0,
    in_24 10,
    in_24 127,
    in_16 169 254,
    in_16 192 168,
    in_carrier,
    in_private_12,
    in_protocol,
    in_benchmark,
    in_multicast,
  )
