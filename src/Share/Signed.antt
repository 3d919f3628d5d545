-- ===== src/Share/Signed.antt =====
-- Verify of internal/share/share.go: what a token it accepts has passed.
use wsaw.Prelude.{◌≡◌, Bool, true, not, ◌&&◌, ◌||◌, some, inl, inr, Option-cases, ◌∷◌, ◌++◌, arith}
use wsaw.Prelude.Text.{Text, eqb, eqb_iff, is_empty}
use wsaw.Prelude.Int64.{is_positive}
use wsaw.Share.{
  Claims, Codec, Signer, ok, Instant, before, the_issuer, the_audience, alg_hs256, typ_jwt, sign,
  strict_unmarshal, check_claims, read_claims, read_header, verify, the_header,
}
use wsaw.Share.Base64.{decode}
use wsaw.Share.Split.{split, dot}

-- What Verify wants of the claims.
abbrev pub in_force : Instant → Claims → Bool
in_force now c =
    eqb c.issuer the_issuer
    && eqb c.audience the_audience
    && not (is_empty c.target || is_empty c.consent_mode || is_empty c.scan_id)
    && is_positive c.expires_at
    && before now c.expires_at

module _ (codec : Codec) (s : Signer) where
  check_claims-ok :
      (now : Instant) (c d : Claims)
      → check_claims codec s now c ≡ ok d
      → (c ≡ d) × (in_force now c ≡ true)
  unfolding check_claims
  check_claims-ok now c d h = ground arith

  read_claims-ok :
      (now : Instant) (part : Text) (d : Claims)
      → read_claims codec s now part ≡ ok d
      → (json : Text) × (decode part ≡ some json)
        × (strict_unmarshal codec.decode_claims json ≡ some d)
        × (in_force now d ≡ true)
  unfolding read_claims
  read_claims-ok now part d h = elim (Option-cases (decode part)) [
    | inl n ↦ ground (arith, n)
    | inr (json, e) ↦ elim (Option-cases (strict_unmarshal codec.decode_claims json)) [
      | inl n ↦ ground (arith, n, e)
      | inr (c, k) ↦ ground (arith, e, k, check_claims-ok now c d)
    ]
  ]

  read_header-ok :
      (now : Instant) (head part : Text) (d : Claims)
      → read_header codec s now head part ≡ ok d
      → (json : Text) × (decode head ≡ some json)
        × (strict_unmarshal codec.decode_header json ≡ some the_header)
        × (read_claims codec s now part ≡ ok d)
  unfolding read_header
  read_header-ok now head part d h = elim (Option-cases (decode head)) [
    | inl n ↦ ground (arith, n)
    | inr (json, e) ↦ elim (Option-cases (strict_unmarshal codec.decode_header json)) [
      | inl n ↦ ground (arith, n, e)
      | inr (hd, k) ↦ ground (arith, e, k, eqb_iff hd.alg alg_hs256, eqb_iff hd.typ typ_jwt)
    ]
  ]

  verify-ok :
      (now : Instant) (token : Text) (d : Claims)
      → verify codec s now token ≡ ok d
      → (head part sig : Text) × (split token ≡ some (head, part, sig))
        × (decode sig ≡ some (codec.mac s.key (head ++ dot ∷ part)))
        × (read_header codec s now head part ≡ ok d)
  unfolding verify sign
  verify-ok now token d h = elim (Option-cases (split token)) [
    | inl n ↦ ground (arith, n)
    | inr ((head, part, sig), e) ↦ elim (Option-cases (decode sig)) [
      | inl n ↦ ground (arith, n, e)
      | inr (m, k) ↦ ground (arith, e, k, eqb_iff m (codec.mac s.key (head ++ dot ∷ part)))
    ]
  ]

  -- A token that Verify accepts has three parts. The third is the keyed hash of the other two
  -- under the key of the signer. The first is the one header that Mint writes, the second holds
  -- the claims that are returned, strictly read, and they name this issuer and audience, a
  -- target, a mode and a scan, and a time of expiry that has not come.
  pub verify-Signed :
      (now : Instant) (token : Text) (d : Claims)
      → verify codec s now token ≡ ok d
      → (head part sig head_json json : Text) × (split token ≡ some (head, part, sig))
        × (decode sig ≡ some (codec.mac s.key (head ++ dot ∷ part)))
        × (decode head ≡ some head_json)
        × (strict_unmarshal codec.decode_header head_json ≡ some the_header)
        × (decode part ≡ some json)
        × (strict_unmarshal codec.decode_claims json ≡ some d)
        × (in_force now d ≡ true)
  verify-Signed now token d h =
      let (head, part, sig, e, m, r) = verify-ok now token d h in
      let (head_json, u, v, w) = read_header-ok now head part d r in
      let (json, x, y, z) = read_claims-ok now part d w in
      (head, part, sig, head_json, json, e, m, u, v, x, y, z)
