-- ===== src/Share/Minted.antt =====
-- Mint of internal/share/share.go: what it grants, and that Verify accepts what it makes.
use wsaw.Prelude.{
  ℕ, ◌+◌, ◌/◌, ◌≤◌, ◌<◌, ◌≡◌, refl, Bool, true, false, ◌||◌, Option, some, List, [], ◌∷◌, ◌++◌,
  append_assoc, arith, ltb, ◌==◌, if◌then◌else◌, All, ◌^◌, ◌∙◌,
}
use wsaw.Prelude.Text.{Text, eqb_refl, is_empty}
use wsaw.Prelude.Int64.{is_positive}
use wsaw.Share.{
  Claims, Codec, Signer, Options, ok, err, Instant, the_issuer, the_audience, alg_hs256, typ_jwt,
  sign, strict_unmarshal, more, check_claims, read_claims, read_header, verify, expired, the_header,
  clamped, claims_of, assemble, mint, new, later_by,
}
use wsaw.Share.Base64.{encode, letter, letters, sextets, IsByte, decode-encode}
use wsaw.Share.Split.{split, dot, is_part, has_dot, split_iff}

-- What the libraries document: json.Marshal writes a text that the decoder reads back with
-- nothing left over, for the claims whose texts are readable (valid UTF-8); the keyed hash is a
-- sequence of bytes that is not empty.
pub record CodecLaws (codec : Codec) : Type 0 where
  pub mac-bytes : (key text : Text) → All IsByte (codec.mac key text)
  pub mac-filled : (key text : Text) → is_empty (codec.mac key text) ≡ false
  pub header_text : Text
  pub marshal_header : codec.marshal_header the_header ≡ some header_text
  pub header-bytes : All IsByte header_text
  pub header-filled : is_empty header_text ≡ false
  pub header_back : codec.decode_header header_text ≡ some (the_header, [])
  pub readable : Claims → Bool
  pub claims_text : Claims → Text
  pub marshal_claims :
      (c : Claims) → readable c ≡ true → codec.marshal_claims c ≡ some (claims_text c)
  pub claims-bytes : (c : Claims) → All IsByte (claims_text c)
  pub claims-filled : (c : Claims) → is_empty (claims_text c) ≡ false
  pub claims_back :
      (c : Claims) → readable c ≡ true → codec.decode_claims (claims_text c) ≡ some (c, [])

letter-not_dot : (n : ℕ) → (letter n == dot) ≡ false
unfolding letter
letter-not_dot n = ground arith

letters-no_dot : (ns : List ℕ) → has_dot (letters ns) ≡ false
unfolding has_dot letters
letters-no_dot [] = refl
letters-no_dot (n ∷ ns) = ground (arith, letter-not_dot n, letters-no_dot ns)

letters-filled : (s : Text) → is_empty s ≡ false → is_empty (encode s) ≡ false
unfolding encode letters sextets
letters-filled [] h = cc
letters-filled (a ∷ []) h = refl
letters-filled (a ∷ b ∷ []) h = refl
letters-filled (a ∷ b ∷ c ∷ s) h = refl

encode-is_part : (s : Text) → is_empty s ≡ false → is_part (encode s) ≡ true
unfolding encode
encode-is_part s h = ground (arith, letters-filled s h, letters-no_dot (sextets s))

split-assemble :
    (a b c : Text)
    → is_empty a ≡ false
    → is_empty b ≡ false
    → is_empty c ≡ false
    → split ((encode a ++ dot ∷ encode b) ++ dot ∷ encode c) ≡ some (encode a, encode b, encode c)
split-assemble a b c ha hb hc = (split_iff _ _ _ _).1 (
  append_assoc (encode a) (dot ∷ encode b) (dot ∷ encode c),
  ground (arith, encode-is_part a ha, encode-is_part b hb, encode-is_part c hc),
)

-- The validity that was asked for: none stands for the default.
abbrev pub asked : Signer → ℕ → ℕ
asked s validity = if is_positive validity then validity else s.validity

module _ (codec : Codec) (laws : CodecLaws codec) (opts : Options) (s : Signer) where
  clamped-bounds :
      (validity : ℕ)
      → new opts ≡ ok s
      → (0 < clamped codec s validity)
        × (clamped codec s validity ≤ s.max_validity)
        × (clamped codec s validity ≤ asked s validity)
  unfolding new clamped
  clamped-bounds validity h = ground arith

  new-max : new opts ≡ ok s → s.max_validity < 9223372036854775808
  unfolding new
  new-max h = ground arith

  -- The claims that Mint makes under a signer of New, with a clock whose nanoseconds are below
  -- 10^9: they expire no earlier than they are issued, and less than two seconds after the
  -- signer's maximum validity and the validity asked for, or the default where none was.
  pub claims_of-bounds :
      (now : Instant) (target mode scan_id : Text) (validity : ℕ)
      → new opts ≡ ok s
      → now.nsec < 1_000_000_000
      → let c = claims_of codec s now target mode scan_id validity in
        (c.issued_at ≤ c.expires_at)
        × (c.expires_at ≤ c.issued_at + s.max_validity / 1_000_000_000 + 1)
        × (c.expires_at ≤ c.issued_at + asked s validity / 1_000_000_000 + 1)
  unfolding claims_of later_by
  claims_of-bounds now target mode scan_id validity h n =
      let (_, most, least) = clamped-bounds validity h in (omega arith, omega arith, omega arith)

strict_unmarshal-back :
    {A : Type 0} (read : Text → Option (A × Text)) (text : Text) (v : A)
    → read text ≡ some (v, [])
    → strict_unmarshal read text ≡ some v
unfolding strict_unmarshal more
strict_unmarshal-back read text v h = rw (strict_unmarshal, h) refl

module _ (codec : Codec) (laws : CodecLaws codec) (s : Signer) (later : Instant) where
  read_claims-encode :
      (c : Claims)
      → laws.readable c ≡ true
      → read_claims codec s later (encode (laws.claims_text c)) ≡ check_claims codec s later c
  unfolding read_claims
  read_claims-encode c r = ground (
    arith,
    decode-encode (laws.claims_text c) (laws.claims-bytes c),
    strict_unmarshal-back codec.decode_claims _ c (laws.claims_back c r),
  )

  read_header-encode :
      (part : Text)
      → read_header codec s later (encode laws.header_text) part ≡ read_claims codec s later part
  unfolding read_header
  read_header-encode part = ground (
    arith,
    decode-encode laws.header_text laws.header-bytes,
    strict_unmarshal-back codec.decode_header _ the_header laws.header_back,
    eqb_refl alg_hs256,
    eqb_refl typ_jwt,
  )

  sign-filled : (text : Text) → is_empty (sign codec s text) ≡ false
  unfolding sign
  sign-filled text = laws.mac-filled s.key text

  sign-bytes : (text : Text) → All IsByte (sign codec s text)
  unfolding sign
  sign-bytes text = laws.mac-bytes s.key text

  verify-assemble :
      (c : Claims)
      → laws.readable c ≡ true
      → verify codec s later (assemble codec s laws.header_text (laws.claims_text c))
        ≡ check_claims codec s later c
  unfolding verify assemble
  verify-assemble c r =
      let signing = encode laws.header_text ++ dot ∷ encode (laws.claims_text c) in
      ground (
        arith,
        split-assemble laws.header_text (laws.claims_text c) (sign codec s signing)
            laws.header-filled (laws.claims-filled c) (sign-filled signing),
        decode-encode (sign codec s signing) (sign-bytes signing),
        eqb_refl (sign codec s signing),
        read_header-encode (encode (laws.claims_text c)),
        read_claims-encode c r,
      )

  check_claims-minted :
      (opts : Options) (now : Instant) (target mode scan_id : Text) (validity : ℕ)
      → new opts ≡ ok s
      → (is_empty target || is_empty mode || is_empty scan_id) ≡ false
      → now.nsec < 1_000_000_000
      → now.sec < 2 ^ 62
      → later.sec < 2 ^ 62
      → let c = claims_of codec s now target mode scan_id validity in
        check_claims codec s later c ≡ (if ltb later.sec c.expires_at then ok c else err expired)
  unfolding check_claims claims_of later_by
  check_claims-minted opts now target mode scan_id validity h e n a b = ground (
    arith,
    clamped-bounds codec laws opts s validity h,
    new-max codec laws opts s h,
    eqb_refl the_issuer,
    eqb_refl the_audience,
  )

  -- Take a signer that New makes, a target, a mode and a scan that are not empty and whose claims
  -- are readable, and clocks before the second 2^62. Then Mint makes a token, and Verify reads
  -- exactly the minted claims back from it until they expire, and reports expiry from then on.
  pub verify-mint :
      (opts : Options) (now : Instant) (target mode scan_id : Text) (validity : ℕ)
      → new opts ≡ ok s
      → (is_empty target || is_empty mode || is_empty scan_id) ≡ false
      → laws.readable (claims_of codec s now target mode scan_id validity) ≡ true
      → now.nsec < 1_000_000_000
      → now.sec < 2 ^ 62
      → later.sec < 2 ^ 62
      → let c = claims_of codec s now target mode scan_id validity in
        (token : Text) × (mint codec s now target mode scan_id validity ≡ ok (token, c))
        × (verify codec s later token ≡ (if ltb later.sec c.expires_at then ok c else err expired))
  unfolding mint
  verify-mint opts now target mode scan_id validity h e r n a b =
      let c = claims_of codec s now target mode scan_id validity in
      (
        assemble codec s laws.header_text (laws.claims_text c),
        ground (arith, laws.marshal_header, laws.marshal_claims c r),
        verify-assemble c r ∙ check_claims-minted opts now target mode scan_id validity h e n a b,
      )
