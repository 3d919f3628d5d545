-- ===== src/Share.antt =====
-- internal/share/share.go: signed links. The keyed hash and the JSON codec are parameters; base64
-- and the parts of a token are written out.
pub mod Base64
pub mod Split
pub mod Signed
pub mod Minted
use wsaw.Prelude.{
  ℕ, ◌+◌, ◌/◌, ◌%◌, Bool, true, false, not, ◌&&◌, ◌||◌, Option, none, some, List, [], ◌∷◌, ◌++◌,
  ltb, leb, ◌==◌, if◌then◌else◌, length,
}
use wsaw.Prelude.Text.{Text, bytes, eqb, is_empty}
use wsaw.Prelude.Int64.{is_positive, signed_lt, signed_le}
use wsaw.Share.Base64.{encode, decode}
use wsaw.Share.Split.{dot, split}

pub data Error : Type 0 where
  expired invalid scope : Error
  short_key no_max_validity no_validity validity_exceeds_max : Error
  incomplete encoding : Error

pub data Outcome {ℓ} (A : Type ℓ) : Type ℓ where
  ok : A → Outcome A
  err : Error → Outcome A

-- The times are int64 seconds of the Unix epoch, as two's complement patterns.
pub record Claims : Type 0 where
  pub issuer : Text
  pub audience : Text
  pub target : Text
  pub consent_mode : Text
  pub scan_id : Text
  pub issued_at : ℕ
  pub expires_at : ℕ

pub record Header : Type 0 where
  pub alg : Text
  pub typ : Text

abbrev pub alg_hs256 : Text
alg_hs256 = bytes "HS256"

abbrev pub typ_jwt : Text
typ_jwt = bytes "JWT"

abbrev pub the_audience : Text
the_audience = bytes "wsaw-share"

abbrev pub the_issuer : Text
the_issuer = bytes "wsaw"

abbrev pub min_key_length : ℕ
min_key_length = 32

-- A reading of the clock, from 1970 on: seconds of the Unix epoch and nanoseconds.
pub record Instant : Type 0 where
  pub sec : ℕ
  pub nsec : ℕ

-- `t.Add(d)` for a duration that is not negative.
unfoldable pub later_by : Instant → ℕ → Instant
later_by t d = record {
  sec = t.sec + (t.nsec + d) / 1_000_000_000;
  nsec = (t.nsec + d) % 1_000_000_000;
}

-- `now.Before(time.Unix(s, 0))`: a time.Time counts its seconds from the year 1.
abbrev pub before : Instant → ℕ → Bool
before now s =
    signed_lt ((now.sec + 62135596800) % 18446744073709551616)
      ((s + 62135596800) % 18446744073709551616)

-- What the package takes from the libraries: the keyed hash, and the JSON codec of the two
-- structures. A decoder reads one value off the front of a text.
pub record Codec : Type 0 where
  pub mac : Text → Text → Text
  pub marshal_header : Header → Option Text
  pub decode_header : Text → Option (Header × Text)
  pub marshal_claims : Claims → Option Text
  pub decode_claims : Text → Option (Claims × Text)

pub record Signer : Type 0 where
  pub key : Text
  pub validity : ℕ
  pub max_validity : ℕ

pub record Options : Type 0 where
  pub key : Text
  pub validity : ℕ
  pub max_validity : ℕ

unfoldable pub new : Options → Outcome Signer
new opts =
    if ltb (length opts.key) min_key_length
    then err short_key
    else if not (is_positive opts.max_validity)
    then err no_max_validity
    else if not (is_positive opts.validity)
    then err no_validity
    else if ltb opts.max_validity opts.validity
    then err validity_exceeds_max
    else ok (record { key = opts.key; validity = opts.validity; max_validity = opts.max_validity })

-- `Decoder.More`: the next byte past white space is neither the end nor a closing bracket.
unfoldable pub more : Text → Bool
more [] = false
more (c ∷ s) =
    let rest = more s in
    if c == 32 || c == 9 || c == 10 || c == 13 then rest else not (c == 93 || c == 125)

unfoldable pub strict_unmarshal {ℓ} : {A : Type ℓ} → (Text → Option (A × Text)) → Text → Option A
unfolding more
strict_unmarshal read text = elim (read text) [
  | none ↦ none
  | some (v, rest) ↦ if more rest then none else some v
]

unfoldable pub allows : Claims → Text → Text → Text → Bool
unfolding eqb
allows c target mode scan_id =
    eqb c.target target && eqb c.consent_mode mode && eqb c.scan_id scan_id

-- The header that Mint writes, and the only one that Verify accepts.
abbrev pub the_header : Header
the_header = record { alg = alg_hs256; typ = typ_jwt }

module _ (codec : Codec) (s : Signer) where
  unfoldable pub sign : Text → Text
  sign signing = codec.mac s.key signing

  -- The validity that Mint settles on.
  unfoldable pub clamped : ℕ → ℕ
  clamped validity =
      let v = if is_positive validity then validity else s.validity in
      if signed_le v s.max_validity then v else s.max_validity

  unfoldable pub claims_of : Instant → Text → Text → Text → ℕ → Claims
  unfolding clamped later_by
  claims_of now target mode scan_id validity = record {
    issuer = the_issuer;
    audience = the_audience;
    target = target;
    consent_mode = mode;
    scan_id = scan_id;
    issued_at = now.sec;
    expires_at = (later_by now (clamped validity)).sec;
  }

  -- The token of the encoded header and claims.
  unfoldable pub assemble : Text → Text → Text
  assemble header_json claims_json =
      let signing = encode header_json ++ dot ∷ encode claims_json in
      signing ++ dot ∷ encode (sign signing)

  unfoldable pub mint : Instant → Text → Text → Text → ℕ → Outcome (Text × Claims)
  mint now target mode scan_id validity =
      if is_empty target || is_empty mode || is_empty scan_id
      then err incomplete
      else (let claims = claims_of now target mode scan_id validity in
          elim (codec.marshal_header the_header) [
            | none ↦ err encoding
            | some header_json ↦ elim (codec.marshal_claims claims) [
              | none ↦ err encoding
              | some claims_json ↦ ok (assemble header_json claims_json, claims)
            ]
          ])

  -- What Verify asks of the claims, once the signature and the header have passed.
  unfoldable pub check_claims : Instant → Claims → Outcome Claims
  check_claims now claims =
      if not (eqb claims.issuer the_issuer) || not (eqb claims.audience the_audience)
      then err invalid
      else if is_empty claims.target || is_empty claims.consent_mode || is_empty claims.scan_id
      then err invalid
      else if not (is_positive claims.expires_at) || not (before now claims.expires_at)
      then err expired
      else ok claims

  -- The claims, read after the header.
  unfoldable pub read_claims : Instant → Text → Outcome Claims
  read_claims now claims_part = elim (decode claims_part) [
    | none ↦ err invalid
    | some claims_json ↦ elim (strict_unmarshal codec.decode_claims claims_json) [
      | none ↦ err invalid
      | some claims ↦ check_claims now claims
    ]
  ]

  unfoldable pub read_header : Instant → Text → Text → Outcome Claims
  read_header now header_part claims_part = elim (decode header_part) [
    | none ↦ err invalid
    | some header_json ↦ elim (strict_unmarshal codec.decode_header header_json) [
      | none ↦ err invalid
      | some h ↦
          if not (eqb h.alg alg_hs256) || not (eqb h.typ typ_jwt)
          then err invalid
          else read_claims now claims_part
    ]
  ]

  unfoldable pub verify : Instant → Text → Outcome Claims
  verify now token = elim (split token) [
    | none ↦ err invalid
    | some (header_part, claims_part, sig_part) ↦ elim (decode sig_part) [
      | none ↦ err invalid
      | some sig ↦
          if eqb sig (sign (header_part ++ dot ∷ claims_part))
          then read_header now header_part claims_part
          else err invalid
    ]
  ]
