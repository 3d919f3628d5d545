-- ===== src/Examples/Share.antt =====
-- A link to one scan under a codec that knows the claims of that link (internal/share).
use wsaw.Prelude.{
  ℕ, ◌+◌, ◌*◌, ◌%◌, ◌≡◌, refl, Bool, true, ◌&&◌, none, some, [], ◌∷◌, ◌++◌, arith, ◌==◌, ltb,
  if◌then◌else◌,
}
use wsaw.Prelude.Text.{Text, bytes, cut, eqb, eqb_iff}
use wsaw.Share.{
  Claims, Codec, Signer, Options, ok, err, Instant, the_issuer, the_audience, the_header, claims_of,
  mint, verify, new, expired, later_by, clamped, sign, read_header, read_claims, check_claims,
  strict_unmarshal, more,
}
use wsaw.Share.Base64.{encode, decode, letter, letters, sextets, value, values, pack, is_line_end}
use wsaw.Share.Split.{split, dot, has_dot}
use wsaw.Share.Signed.{verify-Signed, in_force}
use wsaw.Share.Minted.{CodecLaws, verify-mint}
use wsaw.Prelude.Lists.{keep_if}

abbrev link : Claims
link = record {
  issuer = the_issuer;
  audience = the_audience;
  target = bytes "shop";
  consent_mode = bytes "ignore";
  scan_id = bytes "s1";
  issued_at = 1000;
  expires_at = 4600;
}

is_link : Claims → Bool
unfolding eqb
is_link c =
    eqb c.issuer link.issuer
    && eqb c.audience link.audience
    && eqb c.target link.target
    && eqb c.consent_mode link.consent_mode
    && eqb c.scan_id link.scan_id
    && c.issued_at == link.issued_at
    && c.expires_at == link.expires_at

is_link-link : (c : Claims) → is_link c ≡ true → c ≡ link
unfolding is_link
is_link-link c h = ground (
  arith,
  eqb_iff c.issuer link.issuer,
  eqb_iff c.audience link.audience,
  eqb_iff c.target link.target,
  eqb_iff c.consent_mode link.consent_mode,
  eqb_iff c.scan_id link.scan_id,
)

checksum : Text → ℕ
checksum [] = 7
checksum (c ∷ s) = c + checksum s

abbrev one_link : Codec
one_link = record {
  mac = λ key text. (checksum key + 3 * checksum text) % 256 ∷ [];
  marshal_header = λ h. some (bytes "H");
  decode_header = λ text. if eqb text (bytes "H") then some (the_header, []) else none;
  marshal_claims = λ c. some (bytes "L");
  decode_claims = λ text. if eqb text (bytes "L") then some (link, []) else none;
}

abbrev one_link_laws : CodecLaws one_link
unfolding eqb
one_link_laws = record {
  mac-bytes = λ key text. (omega arith, tt);
  mac-filled = λ key text. refl;
  header_text = bytes "H";
  marshal_header = refl;
  header-bytes = (omega arith, tt);
  header-filled = refl;
  header_back = refl;
  readable = is_link;
  claims_text = λ c. bytes "L";
  marshal_claims = λ c r. refl;
  claims-bytes = λ c. (omega arith, tt);
  claims-filled = λ c. refl;
  claims_back = λ c r. ground (arith, is_link-link c r);
}

abbrev opts : Options
opts = record {
  key = bytes "0123456789abcdef0123456789abcdef";
  validity = 3_600_000_000_000;
  max_validity = 86_400_000_000_000;
}

abbrev signer : Signer
signer = record {
  key = bytes "0123456789abcdef0123456789abcdef";
  validity = 3_600_000_000_000;
  max_validity = 86_400_000_000_000;
}

abbrev noon : Instant
noon = record { sec = 1000; nsec = 5 }

signer_built : new opts ≡ ok signer
unfolding new
signer_built = refl

link_minted : claims_of one_link signer noon (bytes "shop") (bytes "ignore") (bytes "s1") 0 ≡ link
unfolding claims_of later_by clamped
link_minted = refl

link_readable :
    is_link (claims_of one_link signer noon (bytes "shop") (bytes "ignore") (bytes "s1") 0) ≡ true
unfolding is_link claims_of later_by clamped eqb
link_readable = refl

verify-mint_example :
    (token : Text) × (mint one_link signer noon (bytes "shop") (bytes "ignore") (bytes "s1") 0
      ≡ ok (token, claims_of one_link signer noon (bytes "shop") (bytes "ignore") (bytes "s1") 0))
    × (verify one_link signer (record { sec = 2000; nsec = 0 }) token ≡ (
        if ltb 2000
          (claims_of one_link signer noon (bytes "shop") (bytes "ignore") (bytes "s1") 0).expires_at
        then ok (claims_of one_link signer noon (bytes "shop") (bytes "ignore") (bytes "s1") 0)
        else err expired))
unfolding one_link_laws is_link
verify-mint_example =
    verify-mint one_link one_link_laws signer (record { sec = 2000; nsec = 0 }) opts noon
      (bytes "shop") (bytes "ignore") (bytes "s1") 0 signer_built refl link_readable (omega arith)
      (omega arith) (omega arith)

abbrev token : Text
token = bytes "SA.TA." ++ encode (one_link.mac signer.key (bytes "SA.TA"))

token_verified : verify one_link signer (record { sec = 2000; nsec = 0 }) token ≡ ok link
unfolding verify split cut has_dot decode values value pack is_line_end keep_if sign read_header
    read_claims check_claims strict_unmarshal more eqb encode letters letter sextets checksum
token_verified = refl

-- A text after the value is passed over where it begins with a closing bracket.
trailing_bracket :
    strict_unmarshal {A = ℕ} (λ text. some (1, bytes " }{x")) (bytes "{} }{x") ≡ some 1
unfolding strict_unmarshal more
trailing_bracket = refl

verify-Signed_example :
    (head part sig head_json json : Text) × (split token ≡ some (head, part, sig))
    × (decode sig ≡ some (one_link.mac signer.key (head ++ dot ∷ part)))
    × (decode head ≡ some head_json)
    × (strict_unmarshal one_link.decode_header head_json ≡ some the_header)
    × (decode part ≡ some json)
    × (strict_unmarshal one_link.decode_claims json ≡ some link)
    × (in_force (record { sec = 2000; nsec = 0 }) link ≡ true)
verify-Signed_example =
    verify-Signed one_link signer (record { sec = 2000; nsec = 0 }) token link token_verified
