-- ===== src/Classify.antt =====
-- internal/classify/classify.go: registrable domains, and whether a request belongs to the scanned
-- site. URL parsing and the public suffix list are the argument `d`.
pub mod Laws
use wsaw.Prelude.{
  ℕ, Bool, true, ◌&&◌, ◌||◌, Option, none, some, List, [], ◌∷◌, any, leb, ◌==◌, if◌then◌else◌,
}
use wsaw.Prelude.Text.{
  Text, bytes, eqb, is_empty, to_lower, trim_space, trim_prefix, trim_suffix, has_prefix, contains,
}
use wsaw.Model.Enums.{Party}

pub record Domains : Type 0 where
  -- `url.Parse`, then `Hostname`: nothing where the text is no URL, the empty text where the URL
  -- has no host.
  pub hostname : Text → Option Text
  -- `publicsuffix.EffectiveTLDPlusOne`: nothing for an error.
  pub etld_plus_one : Text → Option Text

is_digit_or_dot : ℕ → Bool
is_digit_or_dot c = (leb b'0' c && leb c b'9') || c == b'.'

all_digits_or_dots : Text → Bool
unfolding is_digit_or_dot
all_digits_or_dots [] = true
all_digits_or_dots (c ∷ s) = is_digit_or_dot c && all_digits_or_dots s

unfoldable pub is_ip_literal : Text → Bool
unfolding all_digits_or_dots has_prefix
is_ip_literal host = has_prefix host (bytes "[") || all_digits_or_dots host

-- The host without its trailing dot and letter case.
unfoldable pub canonical_host : Text → Text
canonical_host host = to_lower (trim_suffix (trim_space host) (bytes "."))

unfoldable pub registrable_domain : Domains → Text → Text
unfolding canonical_host is_ip_literal
registrable_domain d host =
    let h = canonical_host host in
    if is_empty h
    then []
    else if is_ip_literal h
    then h
    else elim (d.etld_plus_one h) [ none ↦ h | some domain ↦ domain ]

-- `firstPartyDomains`: the registrable domains that are the site's own.
pub record Classifier : Type 0 where
  pub first_party_domains : List Text

unfoldable pub mem : Text → List Text → Bool
mem s xs = any (eqb s) xs

-- One entry of `additional`: a bare domain, a wildcard or a URL.
unfoldable pub additional_host : Domains → Text → Text
unfolding contains
additional_host d raw =
    let bare = trim_prefix (to_lower (trim_space raw)) (bytes "*.") in
    if contains bare (bytes "://")
    then elim (d.hostname bare) [ none ↦ bare | some h ↦ if is_empty h then bare else to_lower h ]
    else bare

unfoldable pub additional_domains : Domains → List Text → List Text
unfolding additional_host registrable_domain
additional_domains d [] = []
additional_domains d (raw ∷ rest) =
    if is_empty (to_lower (trim_space raw))
    then additional_domains d rest
    else registrable_domain d (additional_host d raw) ∷ additional_domains d rest

pub data ClassifyError : Type 0 where
  parse_error no_host : ClassifyError

pub data NewResult : Type 0 where
  ok : Classifier → NewResult
  err : ClassifyError → NewResult

-- `New`.
unfoldable pub new : Domains → Text → List Text → NewResult
unfolding additional_domains registrable_domain
new d target_url additional = elim (d.hostname target_url) [
  | none ↦ NewResult.err parse_error
  | some raw ↦
      let host = to_lower raw in
      if is_empty host
      then NewResult.err no_host
      else NewResult.ok (record {
        first_party_domains = registrable_domain d host ∷ additional_domains d additional;
      })
]

pub record Host : Type 0 where
  pub host : Text
  pub domain : Text
  pub party : Party

-- `Classify`.
unfoldable pub classify : Domains → Classifier → Text → Host
unfolding registrable_domain mem
classify d c raw = elim (d.hostname raw) [
  | none ↦ record { host = []; domain = []; party = Party.third }
  | some h ↦
      let host = to_lower h in
      if is_empty host
      then record { host = []; domain = []; party = Party.first }
      else let domain = registrable_domain d host in
        record {
          host = host;
          domain = domain;
          party = if mem domain c.first_party_domains then Party.first else Party.third;
        }
]

-- `ClassifyCookieDomain`.
unfoldable pub classify_cookie_domain : Domains → Classifier → Text → Party
unfolding registrable_domain mem
classify_cookie_domain d c raw =
    let domain = trim_prefix (to_lower (trim_space raw)) (bytes ".") in
    if is_empty domain
    then Party.first
    else if mem (registrable_domain d domain) c.first_party_domains
    then Party.first
    else Party.third
