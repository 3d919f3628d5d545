-- ===== src/Diff/Maps.antt =====
-- internal/diff/diff.go: the maps that a comparison builds from a result before it walks them.
use wsaw.Prelude.{
  ℕ, ◌+◌, Bool, not, ◌&&◌, ◌||◌, Option, none, some, List, [], ◌∷◌, ◌++◌, if◌then◌else◌, arith,
}
use wsaw.Prelude.Text.{Text, bytes, is_empty}
use wsaw.Prelude.Assoc
use wsaw.Model.Enums.{Party, ConsentPhase, is_unset, is_pre}
use wsaw.Model.Request.{Request, incomplete}
use wsaw.Model.Result.{Result, Cookie, StorageEntry}
use wsaw.Classify.{Domains, registrable_domain, mem}

pub record HostInfo : Type 0 where
  pub party : Party
  pub phase : ConsentPhase
  pub count : ℕ

-- What `out[domain]` reads where the domain is new.
abbrev pub zero_info : HostInfo
zero_info = record { party = Party.unset; phase = ConsentPhase.unset; count = 0 }

abbrev pub info_at : Text → List (Text × HostInfo) → HostInfo
info_at domain m = elim (Assoc.lookup domain m) [ none ↦ zero_info | some info ↦ info ]

unfoldable pub seen_host : HostInfo → Request → HostInfo
seen_host info q = record {
  party = q.party;
  phase = if is_unset info.phase || is_pre q.phase then q.phase else info.phase;
  count = info.count + 1;
}

-- One pass of the loop of `hosts`.
unfoldable pub hosts_step : List (Text × HostInfo) → Request → List (Text × HostInfo)
unfolding seen_host
hosts_step m q =
    if q.non_network || is_empty q.domain
    then m
    else Assoc.set q.domain (seen_host (info_at q.domain m) q) m

unfoldable pub hosts_from : List (Text × HostInfo) → List Request → List (Text × HostInfo)
unfolding hosts_step
hosts_from m [] = m
hosts_from m (q ∷ qs) = hosts_from (hosts_step m q) qs

unfoldable pub hosts : Result → List (Text × HostInfo)
unfolding hosts_from
hosts r = hosts_from [] r.requests

pub record AssetInfo : Type 0 where
  pub url : Text
  pub party : Party
  pub domain : Text
  pub phase : ConsentPhase
  pub typ : Text
  pub status : ℕ
  pub digest : Text
  pub identity : Text
  pub identity_label : Text
  pub initiators : List Text

-- internal/normalize as this package uses it.
pub record Normalizer : Type 0 where
  pub rekey : Request → Text
  pub volatile_body : Text → Bool

-- The function `add` of `initiatorDomains`.
unfoldable pub add_initiator : Domains → List Text → Text → List Text
unfolding registrable_domain mem
add_initiator d out raw = if is_empty raw then out else elim (d.hostname raw) [
  | none ↦ out
  | some host ↦
      let domain = registrable_domain d host in
      if is_empty host || (is_empty domain || mem domain out) then out else out ++ domain ∷ []
]

add_initiators : Domains → List Text → List Text → List Text
unfolding add_initiator
add_initiators d out [] = out
add_initiators d out (raw ∷ rest) = add_initiators d (add_initiator d out raw) rest

unfoldable pub initiator_domains : Domains → Request → List Text
unfolding add_initiators
initiator_domains d q = add_initiators d [] (q.initiator.url ∷ q.initiator.stack)

unfoldable pub asset_info : Domains → Request → AssetInfo
unfolding initiator_domains
asset_info d q = record {
  url = q.url;
  party = q.party;
  domain = q.domain;
  phase = q.phase;
  typ = q.resource_type;
  status = q.status;
  digest = q.body_sha256;
  identity = q.body_identity;
  identity_label = q.body_identity_label;
  initiators = initiator_domains d q;
}

-- The comparison key of a request.
unfoldable pub asset_key : Option Normalizer → Request → Text
asset_key none q = q.normalized_url
asset_key (some n) q = n.rekey q

-- One pass of the loop of `assets`: the first observation of a key wins.
unfoldable pub assets_step :
    Domains → Option Normalizer → List (Text × AssetInfo) → Request → List (Text × AssetInfo)
unfolding asset_key asset_info
assets_step d n m q =
    if is_empty q.normalized_url
    then m
    else if Assoc.contains (asset_key n q) m
    then m
    else Assoc.set (asset_key n q) (asset_info d q) m

unfoldable pub assets_from :
    Domains → Option Normalizer → List (Text × AssetInfo) → List Request → List (Text × AssetInfo)
unfolding assets_step
assets_from d n m [] = m
assets_from d n m (q ∷ qs) = assets_from d n (assets_step d n m q) qs

unfoldable pub assets : Domains → Option Normalizer → Result → List (Text × AssetInfo)
unfolding assets_from
assets d n r = assets_from d n [] r.requests

unfoldable pub cookie_key : Cookie → Text
cookie_key c = c.domain ++ (c.path ++ (bytes "|" ++ c.name))

unfoldable pub cookies_from : List (Text × Cookie) → List Cookie → List (Text × Cookie)
unfolding cookie_key
cookies_from m [] = m
cookies_from m (c ∷ cs) = cookies_from (Assoc.set (cookie_key c) c m) cs

unfoldable pub storage_key : StorageEntry → Text
storage_key e = e.origin ++ (bytes "|" ++ (e.area ++ (bytes ":" ++ e.key)))

unfoldable pub storage_from :
    List (Text × StorageEntry) → List StorageEntry → List (Text × StorageEntry)
unfolding storage_key
storage_from m [] = m
storage_from m (e ∷ es) = storage_from (Assoc.set (storage_key e) e m) es

-- `unobservedDomains`, as the list of the keys.
unfoldable pub unobserved_domains : List Request → List Text
unfolding incomplete
unobserved_domains [] = []
unobserved_domains (q ∷ qs) =
    if incomplete q && not (is_empty q.domain)
    then q.domain ∷ unobserved_domains qs
    else unobserved_domains qs

hosts_from-Unique :
    (m : List (Text × HostInfo)) (qs : List Request)
    → Assoc.Unique m
    → Assoc.Unique (hosts_from m qs)
unfolding hosts_from
hosts_from-Unique m [] u = u
hosts_from-Unique m (q ∷ qs) u =
    hosts_from-Unique (hosts_step m q) qs
      (ground (arith, Assoc.set-Unique q.domain (seen_host (info_at q.domain m) q) m u))

pub hosts-Unique : (r : Result) → Assoc.Unique (hosts r)
unfolding hosts
hosts-Unique r = hosts_from-Unique [] r.requests tt

module _ (d : Domains) (n : Option Normalizer) where
  assets_from-Unique :
      (m : List (Text × AssetInfo)) (qs : List Request)
      → Assoc.Unique m
      → Assoc.Unique (assets_from d n m qs)
  unfolding assets_from
  assets_from-Unique m [] u = u
  assets_from-Unique m (q ∷ qs) u =
      assets_from-Unique (assets_step d n m q) qs
        (ground (arith, Assoc.set-Unique (asset_key n q) (asset_info d q) m u))

  pub assets-Unique : (r : Result) → Assoc.Unique (assets d n r)
  unfolding assets
  assets-Unique r = assets_from-Unique [] r.requests tt

pub cookies_from-Unique :
    (m : List (Text × Cookie)) (cs : List Cookie)
    → Assoc.Unique m
    → Assoc.Unique (cookies_from m cs)
unfolding cookies_from
cookies_from-Unique m [] u = u
cookies_from-Unique m (c ∷ cs) u =
    cookies_from-Unique (Assoc.set (cookie_key c) c m) cs (Assoc.set-Unique (cookie_key c) c m u)

pub storage_from-Unique :
    (m : List (Text × StorageEntry)) (es : List StorageEntry)
    → Assoc.Unique m
    → Assoc.Unique (storage_from m es)
unfolding storage_from
storage_from-Unique m [] u = u
storage_from-Unique m (e ∷ es) u =
    storage_from-Unique (Assoc.set (storage_key e) e m) es (Assoc.set-Unique (storage_key e) e m u)
