-- ===== src/Diff/Hosts.antt =====
-- The map `hosts` of internal/diff/diff.go, against the list of requests that it summarises.
use wsaw.Prelude.{
  ◌+◌, ◌≡◌, refl, ap, ◌∙◌, Bool, true, false, not, ◌&&◌, ◌||◌, List, [], ◌∷◌, arith, any, count_if,
  if◌then◌else◌,
}
use wsaw.Prelude.Text.{Text, eqb, eqb_iff, is_empty}
use wsaw.Prelude.Assoc
use wsaw.Model.Enums.{is_pre}
use wsaw.Model.Request.{Request}
use wsaw.Model.Result.{Result}
use wsaw.Diff.Maps.{HostInfo, info_at, seen_host, hosts_step, hosts_from, hosts}

-- A network request of a domain.
pub of_domain : Text → Request → Bool
of_domain k q = not q.non_network && eqb q.domain k

pub pre_of_domain : Text → Request → Bool
pre_of_domain k q = of_domain k q && is_pre q.phase

pre-if :
    (b : Bool) (info : HostInfo) (q : Request)
    → is_pre (if b then seen_host info q else info).phase
      ≡ ((b && is_pre q.phase) || is_pre info.phase)
unfolding seen_host
pre-if true info q = ground arith
pre-if false info q = refl

module _ (k : Text) (named : is_empty k ≡ false) where
  info_at-step :
      (m : List (Text × HostInfo)) (q : Request)
      → info_at k (hosts_step m q)
        ≡ (if of_domain k q then seen_host (info_at k m) q else info_at k m)
  unfolding hosts_step of_domain
  info_at-step m q =
      ground (
        arith,
        Assoc.lookup-set q.domain k (seen_host (info_at q.domain m) q) m,
        eqb_iff q.domain k,
      )

  contains-step :
      (m : List (Text × HostInfo)) (q : Request)
      → Assoc.contains k (hosts_step m q) ≡ (of_domain k q || Assoc.contains k m)
  unfolding hosts_step of_domain
  contains-step m q =
      ground (
        arith,
        Assoc.lookup-set q.domain k (seen_host (info_at q.domain m) q) m,
        eqb_iff q.domain k,
      )

  count-from :
      (m : List (Text × HostInfo)) (qs : List Request)
      → (info_at k (hosts_from m qs)).count ≡ (info_at k m).count + count_if (of_domain k) qs
  unfolding hosts_from count_if
  count-from m [] = omega arith
  count-from m (q ∷ qs) = count-from (hosts_step m q) qs ∙ ground (arith, info_at-step m q)

  pre-from :
      (m : List (Text × HostInfo)) (qs : List Request)
      → is_pre (info_at k (hosts_from m qs)).phase
        ≡ (is_pre (info_at k m).phase || any (pre_of_domain k) qs)
  unfolding hosts_from any pre_of_domain
  pre-from m [] = ground arith
  pre-from m (q ∷ qs) =
      pre-from (hosts_step m q) qs
      ∙ ground (
        arith,
        ap (λ (i : HostInfo). is_pre i.phase) (info_at-step m q),
        pre-if (of_domain k q) (info_at k m) q,
      )

  contains-from :
      (m : List (Text × HostInfo)) (qs : List Request)
      → Assoc.contains k (hosts_from m qs) ≡ (Assoc.contains k m || any (of_domain k) qs)
  unfolding hosts_from any
  contains-from m [] = ground arith
  contains-from m (q ∷ qs) = contains-from (hosts_step m q) qs ∙ ground (arith, contains-step m q)

  -- A named domain is in the map exactly when a network request went to it; its count is the
  -- number of those requests, and its phase is before consent exactly when one of them was.
  pub hosts-summary :
      (r : Result)
      → (Assoc.contains k (hosts r) ≡ any (of_domain k) r.requests)
        × ((info_at k (hosts r)).count ≡ count_if (of_domain k) r.requests)
        × (is_pre (info_at k (hosts r)).phase ≡ any (pre_of_domain k) r.requests)
  unfolding hosts Assoc.lookup
  hosts-summary r =
      (contains-from [] r.requests, omega (arith, count-from [] r.requests), pre-from [] r.requests)
