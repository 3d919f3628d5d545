-- ===== src/Model/Aggregate.antt =====
-- internal/model/aggregate.go: the requests of a scan by domain, and by type of resource.
pub mod Sums
use wsaw.Prelude.{
  ℕ, ◌+◌, ◌%◌, ◌^◌, Bool, true, false, not, ◌||◌, Option, none, some, List, [], ◌∷◌, map, ltb, ◌==◌,
  any, if◌then◌else◌,
}
use wsaw.Prelude.Text.{Text, bytes, eqb, is_empty, less}
use wsaw.Prelude.Assoc
use wsaw.Prelude.Assoc.{MapOrder}
use wsaw.Prelude.Sort.{sort_stable}
use wsaw.Model.Domains.{sorted_keys}
use wsaw.Model.Enums.{Party, party_text, is_pre}
use wsaw.Model.Request.{Request}
use wsaw.Model.Result.{Result}

pub record HostSummary : Type 0 where
  pub domain : Text
  pub hosts : List Text
  pub party : Party
  pub requests : ℕ
  -- The pattern of an int64.
  pub bytes : ℕ
  pub pre_consent : ℕ
  pub resource_types : List Text
  pub failed : ℕ

-- The accumulator of one domain, with its two sets.
pub record Acc : Type 0 where
  pub summary : HostSummary
  pub hosts : List (Text × Unit {0})
  pub types : List (Text × Unit {0})

abbrev pub add_key : Text → List (Text × Unit {0}) → List (Text × Unit {0})
add_key k ks = if is_empty k then ks else Assoc.set k tt ks

abbrev pub key_of_request : Request → Text
key_of_request q = if is_empty q.domain then q.host else q.domain

abbrev pub new_acc : Text → Party → Acc
new_acc key party = record {
  summary = record {
    domain = key;
    hosts = [];
    party = party;
    requests = 0;
    bytes = 0;
    pre_consent = 0;
    resource_types = [];
    failed = 0;
  };
  hosts = [];
  types = [];
}

abbrev pub acc_at : Request → List (Text × Acc) → Acc
acc_at q m = elim (Assoc.lookup (key_of_request q) m) [
  | none ↦ new_acc (key_of_request q) q.party
  | some a ↦ a
]

unfoldable pub add_request : Request → Acc → Acc
add_request q a = record {
  summary = record a.summary {
    requests = a.summary.requests + 1;
    bytes = (a.summary.bytes + q.transfer_size) % 2 ^ 64;
    pre_consent = if is_pre q.phase then a.summary.pre_consent + 1 else a.summary.pre_consent;
    failed = if q.failed || q.blocked then a.summary.failed + 1 else a.summary.failed;
  };
  hosts = add_key q.host a.hosts;
  types = add_key q.resource_type a.types;
}

unfoldable pub by_domain : List (Text × Acc) → List Request → List (Text × Acc)
by_domain m [] = m
by_domain m (q ∷ qs) =
    by_domain
      (if q.non_network then m else Assoc.set (key_of_request q) (add_request q (acc_at q m)) m) qs

unfoldable pub finished : Text × Acc → HostSummary
finished (_, a) = record a.summary {
  hosts = sorted_keys a.hosts;
  resource_types = sorted_keys a.types;
}

-- The less function of `HostSummaries`.
unfoldable pub summary_less : HostSummary → HostSummary → Bool
summary_less a b =
    if not (eqb (party_text a.party) (party_text b.party))
    then eqb (party_text a.party) (party_text Party.third)
    else if not (a.requests == b.requests)
    then ltb b.requests a.requests
    else less a.domain b.domain

unfoldable pub host_summaries : MapOrder → Result → List HostSummary
host_summaries order r =
    sort_stable summary_less (map finished (order.visit 0 (by_domain [] r.requests)))

abbrev pub type_of_request : Request → Text
type_of_request q = if is_empty q.resource_type then bytes "other" else q.resource_type

abbrev pub count_at : Text → List (Text × ℕ) → ℕ
count_at t m = elim (Assoc.lookup t m) [ none ↦ 0 | some n ↦ n ]

unfoldable pub counts_from : List (Text × ℕ) → List Request → List (Text × ℕ)
counts_from m [] = m
counts_from m (q ∷ qs) =
    counts_from (Assoc.set (type_of_request q) (count_at (type_of_request q) m + 1) m) qs

unfoldable pub counts_by_resource_type : Result → List (Text × ℕ)
counts_by_resource_type r = counts_from [] r.requests
