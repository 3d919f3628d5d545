-- ===== src/Examples/Aggregate.antt =====
-- The summaries of a scan of two domains (internal/model/aggregate.go).
use wsaw.Prelude.{◌≡◌, refl, not, ◌&&◌, ◌||◌, [], ◌∷◌, map, count_if, any}
use wsaw.Prelude.Text.{bytes, eqb, less}
use wsaw.Prelude.Assoc
use wsaw.Prelude.Assoc.{in_order}
use wsaw.Prelude.Sort.{sort_stable, insert}
use wsaw.Model.Enums.{Party, is_pre, party_text}
use wsaw.Model.Result.{Result, network_count}
use wsaw.Model.Aggregate.{host_summaries, by_domain, add_request, finished, summary_less}
use wsaw.Model.Aggregate.Sums.{host_summaries-sums, sum_by}
use wsaw.Examples.Scans.{fetch, scan_with}

abbrev pages : Result
pages = scan_with (bytes "s1") (
    fetch (bytes "a.de") Party.first (bytes "11")
    ∷ fetch (bytes "b.de") Party.third []
    ∷ fetch (bytes "a.de") Party.first (bytes "12")
    ∷ [])

-- The third party comes first, though it has fewer requests.
pages_order : map (λ s. s.domain) (host_summaries in_order pages) ≡ bytes "b.de" ∷ bytes "a.de" ∷ []
unfolding host_summaries by_domain add_request finished summary_less sort_stable insert eqb less
    party_text any Assoc.set Assoc.lookup
pages_order = refl

host_summaries-sums_example :
    (sum_by (λ s. s.requests) (host_summaries in_order pages) ≡ network_count pages.requests)
    × (sum_by (λ s. s.pre_consent) (host_summaries in_order pages)
        ≡ count_if (λ q. not q.non_network && is_pre q.phase) pages.requests)
    × (sum_by (λ s. s.failed) (host_summaries in_order pages)
        ≡ count_if (λ q. not q.non_network && (q.failed || q.blocked)) pages.requests)
host_summaries-sums_example = host_summaries-sums in_order pages
