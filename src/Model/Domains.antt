-- ===== src/Model/Domains.antt =====
-- internal/model/result.go: the distinct hosts and domains of one party.
use wsaw.Prelude.{Bool, not, ◌&&◌, ◌||◌, List, [], ◌∷◌, map, if◌then◌else◌}
use wsaw.Prelude.Text.{Text, eqb, is_empty, less}
use wsaw.Prelude.Assoc
use wsaw.Prelude.Sort.{sort_stable}
use wsaw.Model.Enums.{ConsentPhase, phase_text, is_unset, is_first, is_third}
use wsaw.Model.Request.{Request}
use wsaw.Model.Result.{Result}

-- Whether a request is of a phase; the empty phase takes all.
abbrev pub in_phase : ConsentPhase → Request → Bool
in_phase phase q = is_unset phase || eqb (phase_text q.phase) (phase_text phase)

-- `seen[key] = struct{}{}`, where the key is not empty.
abbrev see : Text → List (Text × Unit {0}) → List (Text × Unit {0})
see key seen = if is_empty key then seen else Assoc.set key tt seen

unfoldable pub hosts_seen :
    ConsentPhase → List (Text × Unit {0}) → List Request → List (Text × Unit {0})
hosts_seen phase seen [] = seen
hosts_seen phase seen (q ∷ qs) =
    hosts_seen phase
      (if (is_first q.party && not q.non_network) && in_phase phase q
        then see q.host seen
        else seen)
      qs

unfoldable pub domains_seen :
    ConsentPhase → List (Text × Unit {0}) → List Request → List (Text × Unit {0})
domains_seen phase seen [] = seen
domains_seen phase seen (q ∷ qs) =
    domains_seen phase
      (if (is_third q.party && not q.non_network) && in_phase phase q
        then see q.domain seen
        else seen)
      qs

-- `sortedKeys`. The keys are distinct, so the order in which the map gives them does not matter.
abbrev pub sorted_keys : List (Text × Unit {0}) → List Text
sorted_keys seen = sort_stable less (map (λ e. e.0) seen)

unfoldable pub first_party_hosts : Result → ConsentPhase → List Text
unfolding hosts_seen
first_party_hosts r phase = sorted_keys (hosts_seen phase [] r.requests)

unfoldable pub third_party_domains : Result → ConsentPhase → List Text
unfolding domains_seen
third_party_domains r phase = sorted_keys (domains_seen phase [] r.requests)
