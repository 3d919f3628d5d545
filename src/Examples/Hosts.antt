-- ===== src/Examples/Hosts.antt =====
-- Host lists and parties of concrete hosts.
use wsaw.Prelude.{◌≡◌, refl, not, ◌&&◌, List, [], ◌∷◌, any}
use wsaw.Prelude.Text.{Text, bytes, is_empty, to_lower}
use wsaw.Classify.{Classifier, NewResult, new, registrable_domain, additional_domains}
use wsaw.Diff.HostList.{new_host_list, matches}
use wsaw.Diff.HostList.Laws.{covers, matches-covers}
use wsaw.Examples.Scans.{flat_web}

abbrev patterns : List Text
patterns = bytes "*.ads.io" ∷ bytes "T.io" ∷ []

matches-covers_example : matches flat_web (new_host_list patterns) (bytes "x.t.io") ≡ (
    not (is_empty (bytes "x.t.io")) && any (covers flat_web (to_lower (bytes "x.t.io"))) patterns)
matches-covers_example = matches-covers flat_web patterns (bytes "x.t.io")

abbrev site : Classifier
site = record { first_party_domains = registrable_domain flat_web (bytes "a.de") ∷ [] }

made : new flat_web (bytes "a.de") [] ≡ NewResult.ok site
unfolding new additional_domains to_lower
made = refl
