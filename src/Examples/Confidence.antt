-- ===== src/Examples/Confidence.antt =====
-- The score of internal/confidence on concrete scans.
use wsaw.Prelude.{◌+◌, ◌≤◌, ◌↔◌, false, none, ◌≡◌, refl, true, [], ◌∷◌, count_if}
use wsaw.Prelude.Text.{bytes}
use wsaw.Prelude.Assoc.{in_order}
use wsaw.Prelude.Sort.{sort_stable}
use wsaw.Model.Enums.{Party}
use wsaw.Model.Request.{incomplete}
use wsaw.Model.Result.{Result, ok, truncated, incomplete_ratio, incomplete_observations}
use wsaw.Model.Confidence.{Band, Confidence}
use wsaw.Diff.Compare.{degraded, options_with_defaults}
use wsaw.Confidence.{
  History, band_of, median_of, score, consent_caveat, duration_reason, duration_points, take_off,
  termination_reason, fetches_reason, consent_reason, consent_base,
}
use wsaw.Confidence.Laws.{heuristic_points, score-high_iff, score-degraded}
use wsaw.Examples.Scans.{millionths, fetch, later, options}

abbrev history : History
history = record { durations = 100 ∷ 90 ∷ 120 ∷ 110 ∷ 95 ∷ []; unavailable = [] }

abbrev scored : Confidence
scored = score millionths in_order later history 100000

score-high_iff_example : (scored.band ≡ Band.high) ↔ (
    (ok later ≡ true)
    × (truncated later ≡ false)
    × (consent_caveat later ≡ none)
    × ((duration_reason later.duration history).1.points ≡ 0)
    × (millionths.le 100000 (incomplete_ratio millionths later) ≡ false)
    × ((fetches_reason millionths in_order later).points + heuristic_points later ≤ 10))
score-high_iff_example = score-high_iff millionths in_order later history 100000

scored_high : scored.band ≡ Band.high
unfolding score ok band_of incomplete_ratio count_if take_off termination_reason fetches_reason
    incomplete_observations duration_reason duration_points median_of sort_stable consent_reason
    consent_base consent_caveat
scored_high = refl

-- One of its two requests never completed.
abbrev lossy : Result
lossy = record later {
  requests =
      fetch (bytes "a.de") Party.first (bytes "22")
      ∷ record (fetch (bytes "t.io") Party.third (bytes "33")) { status = 0; end_offset = 0 }
      ∷ [];
}

lossy-ok : ok lossy ≡ true
unfolding ok
lossy-ok = refl

lossy-degraded : degraded millionths (options_with_defaults millionths options) lossy ≡ true
unfolding degraded incomplete_ratio count_if incomplete
lossy-degraded = refl

score-degraded_example :
    (score millionths in_order lossy history
      (options_with_defaults millionths options).degraded_failure_ratio).band
    ≡ Band.low
score-degraded_example =
    score-degraded millionths in_order lossy history options lossy-ok lossy-degraded
