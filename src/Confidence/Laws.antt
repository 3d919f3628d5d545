-- ===== src/Confidence/Laws.antt =====
-- What a confidence score of internal/confidence/confidence.go says.
use wsaw.Prelude.{ℕ, ◌+◌, ◌≤◌, ◌≡◌, ◌⊎◌, ◌↔◌, true, false, none, arith, if◌then◌else◌}
use wsaw.Prelude.Assoc.{MapOrder}
use wsaw.Model.Enums.{Termination, termination_truncated}
use wsaw.Model.Result.{Float, Result, ok, truncated, incomplete_ratio}
use wsaw.Diff.Compare.{degraded, options_with_defaults}
use wsaw.Diff.Differ.{Options}
use wsaw.Model.Confidence.{Band}
use wsaw.Confidence.{
  History, band_of, termination_reason, fetches_reason, duration_reason, consent_reason,
  consent_base, consent_caveat, failed, take_off, score, duration_points,
}

termination-points :
    (t : Termination) → termination_truncated t ≡ true → 25 ≤ (termination_reason t).points
unfolding termination_reason termination_truncated
termination-points t h = ground arith

termination-free :
    (t : Termination) → termination_truncated t ≡ false → (termination_reason t).points ≡ 0
unfolding termination_reason termination_truncated
termination-free t h = ground arith

duration-points :
    (d : ℕ) (h : History)
    → ((duration_reason d h).1.points ≡ 0) ⊎ (15 ≤ (duration_reason d h).1.points)
unfolding duration_reason duration_points
duration-points d h = ground arith

consent-points : (r : Result) → (consent_caveat r ≡ none) ⊎ (20 ≤ (consent_reason r).points)
unfolding consent_reason consent_base
consent-points r = ground arith

abbrev pub heuristic_points : Result → ℕ
heuristic_points r = if r.consent.heuristic then 10 else 0

consent-free :
    (r : Result) → consent_caveat r ≡ none → (consent_reason r).points ≡ heuristic_points r
unfolding consent_reason consent_base
consent-free r h = ground (arith, h)

consent-heuristic : (r : Result) → heuristic_points r ≤ (consent_reason r).points
unfolding consent_reason
consent-heuristic r = ground arith

module _ {F : Type 0} (fl : Float F) (order : MapOrder) (r : Result) (h : History) (ratio : F) where
  -- A scan that produced no asset list has the band `none`, and no other scan has.
  pub score-none_iff : (ok r ≡ false) ↔ ((score fl order r h ratio).band ≡ Band.none)
  unfolding score failed band_of
  score-none_iff = (ground arith, ground arith)

  -- A scan in the band `high` produced an asset list, ran until the page was idle, lost fewer
  -- requests than the ratio, has no points off for its duration, and has no caveat about its
  -- consent.
  pub score-high :
      (score fl order r h ratio).band ≡ Band.high
      → (ok r ≡ true)
        × (truncated r ≡ false)
        × (consent_caveat r ≡ none)
        × (fl.le ratio (incomplete_ratio fl r) ≡ false)
        × ((duration_reason r.duration h).1.points ≡ 0)
  unfolding score failed band_of take_off truncated
  score-high e =
      ground
        (arith, termination-points r.termination, duration-points r.duration h, consent-points r)

  -- Exactly the scans in the band `high`: they produced an asset list, ran until the page was idle,
  -- have no caveat about their consent, have no points off for their duration, and lost fewer requests
  -- than the ratio and so few that these points, with 10 more if the consent was handled by a
  -- heuristic, are 10 at most.
  pub score-high_iff : ((score fl order r h ratio).band ≡ Band.high) ↔ (
      (ok r ≡ true)
      × (truncated r ≡ false)
      × (consent_caveat r ≡ none)
      × ((duration_reason r.duration h).1.points ≡ 0)
      × (fl.le ratio (incomplete_ratio fl r) ≡ false)
      × ((fetches_reason fl order r).points + heuristic_points r ≤ 10))
  unfolding score failed band_of take_off truncated
  score-high_iff = (
    λ e. ground (
      arith,
      score-high e,
      termination-points r.termination,
      duration-points r.duration h,
      consent-points r,
      consent-heuristic r,
    ),
    λ q. ground (arith, termination-free r.termination, consent-free r),
  )

-- A scan that produced an asset list and that the comparison calls degraded has the band `low`,
-- under the ratio that both resolve from the same options.
pub score-degraded :
    {F : Type 0} (fl : Float F) (order : MapOrder) (r : Result) (h : History) (opts : Options F)
    → ok r ≡ true
    → degraded fl (options_with_defaults fl opts) r ≡ true
    → (score fl order r h (options_with_defaults fl opts).degraded_failure_ratio).band ≡ Band.low
unfolding score degraded band_of
score-degraded fl order r h opts good lost = ground arith
