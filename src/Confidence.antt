-- ===== src/Confidence.antt =====
-- internal/confidence/confidence.go: how far a scan's asset list can be trusted. Durations are in
-- nanoseconds and not negative.
pub mod Laws
pub mod Median
use wsaw.Prelude.{
  ℕ, ◌+◌, ◌-◌, ◌*◌, ◌/◌, ◌%◌, ◌≡◌, refl, Bool, true, false, not, ◌&&◌, ◌||◌, Option, none, some,
  List, [], ◌∷◌, if◌then◌else◌, ltb, leb, ◌==◌, length, take, min,
}
use wsaw.Prelude.Text.{Text, is_empty}
use wsaw.Prelude.Assoc.{MapOrder}
use wsaw.Prelude.Sort.{sort_stable}
use wsaw.Model.Enums.{ConsentMode, ConsentOutcome, Termination, is_reject}
use wsaw.Model.Result.{Float, Result, ok, incomplete_ratio, incomplete_observations, network_count}
use wsaw.Model.Reasons.{top_incomplete_reason}
use wsaw.Model.Confidence.{
  Band, Signal, Caveat, Observed, NotAssessed, DurationReference, ConfidenceReason, Confidence,
}

pub record History : Type 0 where
  pub durations : List ℕ
  pub unavailable : Text

-- `band`.
unfoldable pub band_of : ℕ → Band
band_of score = if leb 90 score then Band.high else if leb 60 score then Band.medium else Band.low

abbrev reason : Signal → ℕ → Observed → ConfidenceReason
reason s points observed = record {
  signal = s;
  points = points;
  observed = observed;
  reference = none;
  not_assessed = none;
}

unfoldable pub termination_reason : Termination → ConfidenceReason
termination_reason Termination.timeout = reason Signal.termination 30 Observed.time_budget
termination_reason Termination.request_cap = reason Signal.termination 25 Observed.requests_cap
termination_reason Termination.byte_cap = reason Signal.termination 25 Observed.bytes_cap
termination_reason _ = reason Signal.termination 0 Observed.went_idle

unfoldable pub fetches_reason : {F : Type 0} → Float F → MapOrder → Result → ConfidenceReason
fetches_reason fl order r =
    let total = network_count r.requests in
    let lost = incomplete_observations r in
    if (total == 0) || (lost == 0)
    then reason Signal.fetches 0 (Observed.all_requests total)
    else reason Signal.fetches
        (min (fl.round (fl.product (incomplete_ratio fl r) (fl.of_int 400))) 60)
        (Observed.lost_requests lost total (top_incomplete_reason order r))

abbrev pub get_or_zero : List ℕ → ℕ → ℕ
get_or_zero [] i = 0
get_or_zero (x ∷ xs) i = elim i [ ℕ.zero ↦ x | ℕ.suc j ↦ get_or_zero xs j ]

unfoldable pub median_of : List ℕ → ℕ
median_of ds =
    let sorted = sort_stable ltb ds in
    let mid = length ds / 2 in
    if length ds % 2 == 1
    then get_or_zero sorted mid
    else (get_or_zero sorted (mid - 1) + get_or_zero sorted mid) / 2

-- The penalty for a duration against the median.
unfoldable pub duration_points : ℕ → ℕ → ℕ
duration_points d median =
    if ltb (d * 4) median || ltb (median * 4) d
    then 30
    else if ltb (d * 2) median || ltb (median * 2) d
    then 15
    else 0

-- `duration`: the reference, if one could be formed, and the reason.
unfoldable pub duration_reason : ℕ → History → Option DurationReference × ConfidenceReason
duration_reason d h =
    let observed = reason Signal.duration 0 (Observed.lasted d) in
    let earlier = take 10 h.durations in
    if not (is_empty h.unavailable)
    then (none, record observed { not_assessed = some (NotAssessed.unavailable h.unavailable) })
    else if ltb (length earlier) 5
    then (none, record observed { not_assessed = some (NotAssessed.too_few (length earlier)) })
    else let ref : DurationReference = record {
      median = median_of earlier;
      scans = length earlier;
    } in
      (some ref, record observed { points = duration_points d ref.median; reference = some ref })

-- `ConsentCaveat`.
unfoldable pub consent_caveat : Result → Option Caveat
consent_caveat r = elim r.consent.outcome [
  | ConsentOutcome.failed ↦ some Caveat.interaction_failed
  | ConsentOutcome.unverified ↦ some Caveat.unverified
  | ConsentOutcome.banner_visible ↦ some Caveat.banner_shown
  | ConsentOutcome.necessary_only ↦
      if is_reject r.consent_mode then none else some (Caveat.necessary_only_in r.consent_mode)
  | _ ↦ none
]

abbrev is_necessary_only : ConsentOutcome → Bool
is_necessary_only ConsentOutcome.necessary_only = true
is_necessary_only _ = false

-- `consent`, before the penalty for a heuristic interaction.
unfoldable pub consent_base : Result → ConfidenceReason
consent_base r = elim (consent_caveat r) [
  | none ↦ reason Signal.consent 0 (Observed.outcome r.consent.outcome)
  | some c ↦
      reason Signal.consent (if is_necessary_only r.consent.outcome then 20 else 40)
        (Observed.caveat c)
]

unfoldable pub consent_reason : Result → ConfidenceReason
consent_reason r =
    let base = consent_base r in
    if r.consent.heuristic
    then record base { points = base.points + 10; observed = Observed.with_heuristic base.observed }
    else base

unfoldable pub failed : Result → Confidence
failed r = record {
  score = 0;
  band = Band.none;
  reasons = reason Signal.termination 100 (Observed.failed_with r.termination r.error) ∷ [];
  duration_reference = none;
}

-- The loop that takes the points off; `-` stops at 0, as `max(score, 0)` does at its end.
unfoldable pub take_off : ℕ → List ConfidenceReason → ℕ
take_off score [] = score
take_off score (r ∷ rs) = take_off (score - r.points) rs

-- `Score`; `ratio` is the option DegradedFailureRatio.
unfoldable pub score : {F : Type 0} → Float F → MapOrder → Result → History → F → Confidence
score fl order r h ratio =
    let timed = duration_reason r.duration h in
    let reasons =
      termination_reason r.termination
      ∷ fetches_reason fl order r
      ∷ timed.1
      ∷ consent_reason r
      ∷ [] in
    let left = take_off 100 reasons in
    let points = if fl.le ratio (incomplete_ratio fl r) then min left 59 else left in
    if ok r
    then record {
      score = points;
      band = band_of points;
      reasons = reasons;
      duration_reference = timed.0;
    }
    else failed r
