-- ===== src/Notify.antt =====
-- internal/notify/gate.go and internal/notify/scan.go: what a notification says of a scan, and which
-- scan-level notifier wants it. Sentences are data.
pub mod Laws
pub mod Webhook
use wsaw.Prelude.{
  ℕ, ◌+◌, Bool, true, false, not, ◌&&◌, ◌||◌, Option, none, some, List, [], ◌∷◌, if◌then◌else◌, ltb,
  leb, ◌==◌, length, any,
}
use wsaw.Prelude.Text.{Text, eqb, is_empty}
use wsaw.Prelude.Assoc
use wsaw.Model.Enums.{ConsentMode, ConsentOutcome, ConsentPhase, Termination, is_skipped}
use wsaw.Model.Result.{Result, ok, truncated}
use wsaw.Model.Domains.{third_party_domains}
use wsaw.Model.Confidence.{Band, Caveat, Observed, ConfidenceReason, Confidence}
use wsaw.Confidence.{consent_caveat}
use wsaw.Diff.Change.{Change, Severity, Reason, BrowserChange, Report, at_least}

pub record ConfidenceGate : Type 0 where
  pub enabled : Bool
  pub min : ℕ
  pub drop : Bool

pub record ScanConfidence : Type 0 where
  pub score : ℕ
  pub band : Band
  pub reason : Option Observed

-- The loop over the reasons, with the points of the largest one so far.
unfoldable pub largest : ℕ → Option Observed → List ConfidenceReason → Option Observed
largest top reason [] = reason
largest top reason (r ∷ rs) =
    largest (if ltb top r.points then r.points else top)
      (if ltb top r.points then some r.observed else reason) rs

unfoldable pub scan_confidence : Result → Option ScanConfidence
unfolding largest
scan_confidence r = elim r.confidence [
  | none ↦ none
  | some c ↦ some (record { score = c.score; band = c.band; reason = largest 0 none c.reasons })
]

abbrev is_none_band : Band → Bool
is_none_band Band.none = true
is_none_band _ = false

-- No score at all is the nil pointer.
unfoldable pub below : ConfidenceGate → Option ScanConfidence → Bool → Bool
below g c observed_nothing =
    if not g.enabled || observed_nothing
    then false
    else elim c [ none ↦ true | some s ↦ if is_none_band s.band then false else ltb s.score g.min ]

unfoldable pub drops : ConfidenceGate → Option ScanConfidence → Bool → Bool
unfolding below
drops g c observed_nothing = g.drop && below g c observed_nothing

-- The field Caveat of an event.
pub data EventCaveat : Type 0 where
  nothing : EventCaveat
  did_not_run scan_failed : Text → EventCaveat
  cut_short : Termination → EventCaveat
  consent : Caveat → EventCaveat
  -- The minimum that a channel requires.
  not_computed : ℕ → EventCaveat
  low_confidence : ℕ → ℕ → Option Observed → EventCaveat

unfoldable pub caveat : ConfidenceGate → Option ScanConfidence → EventCaveat
caveat g none = EventCaveat.not_computed g.min
caveat g (some c) = EventCaveat.low_confidence c.score g.min c.reason

pub record ScanEvent : Type 0 where
  pub target : Text
  pub url : Text
  pub consent_mode : ConsentMode
  pub labels : List (Text × Text)
  pub scan_id : Text
  pub duration : ℕ
  pub termination : Termination
  pub trustworthy : Bool
  pub caveat : EventCaveat
  pub confidence : Option ScanConfidence
  pub below_confidence : Bool
  pub observed_nothing : Bool
  pub consent_outcome : ConsentOutcome
  pub consent_reason : Text
  pub cmp : Text
  pub requests : ℕ
  pub third_party_domains : ℕ
  pub pre_consent_domains : ℕ
  pub changes : List Change
  pub highest : Severity
  pub suppressed : ℕ
  pub comparable : Bool
  pub reason : Reason
  pub browser_changed : Option BrowserChange

unfoldable pub trustworthiness : Result → Bool × EventCaveat
trustworthiness r =
    if is_skipped r.termination
    then (false, EventCaveat.did_not_run r.error)
    else if not (ok r)
    then (false, EventCaveat.scan_failed r.error)
    else if truncated r
    then (false, EventCaveat.cut_short r.termination)
    else elim (consent_caveat r) [
      | none ↦ (true, EventCaveat.nothing)
      | some c ↦ (false, EventCaveat.consent c)
    ]

-- The loop over the changes of `NewScanEvent`.
unfoldable pub highest_from : Severity → List Change → Severity
highest_from highest [] = highest
highest_from highest (c ∷ cs) =
    highest_from (if at_least c.severity highest then c.severity else highest) cs

-- `NewScanEvent`. The report is nil where a scan was not compared.
unfoldable pub new_scan_event : Result → Option Report → ScanEvent
unfolding trustworthiness scan_confidence highest_from
new_scan_event r rep = record {
  target = r.target;
  url = r.url;
  consent_mode = r.consent_mode;
  labels = r.labels;
  scan_id = r.scan_id;
  duration = r.duration;
  termination = r.termination;
  trustworthy = (trustworthiness r).0;
  caveat = (trustworthiness r).1;
  confidence = scan_confidence r;
  below_confidence = false;
  observed_nothing = not (ok r);
  consent_outcome = r.consent.outcome;
  consent_reason = r.consent.reason;
  cmp = r.consent.cmp;
  requests = length r.requests;
  third_party_domains = length (third_party_domains r ConsentPhase.unset);
  pre_consent_domains = length (third_party_domains r ConsentPhase.pre);
  changes = elim rep [ none ↦ [] | some p ↦ p.changes ];
  highest = elim rep [ none ↦ Severity.unset | some p ↦ highest_from Severity.unset p.changes ];
  suppressed = elim rep [ none ↦ 0 | some p ↦ p.suppressed ];
  comparable = elim rep [ none ↦ false | some p ↦ p.comparable ];
  reason = elim rep [ none ↦ Reason.none_given | some p ↦ p.reason ];
  browser_changed = elim rep [ none ↦ none | some p ↦ p.browser_changed ];
}

unfoldable pub mark_scan : ConfidenceGate → ScanEvent → ScanEvent
unfolding below caveat
mark_scan g ev =
    if not ev.trustworthy || not (below g ev.confidence ev.observed_nothing)
    then ev
    else record ev { trustworthy = false; caveat = caveat g ev.confidence; below_confidence = true }

-- `ev.Labels[k] != v` for no label of the notifier; a missing label reads as empty.
unfoldable pub labels_match : List (Text × Text) → List (Text × Text) → Bool
labels_match labels [] = true
labels_match labels ((k, v) ∷ rest) =
    eqb (elim (Assoc.lookup k labels) [ none ↦ [] | some w ↦ w ]) v && labels_match labels rest

abbrev pub is_unset : Severity → Bool
is_unset Severity.unset = true
is_unset _ = false

abbrev pub is_nil {ℓ} : {A : Type ℓ} → List A → Bool
is_nil [] = true
is_nil (x ∷ xs) = false

-- Whether a notifier is about the target of an event at all.
unfoldable pub in_scope : List Text → List (Text × Text) → ScanEvent → Bool
unfolding labels_match
in_scope targets labels ev =
    (is_nil targets || any (λ t. eqb t ev.target) targets) && labels_match ev.labels labels

unfoldable pub wants_scan_event : ScanEvent → Severity → List Text → List (Text × Text) → Bool
unfolding in_scope
wants_scan_event ev min_severity targets labels =
    if not (in_scope targets labels ev)
    then false
    else if not ev.trustworthy
    then true
    else if is_nil ev.changes
    then false
    else if is_unset min_severity
    then true
    else at_least ev.highest min_severity

-- One scan-level notifier of `fanOut`: whether the event of a scan goes out to it.
unfoldable pub sends : ConfidenceGate → Severity → List Text → List (Text × Text) → ScanEvent → Bool
unfolding wants_scan_event drops
sends g min_severity targets labels ev =
    wants_scan_event ev min_severity targets labels
    && not (drops g ev.confidence ev.observed_nothing)
