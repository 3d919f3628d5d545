-- ===== src/Notify/Laws.antt =====
-- What internal/notify says of a scan and when it says it.
use wsaw.Prelude.{
  ap, ltb, none, ℕ, ◌≡◌, ◌≢◌, refl, ◌∙◌, Bool, true, false, not, ◌&&◌, ◌||◌, Option, some, List, [],
  ◌∷◌, arith, if◌then◌else◌, leb, any,
}
use wsaw.Prelude.Text.{Text}
use wsaw.Prelude.Assoc.{MapOrder}
use wsaw.Model.Result.{Float, Result, ok, truncated}
use wsaw.Model.Confidence.{Band}
use wsaw.Confidence.{History, score, consent_caveat}
use wsaw.Confidence.Laws.{score-high}
use wsaw.Diff.Change.{Change, Severity, Report, rank, at_least, has_findings_at_least}
use wsaw.Notify.Webhook.{Channel, Webhook, sends_change, wants_change, change_event}
use wsaw.Notify.{
  ScanConfidence, EventCaveat, largest, scan_confidence, caveat, ConfidenceGate, ScanEvent, below,
  drops, trustworthiness, highest_from, new_scan_event, mark_scan, in_scope, is_nil, is_unset,
  wants_scan_event, sends,
}

trustworthiness-high :
    {F : Type 0} (fl : Float F) (order : MapOrder) (r : Result) (h : History) (ratio : F)
    → (score fl order r h ratio).band ≡ Band.high
    → ((trustworthiness r).0 ≡ true) × ((trustworthiness r).1 ≡ EventCaveat.nothing)
unfolding trustworthiness ok
trustworthiness-high fl order r h ratio e = ground (arith, score-high fl order r h ratio e)

-- The scan with its score stored, as the scanner stores it.
abbrev pub scored : {F : Type 0} → Float F → MapOrder → Result → History → F → Result
scored fl order r h ratio = record r { confidence = some (score fl order r h ratio) }

-- The stored score is not asked whether a scan is to be trusted.
trustworthiness-scored :
    {F : Type 0} (fl : Float F) (order : MapOrder) (r : Result) (h : History) (ratio : F)
    → trustworthiness (scored fl order r h ratio) ≡ trustworthiness r
unfolding trustworthiness ok truncated consent_caveat
trustworthiness-scored fl order r h ratio = refl

mark_scan-trusted :
    (g : ConfidenceGate) (ev : ScanEvent) (s : ScanConfidence)
    → ev.trustworthy ≡ true
    → ev.caveat ≡ EventCaveat.nothing
    → ev.observed_nothing ≡ false
    → ev.confidence ≡ some s
    → s.band ≡ Band.high
    → ((mark_scan g ev).trustworthy ≡ not (g.enabled && ltb s.score g.min))
      × ((mark_scan g ev).caveat ≡ (
          if g.enabled && ltb s.score g.min
          then EventCaveat.low_confidence s.score g.min s.reason
          else EventCaveat.nothing))
unfolding mark_scan below caveat
mark_scan-trusted g ev s t n o c b = ground (arith, t, n, o, c, b)

-- A scan whose stored score is in the band `high` and reaches the minimum of a notifier's gate goes
-- out without a warning, and one in that band below the minimum goes out with the warning of the gate
-- and no other.
pub mark_scan-high :
    {F : Type 0} (fl : Float F) (order : MapOrder) (r : Result) (h : History) (ratio : F)
    (g : ConfidenceGate) (rep : Option Report)
    → (score fl order r h ratio).band ≡ Band.high
    → let c = score fl order r h ratio in
      let ev = mark_scan g (new_scan_event (scored fl order r h ratio) rep) in
      (ev.trustworthy ≡ not (g.enabled && ltb c.score g.min))
      × (ev.caveat ≡ (
          if g.enabled && ltb c.score g.min
          then EventCaveat.low_confidence c.score g.min (largest 0 none c.reasons)
          else EventCaveat.nothing))
unfolding new_scan_event scan_confidence ok
mark_scan-high fl order r h ratio g rep e =
    let (t, n) = trustworthiness-high fl order r h ratio e in
    let same = trustworthiness-scored fl order r h ratio in
    let good = (score-high fl order r h ratio e).0 in
    mark_scan-trusted g (new_scan_event (scored fl order r h ratio) rep) _ (ap (λ x. x.0) same ∙ t)
      (ap (λ x. x.1) same ∙ n) (rw good refl) refl e

untrusted : (r : Result) → ok r ≡ false → (trustworthiness r).0 ≡ false
unfolding trustworthiness
untrusted r e = ground arith

-- Once the dispatcher takes it from the queue, the event of a scan that failed or was skipped goes out
-- to every scan-level notifier that is about its target, whatever its minimum severity and its
-- confidence gate are and whatever the report holds. The event of a change of its report goes out to
-- exactly the webhooks whose severity, targets, types and labels want it: their gates hold nothing of
-- such a scan back either.
pub sends-failed :
    (n : Channel) (w : Webhook) (r : Result) (rep : Option Report) (p : Report) (c : Change)
    → ok r ≡ false
    → in_scope n.targets n.labels (new_scan_event r rep) ≡ true
    → (sends n.gate n.min_severity n.targets n.labels (new_scan_event r rep) ≡ true)
      × (sends_change w (change_event r p c) ≡ wants_change w (change_event r p c))
unfolding sends wants_scan_event new_scan_event trustworthiness drops below sends_change
    change_event
sends-failed n w r rep p c e s = (ground (arith, untrusted r e), ground (arith, e))

highest-reaches :
    (n : ℕ) (s : Severity) (cs : List Change)
    → leb n (rank (highest_from s cs)) ≡ (leb n (rank s) || any (λ c. leb n (rank c.severity)) cs)
unfolding highest_from any at_least
highest-reaches n s [] = ground arith
highest-reaches n s (c ∷ cs) =
    ground (arith, highest-reaches n (if at_least c.severity s then c.severity else s) cs)

-- The last three tests of `wantsScanEvent`.
worth : Severity → List Change → Bool
worth m cs =
    if is_nil cs
    then false
    else if is_unset m
    then true
    else at_least (highest_from Severity.unset cs) m

set-not : (m : Severity) → m ≢ Severity.unset → is_unset m ≡ false
set-not Severity.unset h = absurd (h refl)
set-not _ h = refl

zero-reached :
    (m : Severity) (c : Change) (cs : List Change)
    → (leb (rank m) (rank Severity.unset) || any (λ x. leb (rank m) (rank x.severity)) (c ∷ cs))
      ≡ any (λ x. leb (rank m) (rank x.severity)) (c ∷ cs)
unfolding any rank
zero-reached m c cs = ground arith

worth-any :
    (m : Severity) (cs : List Change)
    → m ≢ Severity.unset
    → worth m cs ≡ any (λ c. at_least c.severity m) cs
unfolding worth any at_least
worth-any m [] set = refl
worth-any m (c ∷ cs) set =
    rw (set-not m set) (highest-reaches (rank m) Severity.unset (c ∷ cs) ∙ zero-reached m c cs)

sends-plain :
    (g : ConfidenceGate) (m : Severity) (targets : List Text) (labels : List (Text × Text))
    (ev : ScanEvent)
    → g.enabled ≡ false
    → in_scope targets labels ev ≡ true
    → ev.trustworthy ≡ true
    → sends g m targets labels ev
      ≡ (if is_nil ev.changes then false else if is_unset m then true else at_least ev.highest m)
unfolding sends wants_scan_event drops below at_least
sends-plain g m targets labels ev off s t = ground arith

-- A trustworthy scan goes out to a notifier that is about its target, has no confidence gate and
-- has a minimum severity, exactly when its report has findings at or above that severity.
pub sends-findings :
    (g : ConfidenceGate) (min_severity : Severity) (targets : List Text)
    (labels : List (Text × Text)) (r : Result) (rep : Report)
    → g.enabled ≡ false
    → min_severity ≢ Severity.unset
    → in_scope targets labels (new_scan_event r (some rep)) ≡ true
    → (trustworthiness r).0 ≡ true
    → sends g min_severity targets labels (new_scan_event r (some rep))
      ≡ has_findings_at_least rep min_severity
unfolding new_scan_event has_findings_at_least worth
sends-findings g min_severity targets labels r rep off set s t =
    sends-plain g min_severity targets labels (new_scan_event r (some rep)) off s t
    ∙ worth-any min_severity rep.changes set

-- A gate takes trust away from exactly the trustworthy scans below its minimum and keeps their
-- changes; an untrustworthy scan is left as it is, with the caveat that says what went wrong, and a
-- second pass changes nothing.
pub mark_scan-lem :
    (g : ConfidenceGate) (ev : ScanEvent)
    → ((mark_scan g ev).trustworthy
        ≡ (ev.trustworthy && not (below g ev.confidence ev.observed_nothing)))
      × ((if ev.trustworthy then ev else mark_scan g ev) ≡ ev)
      × (mark_scan g (mark_scan g ev) ≡ mark_scan g ev)
      × ((mark_scan g ev).changes ≡ ev.changes)
unfolding mark_scan
mark_scan-lem g ev = (ground arith, ground arith, ground arith, ground arith)
