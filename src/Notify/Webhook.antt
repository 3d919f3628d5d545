-- ===== src/Notify/Webhook.antt =====
-- internal/notify/notify.go: the events of single changes, which webhooks want them, and what a
-- publication queues and delivers. Templates, HTTP and its retries are left out.
use wsaw.Prelude.{
  ℕ, Bool, true, false, not, ◌&&◌, Option, none, some, List, [], ◌∷◌, ◌++◌, map, if◌then◌else◌, ltb,
  any, length, keep_if,
}
use wsaw.Prelude.Text.{Text, eqb}
use wsaw.Model.Enums.{ConsentMode}
use wsaw.Model.Result.{Result, ok}
use wsaw.Diff.Change.{Change, ChangeType, Severity, BrowserChange, Report, type_text, at_least}
use wsaw.Notify.{
  ConfidenceGate, ScanConfidence, ScanEvent, below, drops, scan_confidence, new_scan_event,
  labels_match, is_unset, is_nil, sends,
}

-- The time of the scan is left out.
pub record Event : Type 0 where
  pub target : Text
  pub url : Text
  pub consent_mode : ConsentMode
  pub labels : List (Text × Text)
  pub scan_id : Text
  pub change : Change
  pub confidence : Option ScanConfidence
  pub below_confidence : Bool
  pub browser_changed : Option BrowserChange
  pub observed_nothing : Bool

-- `Config`, as far as it filters.
pub record Webhook : Type 0 where
  pub min_severity : Severity
  pub targets : List Text
  pub labels : List (Text × Text)
  pub change_types : List ChangeType
  pub gate : ConfidenceGate

-- What a scan-level notifier filters by.
pub record Channel : Type 0 where
  pub min_severity : Severity
  pub targets : List Text
  pub labels : List (Text × Text)
  pub gate : ConfidenceGate

abbrev pub contains_type : List ChangeType → ChangeType → Bool
contains_type types t = any (λ u. eqb (type_text u) (type_text t)) types

-- `Wants`
unfoldable pub wants_change : Webhook → Event → Bool
unfolding labels_match at_least
wants_change w ev =
    if not (is_unset w.min_severity) && not (at_least ev.change.severity w.min_severity)
    then false
    else if not (is_nil w.targets) && not (any (λ t. eqb t ev.target) w.targets)
    then false
    else if not (is_nil w.change_types) && not (contains_type w.change_types ev.change.type)
    then false
    else labels_match ev.labels w.labels

unfoldable pub mark_change : ConfidenceGate → Event → Event
unfolding below
mark_change g ev = record ev { below_confidence = below g ev.confidence ev.observed_nothing }

-- One webhook of `fanOut`: whether the event goes out to it.
unfoldable pub sends_change : Webhook → Event → Bool
unfolding wants_change drops
sends_change w ev = wants_change w ev && not (drops w.gate ev.confidence ev.observed_nothing)

-- The event of one change of a report.
unfoldable pub change_event : Result → Report → Change → Event
unfolding scan_confidence
change_event r rep c = record {
  target = r.target;
  url = r.url;
  consent_mode = r.consent_mode;
  labels = r.labels;
  scan_id = r.scan_id;
  change = c;
  confidence = scan_confidence r;
  below_confidence = false;
  browser_changed = rep.browser_changed;
  observed_nothing = not (ok r);
}

pub data Envelope : Type 0 where
  change : Event → Envelope
  scan : ScanEvent → Envelope

-- `enqueue`: a full queue drops the event. Whether it was taken comes second.
unfoldable pub enqueue : ℕ → Envelope → List Envelope → List Envelope × Bool
enqueue size env queue =
    if ltb (length queue) size then (queue ++ env ∷ [], true) else (queue, false)

-- What `Publish` hands to `enqueue`, in its order.
unfoldable pub published : List Channel → Result → Option Report → List Envelope
unfolding change_event new_scan_event
published channels r rep =
    elim rep [ none ↦ [] | some p ↦ map (λ c. Envelope.change (change_event r p c)) p.changes ]
    ++ (if is_nil channels then [] else Envelope.scan (new_scan_event r rep) ∷ [])

-- `deliver`: the notifiers that the event goes out to, with the event as each of them delivers it.
unfoldable pub deliver_change : List Webhook → Event → List (Webhook × Event)
unfolding sends_change mark_change
deliver_change webhooks ev =
    map (λ w. (w, mark_change w.gate ev)) (keep_if (λ w. sends_change w ev) webhooks)

unfoldable pub deliver_scan : List Channel → ScanEvent → List Channel
unfolding sends
deliver_scan channels ev = keep_if (λ n. sends n.gate n.min_severity n.targets n.labels ev) channels
