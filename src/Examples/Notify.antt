-- ===== src/Examples/Notify.antt =====
-- Notifications of internal/notify for concrete scans.
use wsaw.Prelude.{
  not, ◌&&◌, ltb, if◌then◌else◌, ◌≡◌, ◌≢◌, refl, true, false, none, some, [], ◌∷◌, any, count_if,
}
use wsaw.Prelude.Text.{bytes, eqb}
use wsaw.Prelude.Assoc.{in_order}
use wsaw.Model.Enums.{Termination, Party, ConsentPhase}
use wsaw.Model.Result.{Result, ok, truncated, incomplete_ratio, incomplete_observations}
use wsaw.Model.Confidence.{Band}
use wsaw.Confidence.{
  History, band_of, take_off, termination_reason, fetches_reason, duration_reason, consent_reason,
  consent_base, score, consent_caveat,
}
use wsaw.Diff.Change.{
  Change, ChangeType, Value, Message, Reason, at_least, rank, Severity, Report,
  has_findings_at_least,
}
use wsaw.Diff.Compare.{compare}
use wsaw.Notify.Webhook.{Channel, Webhook, sends_change, wants_change, change_event}
use wsaw.Notify.{
  mark_scan, largest, EventCaveat, ConfidenceGate, ScanEvent, trustworthiness, new_scan_event,
  in_scope, sends,
}
use wsaw.Notify.Laws.{mark_scan-high, scored, sends-failed, sends-findings}
use wsaw.Examples.Scans.{millionths, flat_web, earlier, later, options}

abbrev history : History
history = record { durations = []; unavailable = [] }

later_high : (score millionths in_order later history 100000).band ≡ Band.high
unfolding score ok band_of incomplete_ratio count_if take_off termination_reason fetches_reason
    incomplete_observations duration_reason consent_reason consent_base consent_caveat
later_high = refl

-- The gate of a channel that asks for 101 of 100.
abbrev above : ConfidenceGate
above = record { enabled = true; min = 101; drop = false }

mark_scan-high_example :
    let c = score millionths in_order later history 100000 in
    let ev =
      mark_scan above (new_scan_event (scored millionths in_order later history 100000) none) in
    (ev.trustworthy ≡ not (true && ltb c.score 101))
    × (ev.caveat ≡ (
        if true && ltb c.score 101
        then EventCaveat.low_confidence c.score 101 (largest 0 none c.reasons)
        else EventCaveat.nothing))
mark_scan-high_example =
    mark_scan-high millionths in_order later history 100000 above none later_high

later-trusted : (trustworthiness later).0 ≡ true
unfolding trustworthiness ok truncated consent_caveat
later-trusted = refl

-- The channel holds back scans below 95 of 100.
abbrev strict : ConfidenceGate
strict = record { enabled = true; min = 95; drop = true }

abbrev open_gate : ConfidenceGate
open_gate = record { enabled = false; min = 0; drop = false }

abbrev failed : Result
failed = record later { termination = Termination.error; error = bytes "no browser" }

failed-ok : ok failed ≡ false
unfolding ok
failed-ok = refl

failed-in_scope : in_scope (bytes "shop" ∷ []) [] (new_scan_event failed none) ≡ true
unfolding in_scope new_scan_event eqb any
failed-in_scope = refl

abbrev report : Report
report = compare millionths flat_web in_order (some earlier) later options

abbrev team : Channel
team = record {
  min_severity = Severity.critical;
  targets = bytes "shop" ∷ [];
  labels = [];
  gate = strict;
}

abbrev hook : Webhook
hook = record {
  min_severity = Severity.high;
  targets = [];
  labels = [];
  change_types = [];
  gate = strict;
}

abbrev degraded : Change
degraded = record {
  type = ChangeType.scan_degraded;
  severity = Severity.medium;
  target = bytes "shop";
  consent_mode = failed.consent_mode;
  subject = [];
  domain = [];
  party = Party.unset;
  phase = ConsentPhase.unset;
  before = Value.text [];
  after = Value.text [];
  detail = Message.incomparable Reason.none_given;
}

-- The webhook is about high severities alone, so it does not hear of the failure.
not_heard : sends_change hook (change_event failed report degraded) ≡ false
unfolding sends_change wants_change change_event at_least rank
not_heard = refl

sends-failed_example :
    (sends strict Severity.critical (bytes "shop" ∷ []) [] (new_scan_event failed none) ≡ true)
    × (sends_change hook (change_event failed report degraded)
        ≡ wants_change hook (change_event failed report degraded))
sends-failed_example = sends-failed team hook failed none report degraded failed-ok failed-in_scope

later-in_scope : in_scope [] [] (new_scan_event later (some report)) ≡ true
unfolding in_scope new_scan_event
later-in_scope = refl

not_unset : Severity.high ≢ Severity.unset
not_unset e = cc

sends-findings_example :
    sends open_gate Severity.high [] [] (new_scan_event later (some report))
    ≡ has_findings_at_least report Severity.high
sends-findings_example =
    sends-findings open_gate Severity.high [] [] later report refl not_unset later-in_scope
      later-trusted

abbrev event : ScanEvent
event = new_scan_event later (some report)
