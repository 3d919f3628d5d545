-- ===== src/Diff/Compare.antt =====
-- internal/diff/diff.go: `Compare`, in the order in which it makes its comparisons.
use wsaw.Prelude.{Bool, true, false, Option, none, some, List, [], ◌∷◌, ◌++◌, if◌then◌else◌}
use wsaw.Prelude.Assoc.{MapOrder}
use wsaw.Model.Enums.{ConsentPhase, Party, termination_text}
use wsaw.Model.Result.{
  Float, Result, ok, truncated, incomplete_ratio, incomplete_observations, network_count,
}
use wsaw.Model.Reasons.{top_incomplete_reason}
use wsaw.Classify.{Domains}
use wsaw.Diff.Change.{ChangeType, Reason, Message, Change, Report, empty}
use wsaw.Diff.Rules.{with_defaults}
use wsaw.Diff.HostList.{list_empty}
use wsaw.Diff.Maps.{hosts, assets, cookies_from, storage_from, unobserved_domains}
use wsaw.Diff.Differ.{Options, Differ, apply, for_each, browser_change, incomparable, sort_changes}
use wsaw.Diff.Effects

module _ {F : Type 0} (fl : Float F) where
  -- `withDefaults`; the default ratio is 0.05.
  abbrev pub options_with_defaults : Options F → Options F
  options_with_defaults o = record o {
    severity = with_defaults o.severity;
    degraded_failure_ratio =
        if fl.le o.degraded_failure_ratio (fl.of_int 0)
        then fl.quotient (fl.of_int 1) (fl.of_int 20)
        else o.degraded_failure_ratio;
  }

  unfoldable pub degraded : Options F → Result → Bool
  degraded o r = fl.le o.degraded_failure_ratio (incomplete_ratio fl r)

module _ {F : Type 0} (dm : Domains) (order : MapOrder) (d : Differ F) where
  unfoldable pub compare_hosts : Report → Report
  compare_hosts r =
      let before = hosts d.baseline in
      let after = hosts d.current in
      for_each (Effects.host_removed dm d after) (order.visit 2 before)
        (for_each (Effects.host_added dm d before) (order.visit 1 after) r)

  unfoldable pub compare_assets : Report → Report
  compare_assets r =
      for_each (Effects.asset_removed dm d) (order.visit 4 d.before)
        (for_each (Effects.asset_added dm d) (order.visit 3 d.after) r)

  unfoldable pub compare_scripts : Report → Report
  compare_scripts r = for_each (Effects.script_changed dm d) (order.visit 5 d.after) r

  unfoldable pub compare_cookies : Report → Report
  compare_cookies r =
      let before = cookies_from [] d.baseline.cookies in
      let after = cookies_from [] d.current.cookies in
      for_each (Effects.cookie_removed dm d after) (order.visit 7 before)
        (for_each (Effects.cookie_added dm d before) (order.visit 6 after) r)

  unfoldable pub compare_storage : Report → Report
  compare_storage r =
      let before = storage_from [] d.baseline.storage in
      let after = storage_from [] d.current.storage in
      for_each (Effects.storage_removed dm d after) (order.visit 9 before)
        (for_each (Effects.storage_added dm d before) (order.visit 8 after) r)

  unfoldable pub compare_statuses : Report → Report
  compare_statuses r = for_each (Effects.status_changed dm d) (order.visit 10 d.after) r

  unfoldable pub compare_consent : Report → Report
  compare_consent r = apply (Effects.consent_changed dm d d.baseline.consent d.current.consent) r

  unfoldable pub flag_denied_hosts : Report → Report
  flag_denied_hosts r =
      if list_empty d.rules.deny
      then r
      else for_each (Effects.denied_host dm d) (order.visit 11 (hosts d.current)) r

  -- The findings of `flagDegradation`, in the order of its tests.
  unfoldable pub degradations : List Change
  degradations =
      let now = top_incomplete_reason order d.current in
      let was = top_incomplete_reason order d.baseline in
      (if truncated d.current
        then Effects.degraded_change dm d (termination_text d.current.termination)
            (Message.stopped_early d.current.termination)
          ∷ []
        else [])
      ++ ((if d.current_degraded
            then Effects.degraded_change dm d now.0 (
                Message.current_lost (incomplete_observations d.current)
                  (network_count d.current.requests) now.0)
              ∷ []
            else [])
          ++ (if d.baseline_degraded
              then Effects.degraded_change dm d was.0 (
                  Message.baseline_lost (incomplete_observations d.baseline)
                    (network_count d.baseline.requests) was.0)
                ∷ []
              else []))

  unfoldable pub flag_degradation : Report → Report
  flag_degradation r = record r { changes = r.changes ++ degradations }

  -- All comparisons, and the sort at their end.
  unfoldable pub comparisons : Report → Report
  comparisons r = flag_degradation (
      flag_denied_hosts (
        compare_consent (
          compare_statuses (
            compare_storage
              (compare_cookies (compare_scripts (compare_assets (compare_hosts r))))))))

module _ {F : Type 0} (fl : Float F) (dm : Domains) (order : MapOrder) where
  -- The report before anything is compared.
  unfoldable pub blank : Option Result → Result → Report
  unfolding browser_change
  blank baseline current = record {
    target = current.target;
    consent_mode = current.consent_mode;
    baseline_scan_id = elim baseline [ none ↦ [] | some b ↦ b.scan_id ];
    current_scan_id = current.scan_id;
    changes = [];
    suppressed = 0;
    comparable = false;
    reason = Reason.none_given;
    browser_changed = browser_change baseline current;
  }

  abbrev pub differ : Result → Result → Options F → Differ F
  differ baseline current rules = record {
    baseline = baseline;
    current = current;
    rules = rules;
    current_degraded = degraded fl rules current;
    baseline_degraded = degraded fl rules baseline;
    unobserved = unobserved_domains current.requests;
    before = assets dm rules.normalizer baseline;
    after = assets dm rules.normalizer current;
  }

  -- The branch for results that must not be compared: a scan that is not trustworthy is itself a
  -- finding.
  unfoldable pub refused : Result → Options F → Reason → Report → Report
  unfolding ok
  refused current rules reason r = if ok current then record r { reason = reason } else record r {
    reason = reason;
    changes =
        record {
          type = ChangeType.scan_degraded;
          severity = rules.severity.scan_degraded;
          target = current.target;
          consent_mode = current.consent_mode;
          subject = current.url;
          domain = [];
          party = Party.unset;
          phase = ConsentPhase.unset;
          before = empty;
          after = empty;
          detail = Message.incomparable reason;
        }
        ∷ [];
  }

  unfoldable pub compared : Result → Result → Options F → Report → Report
  unfolding comparisons
  compared baseline current rules r =
      let full =
        comparisons dm order (differ baseline current rules) (record r { comparable = true }) in
      record full { changes = sort_changes full.changes }

  unfoldable pub decide : Option Result → Result → Options F → Option Reason → Report
  unfolding blank refused compared
  decide baseline current rules (some reason) =
      refused current rules reason (blank baseline current)
  decide none current rules none = blank none current
  decide (some b) current rules none = compared b current rules (blank (some b) current)

  unfoldable pub compare : Option Result → Result → Options F → Report
  unfolding decide incomparable
  compare baseline current opts =
      decide baseline current (options_with_defaults fl opts) (incomparable baseline current)
