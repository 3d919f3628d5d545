-- ===== src/Diff/Rules/Layers.antt =====
-- Layers of the severity rules of internal/diff/rules.go.
use wsaw.Prelude.{◌≡◌, ◌≢◌, refl, ap, ◌∙◌, All}
use wsaw.Diff.Change.{Severity}
use wsaw.Diff.Rules.{SeverityRules, or_severity, over, with_defaults, default_severity_rules, named}

or_assoc : (a b c : Severity) → or_severity (or_severity a b) c ≡ or_severity a (or_severity b c)
unfolding or_severity
or_assoc Severity.unset b c = refl
or_assoc Severity.info b c = refl
or_assoc _ b c = refl

-- Layers of rules stack: it makes no difference which two of three are joined first.
pub over_assoc : (a b c : SeverityRules) → over (over a b) c ≡ over a (over b c)
unfolding over
over_assoc a b c = λ i. record {
  third_party_host_reject_mode =
      or_assoc a.third_party_host_reject_mode b.third_party_host_reject_mode
        c.third_party_host_reject_mode i;
  third_party_host_pre_consent =
      or_assoc a.third_party_host_pre_consent b.third_party_host_pre_consent
        c.third_party_host_pre_consent i;
  third_party_host_added =
      or_assoc a.third_party_host_added b.third_party_host_added c.third_party_host_added i;
  first_party_host_added =
      or_assoc a.first_party_host_added b.first_party_host_added c.first_party_host_added i;
  host_removed = or_assoc a.host_removed b.host_removed c.host_removed i;
  third_party_script_added =
      or_assoc a.third_party_script_added b.third_party_script_added c.third_party_script_added i;
  third_party_asset_added =
      or_assoc a.third_party_asset_added b.third_party_asset_added c.third_party_asset_added i;
  first_party_script_added =
      or_assoc a.first_party_script_added b.first_party_script_added c.first_party_script_added i;
  first_party_asset_added =
      or_assoc a.first_party_asset_added b.first_party_asset_added c.first_party_asset_added i;
  asset_removed = or_assoc a.asset_removed b.asset_removed c.asset_removed i;
  third_party_script_changed =
      or_assoc a.third_party_script_changed b.third_party_script_changed
        c.third_party_script_changed i;
  first_party_script_changed =
      or_assoc a.first_party_script_changed b.first_party_script_changed
        c.first_party_script_changed i;
  third_party_cookie_reject_mode =
      or_assoc a.third_party_cookie_reject_mode b.third_party_cookie_reject_mode
        c.third_party_cookie_reject_mode i;
  third_party_cookie_added =
      or_assoc a.third_party_cookie_added b.third_party_cookie_added c.third_party_cookie_added i;
  first_party_cookie_added =
      or_assoc a.first_party_cookie_added b.first_party_cookie_added c.first_party_cookie_added i;
  cookie_removed = or_assoc a.cookie_removed b.cookie_removed c.cookie_removed i;
  third_party_storage_reject_mode =
      or_assoc a.third_party_storage_reject_mode b.third_party_storage_reject_mode
        c.third_party_storage_reject_mode i;
  third_party_storage_added =
      or_assoc a.third_party_storage_added b.third_party_storage_added c.third_party_storage_added
        i;
  first_party_storage_added =
      or_assoc a.first_party_storage_added b.first_party_storage_added c.first_party_storage_added
        i;
  storage_removed = or_assoc a.storage_removed b.storage_removed c.storage_removed i;
  status_became_error =
      or_assoc a.status_became_error b.status_became_error c.status_became_error i;
  status_changed = or_assoc a.status_changed b.status_changed c.status_changed i;
  consent_changed = or_assoc a.consent_changed b.consent_changed c.consent_changed i;
  consent_degraded = or_assoc a.consent_degraded b.consent_degraded c.consent_degraded i;
  denied_host = or_assoc a.denied_host b.denied_host c.denied_host i;
  scan_degraded = or_assoc a.scan_degraded b.scan_degraded c.scan_degraded i;
}

or-ne-unset : (a b : Severity) → b ≢ Severity.unset → or_severity a b ≢ Severity.unset
unfolding or_severity
or-ne-unset Severity.unset b h = h
or-ne-unset Severity.info b h = λ e. cc
or-ne-unset _ b h = λ e. cc

default_idem : over default_severity_rules default_severity_rules ≡ default_severity_rules
unfolding over or_severity
default_idem = refl

-- Every rule is set once the defaults are filled in, and filling them in again changes nothing.
pub with_defaults-set :
    (s : SeverityRules)
    → All (λ e. e.1 ≢ Severity.unset) (named (with_defaults s))
      × (with_defaults (with_defaults s) ≡ with_defaults s)
unfolding with_defaults over named
with_defaults-set s = (
  (
    or-ne-unset s.third_party_host_reject_mode default_severity_rules.third_party_host_reject_mode
        (λ e. cc),
    (
      or-ne-unset s.third_party_host_pre_consent default_severity_rules.third_party_host_pre_consent
          (λ e. cc),
      (
        or-ne-unset s.third_party_host_added default_severity_rules.third_party_host_added
            (λ e. cc),
        (
          or-ne-unset s.first_party_host_added default_severity_rules.first_party_host_added
              (λ e. cc),
          (
            or-ne-unset s.host_removed default_severity_rules.host_removed (λ e. cc),
            (
              or-ne-unset s.third_party_script_added default_severity_rules.third_party_script_added
                  (λ e. cc),
              (
                or-ne-unset s.third_party_asset_added default_severity_rules.third_party_asset_added
                    (λ e. cc),
                (
                  or-ne-unset s.first_party_script_added
                      default_severity_rules.first_party_script_added (λ e. cc),
                  (
                    or-ne-unset s.first_party_asset_added
                        default_severity_rules.first_party_asset_added (λ e. cc),
                    (
                      or-ne-unset s.asset_removed default_severity_rules.asset_removed (λ e. cc),
                      (
                        or-ne-unset s.third_party_script_changed
                            default_severity_rules.third_party_script_changed (λ e. cc),
                        (
                          or-ne-unset s.first_party_script_changed
                              default_severity_rules.first_party_script_changed (λ e. cc),
                          (
                            or-ne-unset s.third_party_cookie_reject_mode
                                default_severity_rules.third_party_cookie_reject_mode (λ e. cc),
                            (
                              or-ne-unset s.third_party_cookie_added
                                  default_severity_rules.third_party_cookie_added (λ e. cc),
                              (
                                or-ne-unset s.first_party_cookie_added
                                    default_severity_rules.first_party_cookie_added (λ e. cc),
                                (
                                  or-ne-unset s.cookie_removed default_severity_rules.cookie_removed
                                      (λ e. cc),
                                  (
                                    or-ne-unset s.third_party_storage_reject_mode
                                        default_severity_rules.third_party_storage_reject_mode
                                        (λ e. cc),
                                    (
                                      or-ne-unset s.third_party_storage_added
                                          default_severity_rules.third_party_storage_added
                                          (λ e. cc),
                                      (
                                        or-ne-unset s.first_party_storage_added
                                            default_severity_rules.first_party_storage_added
                                            (λ e. cc),
                                        (
                                          or-ne-unset s.storage_removed
                                              default_severity_rules.storage_removed (λ e. cc),
                                          (
                                            or-ne-unset s.status_became_error
                                                default_severity_rules.status_became_error
                                                (λ e. cc),
                                            (
                                              or-ne-unset s.status_changed
                                                  default_severity_rules.status_changed (λ e. cc),
                                              (
                                                or-ne-unset s.consent_changed
                                                    default_severity_rules.consent_changed
                                                    (λ e. cc),
                                                (
                                                  or-ne-unset s.consent_degraded
                                                      default_severity_rules.consent_degraded
                                                      (λ e. cc),
                                                  (
                                                    or-ne-unset s.denied_host
                                                        default_severity_rules.denied_host
                                                        (λ e. cc),
                                                    (
                                                      or-ne-unset s.scan_degraded
                                                          default_severity_rules.scan_degraded
                                                          (λ e. cc),
                                                      tt,
                                                    ),
                                                  ),
                                                ),
                                              ),
                                            ),
                                          ),
                                        ),
                                      ),
                                    ),
                                  ),
                                ),
                              ),
                            ),
                          ),
                        ),
                      ),
                    ),
                  ),
                ),
              ),
            ),
          ),
        ),
      ),
    ),
  ),
  over_assoc s default_severity_rules default_severity_rules ∙ ap (over s) default_idem,
)
