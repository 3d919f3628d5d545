-- ===== src/Diff/Rules.antt =====
-- internal/diff/rules.go: the severity of each kind of change, its defaults and its layers.
pub mod Layers
use wsaw.Prelude.{ℕ, ◌&&◌, List, [], ◌∷◌, leb, ltb, if◌then◌else◌}
use wsaw.Prelude.Text.{Text, bytes, eqb}
use wsaw.Model.Enums.{ConsentMode, ConsentPhase, Party, is_third, is_reject, is_pre}
use wsaw.Diff.Change.{Severity}

pub record SeverityRules : Type 0 where
  pub third_party_host_reject_mode : Severity
  pub third_party_host_pre_consent : Severity
  pub third_party_host_added : Severity
  pub first_party_host_added : Severity
  pub host_removed : Severity
  pub third_party_script_added : Severity
  pub third_party_asset_added : Severity
  pub first_party_script_added : Severity
  pub first_party_asset_added : Severity
  pub asset_removed : Severity
  pub third_party_script_changed : Severity
  pub first_party_script_changed : Severity
  pub third_party_cookie_reject_mode : Severity
  pub third_party_cookie_added : Severity
  pub first_party_cookie_added : Severity
  pub cookie_removed : Severity
  pub third_party_storage_reject_mode : Severity
  pub third_party_storage_added : Severity
  pub first_party_storage_added : Severity
  pub storage_removed : Severity
  pub status_became_error : Severity
  pub status_changed : Severity
  pub consent_changed : Severity
  pub consent_degraded : Severity
  pub denied_host : Severity
  pub scan_degraded : Severity

-- `DefaultSeverityRules`.
abbrev pub default_severity_rules : SeverityRules
default_severity_rules = record {
  third_party_host_reject_mode = Severity.critical;
  third_party_host_pre_consent = Severity.high;
  third_party_host_added = Severity.high;
  first_party_host_added = Severity.low;
  host_removed = Severity.info;
  third_party_script_added = Severity.high;
  third_party_asset_added = Severity.medium;
  first_party_script_added = Severity.low;
  first_party_asset_added = Severity.info;
  asset_removed = Severity.info;
  third_party_script_changed = Severity.high;
  first_party_script_changed = Severity.low;
  third_party_cookie_reject_mode = Severity.critical;
  third_party_cookie_added = Severity.medium;
  first_party_cookie_added = Severity.low;
  cookie_removed = Severity.info;
  third_party_storage_reject_mode = Severity.critical;
  third_party_storage_added = Severity.medium;
  first_party_storage_added = Severity.low;
  storage_removed = Severity.info;
  status_became_error = Severity.medium;
  status_changed = Severity.low;
  consent_changed = Severity.medium;
  consent_degraded = Severity.high;
  denied_host = Severity.critical;
  scan_degraded = Severity.medium;
}

-- `cmp.Or` of two severities: the first that is set.
unfoldable pub or_severity : Severity → Severity → Severity
or_severity Severity.unset b = b
or_severity a b = a

-- `Over`: every rule that is not set is taken from `base`.
unfoldable pub over : SeverityRules → SeverityRules → SeverityRules
over s base = record {
  third_party_host_reject_mode =
      or_severity s.third_party_host_reject_mode base.third_party_host_reject_mode;
  third_party_host_pre_consent =
      or_severity s.third_party_host_pre_consent base.third_party_host_pre_consent;
  third_party_host_added = or_severity s.third_party_host_added base.third_party_host_added;
  first_party_host_added = or_severity s.first_party_host_added base.first_party_host_added;
  host_removed = or_severity s.host_removed base.host_removed;
  third_party_script_added = or_severity s.third_party_script_added base.third_party_script_added;
  third_party_asset_added = or_severity s.third_party_asset_added base.third_party_asset_added;
  first_party_script_added = or_severity s.first_party_script_added base.first_party_script_added;
  first_party_asset_added = or_severity s.first_party_asset_added base.first_party_asset_added;
  asset_removed = or_severity s.asset_removed base.asset_removed;
  third_party_script_changed =
      or_severity s.third_party_script_changed base.third_party_script_changed;
  first_party_script_changed =
      or_severity s.first_party_script_changed base.first_party_script_changed;
  third_party_cookie_reject_mode =
      or_severity s.third_party_cookie_reject_mode base.third_party_cookie_reject_mode;
  third_party_cookie_added = or_severity s.third_party_cookie_added base.third_party_cookie_added;
  first_party_cookie_added = or_severity s.first_party_cookie_added base.first_party_cookie_added;
  cookie_removed = or_severity s.cookie_removed base.cookie_removed;
  third_party_storage_reject_mode =
      or_severity s.third_party_storage_reject_mode base.third_party_storage_reject_mode;
  third_party_storage_added =
      or_severity s.third_party_storage_added base.third_party_storage_added;
  first_party_storage_added =
      or_severity s.first_party_storage_added base.first_party_storage_added;
  storage_removed = or_severity s.storage_removed base.storage_removed;
  status_became_error = or_severity s.status_became_error base.status_became_error;
  status_changed = or_severity s.status_changed base.status_changed;
  consent_changed = or_severity s.consent_changed base.consent_changed;
  consent_degraded = or_severity s.consent_degraded base.consent_degraded;
  denied_host = or_severity s.denied_host base.denied_host;
  scan_degraded = or_severity s.scan_degraded base.scan_degraded;
}

unfoldable pub with_defaults : SeverityRules → SeverityRules
with_defaults s = over s default_severity_rules

-- `named`, with the values in place of the pointers: each rule under its YAML key.
unfoldable pub named : SeverityRules → List (Text × Severity)
named s =
    (bytes "thirdPartyHostRejectMode", s.third_party_host_reject_mode)
    ∷ (bytes "thirdPartyHostPreConsent", s.third_party_host_pre_consent)
    ∷ (bytes "thirdPartyHostAdded", s.third_party_host_added)
    ∷ (bytes "firstPartyHostAdded", s.first_party_host_added)
    ∷ (bytes "hostRemoved", s.host_removed)
    ∷ (bytes "thirdPartyScriptAdded", s.third_party_script_added)
    ∷ (bytes "thirdPartyAssetAdded", s.third_party_asset_added)
    ∷ (bytes "firstPartyScriptAdded", s.first_party_script_added)
    ∷ (bytes "firstPartyAssetAdded", s.first_party_asset_added)
    ∷ (bytes "assetRemoved", s.asset_removed)
    ∷ (bytes "thirdPartyScriptChanged", s.third_party_script_changed)
    ∷ (bytes "firstPartyScriptChanged", s.first_party_script_changed)
    ∷ (bytes "thirdPartyCookieRejectMode", s.third_party_cookie_reject_mode)
    ∷ (bytes "thirdPartyCookieAdded", s.third_party_cookie_added)
    ∷ (bytes "firstPartyCookieAdded", s.first_party_cookie_added)
    ∷ (bytes "cookieRemoved", s.cookie_removed)
    ∷ (bytes "thirdPartyStorageRejectMode", s.third_party_storage_reject_mode)
    ∷ (bytes "thirdPartyStorageAdded", s.third_party_storage_added)
    ∷ (bytes "firstPartyStorageAdded", s.first_party_storage_added)
    ∷ (bytes "storageRemoved", s.storage_removed)
    ∷ (bytes "statusBecameError", s.status_became_error)
    ∷ (bytes "statusChanged", s.status_changed)
    ∷ (bytes "consentChanged", s.consent_changed)
    ∷ (bytes "consentDegraded", s.consent_degraded)
    ∷ (bytes "deniedHost", s.denied_host)
    ∷ (bytes "scanDegraded", s.scan_degraded)
    ∷ []

unfoldable pub for_host_added : SeverityRules → ConsentMode → Party → ConsentPhase → Severity
for_host_added s mode party phase =
    if is_third party
    then (if is_reject mode
        then s.third_party_host_reject_mode
        else if is_pre phase
        then s.third_party_host_pre_consent
        else s.third_party_host_added)
    else s.first_party_host_added

unfoldable pub for_asset_added : SeverityRules → Party → Text → Severity
for_asset_added s party resource_type =
    let is_script = eqb resource_type (bytes "script") in
    if is_third party && is_script
    then s.third_party_script_added
    else if is_third party
    then s.third_party_asset_added
    else if is_script
    then s.first_party_script_added
    else s.first_party_asset_added

unfoldable pub for_script_changed : SeverityRules → Party → Severity
for_script_changed s party =
    if is_third party then s.third_party_script_changed else s.first_party_script_changed

unfoldable pub for_cookie_added : SeverityRules → ConsentMode → Party → Severity
for_cookie_added s mode party =
    if is_third party
    then (if is_reject mode then s.third_party_cookie_reject_mode else s.third_party_cookie_added)
    else s.first_party_cookie_added

unfoldable pub for_storage_added : SeverityRules → ConsentMode → Party → Severity
for_storage_added s mode party =
    if is_third party
    then (if is_reject mode then s.third_party_storage_reject_mode else s.third_party_storage_added)
    else s.first_party_storage_added

unfoldable pub for_status_changed : SeverityRules → ℕ → ℕ → Severity
for_status_changed s before after =
    if leb 400 after && ltb before 400 then s.status_became_error else s.status_changed
