-- ===== src/Diff/Change.antt =====
-- internal/diff/diff.go: severities, changes and reports. A sentence for a reader is kept as a
-- `Message`: one constructor for each format string of the code, with its arguments.
use wsaw.Prelude.{ℕ, Bool, not, Option, none, some, List, [], ◌∷◌, any, leb, ltb, if◌then◌else◌}
use wsaw.Prelude.Text.{Text, bytes, eqb}
use wsaw.Model.Enums.{ConsentMode, ConsentOutcome, ConsentPhase, Party, Termination}

pub data ChangeType : Type 0 where
  host_added host_removed asset_added asset_removed script_changed cookie_added cookie_removed
        storage_added storage_removed status_changed consent_changed denied_host scan_degraded :
      ChangeType

unfoldable pub type_text : ChangeType → Text
type_text ChangeType.host_added = bytes "host-added"
type_text ChangeType.host_removed = bytes "host-removed"
type_text ChangeType.asset_added = bytes "asset-added"
type_text ChangeType.asset_removed = bytes "asset-removed"
type_text ChangeType.script_changed = bytes "script-changed"
type_text ChangeType.cookie_added = bytes "cookie-added"
type_text ChangeType.cookie_removed = bytes "cookie-removed"
type_text ChangeType.storage_added = bytes "storage-added"
type_text ChangeType.storage_removed = bytes "storage-removed"
type_text ChangeType.status_changed = bytes "status-changed"
type_text ChangeType.consent_changed = bytes "consent-changed"
type_text ChangeType.denied_host = bytes "denied-host"
type_text ChangeType.scan_degraded = bytes "scan-degraded"

-- `unset` is the empty string: a rule that the configuration leaves out.
pub data Severity : Type 0 where
  unset info low medium high critical : Severity
  other : Text → Severity

-- `Rank`: a severity that the table lacks has the rank 0.
unfoldable pub rank : Severity → ℕ
rank Severity.low = 1
rank Severity.medium = 2
rank Severity.high = 3
rank Severity.critical = 4
rank _ = 0

unfoldable pub at_least : Severity → Severity → Bool
unfolding rank
at_least s threshold = leb (rank threshold) (rank s)

-- `ParseSeverity`: nothing for an error.
unfoldable pub parse_severity : Text → Option Severity
parse_severity s =
    if eqb s (bytes "info")
    then some Severity.info
    else if eqb s (bytes "low")
    then some Severity.low
    else if eqb s (bytes "medium")
    then some Severity.medium
    else if eqb s (bytes "high")
    then some Severity.high
    else if eqb s (bytes "critical")
    then some Severity.critical
    else none

-- Why two results were not compared.
pub data Reason : Type 0 where
  none_given no_baseline untrusted_baseline evidence_gone first_baseline : Reason
  untrusted_current : Text → Reason
  modes_differ : ConsentMode → ConsentMode → Reason

pub data Message : Type 0 where
  third_host_before_consent third_host_despite_reject third_host first_host : Text → Message
  host_gone : Text → Message
  asset_new : Text → Text → Message
  asset_gone : Text → Message
  script_content : Party → Text → Message
  script_identity : Text → Party → Text → Text → Text → Message
  cookie_new : Party → Text → Text → Message
  cookie_gone : Text → Text → Message
  storage_new : Party → Text → Text → Text → Message
  storage_gone : Text → Text → Text → Message
  status_from_to : ℕ → ℕ → Message
  consent_from_to : ConsentOutcome → ConsentOutcome → Option (Text × Text) → Text → Message
  host_denied : Text → Message
  stopped_early : Termination → Message
  -- The requests not observed, all network requests, and the most frequent reason.
  current_lost baseline_lost : ℕ → ℕ → Text → Message
  incomparable : Reason → Message

-- The fields Before and After, which hold a text or a formatted number.
pub data Value : Type 0 where
  text : Text → Value
  requests : ℕ → Value
  status : ℕ → Value

abbrev pub empty : Value
empty = text []

pub record Change : Type 0 where
  pub type : ChangeType
  pub severity : Severity
  pub target : Text
  pub consent_mode : ConsentMode
  pub subject : Text
  pub domain : Text
  pub party : Party
  pub phase : ConsentPhase
  pub before : Value
  pub after : Value
  pub detail : Message

pub record Browser : Type 0 where
  pub runtime : Text
  pub version : Text
  pub image : Text
  pub image_id : Text

pub record BrowserChange : Type 0 where
  pub before : Browser
  pub after : Browser

pub record Report : Type 0 where
  pub target : Text
  pub consent_mode : ConsentMode
  pub baseline_scan_id : Text
  pub current_scan_id : Text
  pub changes : List Change
  pub suppressed : ℕ
  pub comparable : Bool
  pub reason : Reason
  pub browser_changed : Option BrowserChange

-- The loop of `MaxSeverity`.
unfoldable pub max_severity_from : Severity → List Change → Severity
unfolding rank
max_severity_from highest [] = highest
max_severity_from highest (c ∷ cs) =
    max_severity_from (if ltb (rank highest) (rank c.severity) then c.severity else highest) cs

unfoldable pub max_severity : Report → Severity
unfolding max_severity_from
max_severity r = max_severity_from Severity.info r.changes

unfoldable pub same_type : ChangeType → ChangeType → Bool
unfolding type_text
same_type a b = eqb (type_text a) (type_text b)

-- The loop of `MaxSeverityOf`.
unfoldable pub max_severity_of_from : List ChangeType → Severity → List Change → Severity
unfolding rank same_type
max_severity_of_from types highest [] = highest
max_severity_of_from types highest (c ∷ cs) =
    max_severity_of_from types
      (if not (any (same_type c.type) types)
        then highest
        else if ltb (rank highest) (rank c.severity)
        then c.severity
        else highest)
      cs

unfoldable pub max_severity_of : Report → List ChangeType → Severity
unfolding max_severity_of_from
max_severity_of r types = max_severity_of_from types Severity.info r.changes

unfoldable pub has_findings_at_least : Report → Severity → Bool
unfolding at_least
has_findings_at_least r threshold = any (λ c. at_least c.severity threshold) r.changes
