-- ===== src/Examples/Scans.antt =====
-- Two scans of one site: the second contacts a tracker, and a script of it has changed.
use wsaw.Prelude.{ℕ, ◌+◌, ◌*◌, ◌/◌, leb, false, none, some, List, [], ◌∷◌}
use wsaw.Prelude.Text.{Text, bytes}
use wsaw.Model.Enums.{ConsentMode, ConsentOutcome, ConsentPhase, Party, Termination}
use wsaw.Model.Request.{Request}
use wsaw.Model.Result.{Float, Result}
use wsaw.Classify.{Domains}
use wsaw.Diff.Change.{Severity}
use wsaw.Diff.Rules.{SeverityRules}
use wsaw.Diff.Differ.{Options}

-- Millionths stand for floats here.
abbrev pub millionths : Float ℕ
millionths = record {
  of_int = λ n. n * 1000000;
  quotient = λ a b. a * 1000000 / b;
  product = λ a b. a * b / 1000000;
  le = leb;
  round = λ a. (a + 500000) / 1000000;
}

-- A web in which every text is a host, and every host a registrable domain.
abbrev pub flat_web : Domains
flat_web = record { hostname = λ s. some s; etld_plus_one = λ s. some s }

abbrev pub fetch : Text → Party → Text → Request
fetch domain party digest = record {
  url = domain;
  normalized_url = domain;
  resource_type = bytes "script";
  host = domain;
  domain = domain;
  party = party;
  phase = ConsentPhase.pre;
  status = 200;
  transfer_size = 10;
  non_network = false;
  initiator = record { url = []; stack = [] };
  failed = false;
  failure_reason = [];
  blocked = false;
  body_sha256 = digest;
  body_identity = [];
  body_identity_label = [];
  end_offset = 5;
}

abbrev pub scan_with : Text → List Request → Result
scan_with id requests = record {
  scan_id = id;
  target = bytes "shop";
  url = bytes "a.de";
  labels = [];
  confidence = none;
  consent_mode = ConsentMode.reject;
  consent = record { outcome = ConsentOutcome.applied; reason = []; cmp = []; heuristic = false };
  duration = 100;
  termination = Termination.idle;
  error = [];
  environment = record {
    chrome_version = [];
    browser_runtime = [];
    browser_image = [];
    browser_image_id = [];
  };
  requests = requests;
  cookies = [];
  storage = [];
}

abbrev pub earlier : Result
earlier = scan_with (bytes "s1") (fetch (bytes "a.de") Party.first (bytes "11") ∷ [])

abbrev pub later : Result
later = scan_with (bytes "s2") (
    fetch (bytes "a.de") Party.first (bytes "22")
    ∷ fetch (bytes "t.io") Party.third (bytes "33")
    ∷ [])

abbrev pub no_rules : SeverityRules
no_rules = record {
  third_party_host_reject_mode = Severity.unset;
  third_party_host_pre_consent = Severity.unset;
  third_party_host_added = Severity.unset;
  first_party_host_added = Severity.unset;
  host_removed = Severity.unset;
  third_party_script_added = Severity.unset;
  third_party_asset_added = Severity.unset;
  first_party_script_added = Severity.unset;
  first_party_asset_added = Severity.unset;
  asset_removed = Severity.unset;
  third_party_script_changed = Severity.unset;
  first_party_script_changed = Severity.unset;
  third_party_cookie_reject_mode = Severity.unset;
  third_party_cookie_added = Severity.unset;
  first_party_cookie_added = Severity.unset;
  cookie_removed = Severity.unset;
  third_party_storage_reject_mode = Severity.unset;
  third_party_storage_added = Severity.unset;
  first_party_storage_added = Severity.unset;
  storage_removed = Severity.unset;
  status_became_error = Severity.unset;
  status_changed = Severity.unset;
  consent_changed = Severity.unset;
  consent_degraded = Severity.unset;
  denied_host = Severity.unset;
  scan_degraded = Severity.unset;
}

-- The deny list holds the tracker; nothing is allowed.
abbrev pub options : Options ℕ
options = record {
  allow = record { exact = []; suffixes = [] };
  deny = record { exact = bytes "t.io" ∷ []; suffixes = [] };
  severity = no_rules;
  degraded_failure_ratio = 0;
  normalizer = none;
}
