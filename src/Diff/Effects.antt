-- ===== src/Diff/Effects.antt =====
-- internal/diff/diff.go: the body of each loop of the comparison, as the effect of one map entry.
use wsaw.Prelude.{
  Bool, false, not, ◌&&◌, ◌||◌, Option, none, some, List, [], any, if◌then◌else◌, ◌==◌,
}
use wsaw.Prelude.Text.{Text, eqb, is_empty}
use wsaw.Prelude.Assoc
use wsaw.Model.Enums.{ConsentPhase, Party, is_applied, same_outcome, outcome_text}
use wsaw.Model.Result.{Cookie, StorageEntry, Consent}
use wsaw.Classify.{Domains, mem}
use wsaw.Diff.Change.{ChangeType, Message, Value, Change, empty}
use wsaw.Diff.Rules.{
  for_host_added, for_asset_added, for_script_changed, for_cookie_added, for_storage_added,
  for_status_changed,
}
use wsaw.Diff.HostList.{matches, suppresses}
use wsaw.Diff.Maps.{HostInfo, AssetInfo}
use wsaw.Diff.Differ.{Differ, Effect, script_identity, host_added_detail}

module _ {F : Type 0} (dm : Domains) (d : Differ F) where
  open d.rules use {allow, deny, severity, normalizer}

  -- A change with the fields that a finding leaves out.
  abbrev plain : ChangeType → Text → Change
  plain typ subject = record {
    type = typ;
    severity = severity.scan_degraded;
    target = d.current.target;
    consent_mode = d.current.consent_mode;
    subject = subject;
    domain = [];
    party = Party.unset;
    phase = ConsentPhase.unset;
    before = empty;
    after = empty;
    detail = Message.host_gone [];
  }

  -- `add`, on a change that has its target and mode.
  unfoldable pub add : Change → Effect
  add c = if suppresses dm allow c then Effect.hide else Effect.emit c

  unfoldable pub removal_unprovable : Text → List Text → Bool
  unfolding mem
  removal_unprovable domain initiators =
      d.current_degraded || (mem domain d.unobserved || any (λ i. mem i d.unobserved) initiators)

  abbrev pub host_added_change : Text → HostInfo → Change
  host_added_change domain info = record (plain ChangeType.host_added domain) {
    severity = for_host_added severity d.current.consent_mode info.party info.phase;
    domain = domain;
    party = info.party;
    phase = info.phase;
    after = Value.requests info.count;
    detail = host_added_detail domain info d.current.consent_mode;
  }

  unfoldable pub host_added : List (Text × HostInfo) → Text × HostInfo → Effect
  host_added before (domain, info) =
      if Assoc.contains domain before then Effect.skip else add (host_added_change domain info)

  unfoldable pub host_removed : List (Text × HostInfo) → Text × HostInfo → Effect
  host_removed after (domain, info) =
      if Assoc.contains domain after
      then Effect.skip
      else if removal_unprovable domain []
      then Effect.hide
      else add (record (plain ChangeType.host_removed domain) {
        severity = severity.host_removed;
        domain = domain;
        party = info.party;
        before = Value.requests info.count;
        detail = Message.host_gone domain;
      })

  unfoldable pub asset_added : Text × AssetInfo → Effect
  asset_added (key, info) =
      if Assoc.contains key d.before
      then Effect.skip
      else add (record (plain ChangeType.asset_added key) {
        severity = for_asset_added severity info.party info.typ;
        domain = info.domain;
        party = info.party;
        phase = info.phase;
        after = Value.text info.typ;
        detail = Message.asset_new info.typ info.domain;
      })

  unfoldable pub asset_removed : Text × AssetInfo → Effect
  asset_removed (key, info) =
      if Assoc.contains key d.after
      then Effect.skip
      else if removal_unprovable info.domain info.initiators
      then Effect.hide
      else add (record (plain ChangeType.asset_removed key) {
        severity = severity.asset_removed;
        domain = info.domain;
        party = info.party;
        before = Value.text info.typ;
        detail = Message.asset_gone info.typ;
      })

  -- A body that is configured as per-visit.
  abbrev pub is_volatile : Text → Bool
  is_volatile url = elim normalizer [ none ↦ false | some n ↦ n.volatile_body url ]

  abbrev pub script_change : Text → AssetInfo → Text × Text × Text → Change
  script_change key now (before, after, label) = record (plain ChangeType.script_changed key) {
    severity = for_script_changed severity now.party;
    domain = now.domain;
    party = now.party;
    phase = now.phase;
    before = Value.text before;
    after = Value.text after;
    detail =
        if is_empty label
        then Message.script_content now.party key
        else Message.script_identity label now.party key before after;
  }

  -- Both scans have the script: what they are compared on decides.
  unfoldable pub script_compared : Text → AssetInfo → Option (Text × Text × Text) → Effect
  script_compared key now none = Effect.skip
  script_compared key now (some (before, after, label)) =
      if eqb before after then Effect.skip else add (script_change key now (before, after, label))

  unfoldable pub script_changed : Text × AssetInfo → Effect
  script_changed (key, now) = elim (Assoc.lookup key d.before) [
    | none ↦ Effect.skip
    | some was ↦
        if is_volatile now.url
        then Effect.skip
        else script_compared key now (script_identity was now)
  ]

  unfoldable pub cookie_added : List (Text × Cookie) → Text × Cookie → Effect
  cookie_added before (key, c) =
      if Assoc.contains key before
      then Effect.skip
      else add (record (plain ChangeType.cookie_added key) {
        severity = for_cookie_added severity d.current.consent_mode c.party;
        domain = c.domain;
        party = c.party;
        after = Value.text c.name;
        detail = Message.cookie_new c.party c.name c.domain;
      })

  abbrev pub cookie_removed_change : Text → Cookie → Change
  cookie_removed_change key c = record (plain ChangeType.cookie_removed key) {
    severity = severity.cookie_removed;
    domain = c.domain;
    party = c.party;
    before = Value.text c.name;
    detail = Message.cookie_gone c.name c.domain;
  }

  unfoldable pub cookie_removed : List (Text × Cookie) → Text × Cookie → Effect
  cookie_removed after (key, c) =
      if Assoc.contains key after then Effect.skip else add (cookie_removed_change key c)

  unfoldable pub storage_added : List (Text × StorageEntry) → Text × StorageEntry → Effect
  storage_added before (key, e) =
      if Assoc.contains key before
      then Effect.skip
      else add (record (plain ChangeType.storage_added key) {
        severity = for_storage_added severity d.current.consent_mode e.party;
        party = e.party;
        after = Value.text e.key;
        detail = Message.storage_new e.party e.area e.key e.origin;
      })

  unfoldable pub storage_removed : List (Text × StorageEntry) → Text × StorageEntry → Effect
  storage_removed after (key, e) =
      if Assoc.contains key after
      then Effect.skip
      else add (record (plain ChangeType.storage_removed key) {
        severity = severity.storage_removed;
        party = e.party;
        before = Value.text e.key;
        detail = Message.storage_gone e.area e.key e.origin;
      })

  unfoldable pub status_changed : Text × AssetInfo → Effect
  status_changed (key, now) = elim (Assoc.lookup key d.before) [
    | none ↦ Effect.skip
    | some was ↦
        if (was.status == now.status) || ((now.status == 0) || (was.status == 0))
        then Effect.skip
        else add (record (plain ChangeType.status_changed key) {
          severity = for_status_changed severity was.status now.status;
          domain = now.domain;
          party = now.party;
          before = Value.status was.status;
          after = Value.status now.status;
          detail = Message.status_from_to was.status now.status;
        })
  ]

  -- The consent outcomes and the CMPs of both scans.
  unfoldable pub consent_changed : Consent → Consent → Effect
  consent_changed was now =
      if same_outcome was.outcome now.outcome && eqb was.cmp now.cmp
      then Effect.skip
      else add (record (plain ChangeType.consent_changed (outcome_text now.outcome)) {
        severity =
            if is_applied was.outcome && not (is_applied now.outcome)
            then severity.consent_degraded
            else severity.consent_changed;
        before = Value.text (outcome_text was.outcome);
        after = Value.text (outcome_text now.outcome);
        detail =
            Message.consent_from_to was.outcome now.outcome
              (if eqb was.cmp now.cmp then none else some (was.cmp, now.cmp)) now.reason;
      })

  abbrev pub denied_change : Text → HostInfo → Change
  denied_change domain info = record (plain ChangeType.denied_host domain) {
    severity = severity.denied_host;
    domain = domain;
    party = info.party;
    phase = info.phase;
    after = Value.requests info.count;
    detail = Message.host_denied domain;
  }

  -- A denied host is reported whatever the allow list says.
  unfoldable pub denied_host : Text × HostInfo → Effect
  denied_host (domain, info) =
      if matches dm deny domain then Effect.emit (denied_change domain info) else Effect.skip

  unfoldable pub degraded_change : Text → Message → Change
  degraded_change subject detail = record (plain ChangeType.scan_degraded subject) {
    detail = detail;
  }
