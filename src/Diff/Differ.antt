-- ===== src/Diff/Differ.antt =====
-- internal/diff/diff.go: what `Compare` works on. Each loop over a map turns an
-- entry into an effect on the report; `MapOrder` says in which order a loop visits its map.
use wsaw.Prelude.{
  ◌+◌, Bool, not, ◌&&◌, ◌||◌, Option, none, some, List, [], ◌∷◌, ◌++◌, if◌then◌else◌, ltb, ◌==◌,
}
use wsaw.Prelude.Text.{Text, eqb, is_empty, less}
use wsaw.Prelude.Sort.{sort_stable}
use wsaw.Model.Enums.{ConsentMode, is_third, is_pre, is_reject, same_mode, termination_text}
use wsaw.Model.Result.{Result, ok}
use wsaw.Diff.Change.{Reason, Message, Change, Browser, BrowserChange, Report, type_text, rank}
use wsaw.Diff.Rules.{SeverityRules}
use wsaw.Diff.HostList.{HostList}
use wsaw.Diff.Maps.{HostInfo, AssetInfo, Normalizer}

pub record Options (F : Type 0) : Type 0 where
  pub allow : HostList
  pub deny : HostList
  pub severity : SeverityRules
  pub degraded_failure_ratio : F
  pub normalizer : Option Normalizer

pub record Differ (F : Type 0) : Type 0 where
  pub baseline : Result
  pub current : Result
  pub rules : Options F
  pub current_degraded : Bool
  pub baseline_degraded : Bool
  pub unobserved : List Text
  pub before : List (Text × AssetInfo)
  pub after : List (Text × AssetInfo)

-- What one pass of a loop does to the report: nothing, count a suppressed change, or append one.
pub data Effect : Type 0 where
  skip hide : Effect
  emit : Change → Effect

unfoldable pub apply : Effect → Report → Report
apply Effect.skip r = r
apply Effect.hide r = record r { suppressed = r.suppressed + 1 }
apply (Effect.emit c) r = record r { changes = r.changes ++ c ∷ [] }

unfoldable pub for_each {ℓ} : {A : Type ℓ} → (A → Effect) → List A → Report → Report
unfolding apply
for_each f [] r = r
for_each f (x ∷ xs) r = for_each f xs (apply (f x) r)

unfoldable pub browser_of : Result → Browser
browser_of r = record {
  runtime = env.browser_runtime;
  version = env.chrome_version;
  image = env.browser_image;
  image_id = env.browser_image_id;
}
  where
    open r use {environment as env}

unfoldable pub browser_change : Option Result → Result → Option BrowserChange
unfolding browser_of
browser_change none current = none
browser_change (some baseline) current =
    let before = browser_of baseline in
    let after = browser_of current in
    let same_id =
      is_empty before.image_id || (is_empty after.image_id || eqb before.image_id after.image_id) in
    if eqb before.version after.version && (eqb before.runtime after.runtime && same_id)
    then none
    else some (record { before = before; after = after })

-- `incomparable`, of a current result that is there: nothing where the two can be compared.
unfoldable pub incomparable : Option Result → Result → Option Reason
unfolding ok
incomparable baseline current =
    if not (ok current)
    then some (
        Reason.untrusted_current
          (if is_empty current.error then termination_text current.termination else current.error))
    else elim baseline [
      | none ↦ some Reason.no_baseline
      | some b ↦
          if not (ok b)
          then some Reason.untrusted_baseline
          else if not (same_mode b.consent_mode current.consent_mode)
          then some (Reason.modes_differ b.consent_mode current.consent_mode)
          else none
    ]

-- The less function of `sortChanges`.
unfoldable pub change_less : Change → Change → Bool
change_less a b =
    if not (rank a.severity == rank b.severity)
    then ltb (rank b.severity) (rank a.severity)
    else if not (eqb (type_text a.type) (type_text b.type))
    then less (type_text a.type) (type_text b.type)
    else less a.subject b.subject

unfoldable pub sort_changes : List Change → List Change
sort_changes cs = sort_stable change_less cs

unfoldable pub script_identity : AssetInfo → AssetInfo → Option (Text × Text × Text)
script_identity was now =
    if not (is_empty was.identity) || not (is_empty now.identity)
    then (if is_empty was.identity || is_empty now.identity
        then none
        else some (
          was.identity,
          now.identity,
          if is_empty now.identity_label then was.identity_label else now.identity_label,
        ))
    else if is_empty was.digest || is_empty now.digest
    then none
    else some (was.digest, now.digest, [])

unfoldable pub host_added_detail : Text → HostInfo → ConsentMode → Message
host_added_detail domain info mode =
    if is_third info.party && (is_reject mode && is_pre info.phase)
    then Message.third_host_before_consent domain
    else if is_third info.party && is_reject mode
    then Message.third_host_despite_reject domain
    else if is_third info.party && is_pre info.phase
    then Message.third_host_before_consent domain
    else if is_third info.party
    then Message.third_host domain
    else Message.first_host domain
