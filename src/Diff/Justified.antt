-- ===== src/Diff/Justified.antt =====
-- What a change in a report of internal/diff/diff.go says of the two scans.
pub mod Bodies
pub mod Compare
use wsaw.Prelude.{
  ℕ, ◌≡◌, refl, inl, inr, Bool, true, false, ◌&&◌, ◌||◌, Option, none, some, List, [], ◌∷◌, arith,
  All, All-append, All-Permᴰ, Permᴰ-sym, Bool-cases, Option-cases, ◌==◌, if◌then◌else◌,
}
use wsaw.Prelude.Text.{Text, eqb}
use wsaw.Prelude.Assoc
use wsaw.Prelude.Assoc.{MapOrder}
use wsaw.Prelude.Sort.{sort_stable-Permᴰ}
use wsaw.Model.Enums.{same_outcome}
use wsaw.Model.Result.{Float, Result, Cookie, StorageEntry, truncated}
use wsaw.Classify.{Domains}
use wsaw.Diff.Change.{Change, ChangeType, Report}
use wsaw.Diff.Rules.{for_host_added}
use wsaw.Diff.HostList.{list_empty, matches, suppresses}
use wsaw.Diff.Maps.{
  HostInfo, AssetInfo, hosts, cookies_from, storage_from, hosts-Unique, assets-Unique,
  cookies_from-Unique, storage_from-Unique,
}
use wsaw.Diff.Differ.{
  Options, Differ, Effect, apply, for_each, change_less, sort_changes, incomparable,
  script_identity,
}
use wsaw.Diff.Effects
use wsaw.Diff.Effects.{removal_unprovable}
use wsaw.Diff.Compare.{
  compare_hosts, compare_assets, compare_scripts, compare_cookies, compare_storage,
  compare_statuses, compare_consent, flag_denied_hosts, flag_degradation, degradations, comparisons,
  differ, compared, decide, compare, options_with_defaults, blank,
}
use wsaw.Diff.Loops.{change_less-IsOrder}

module _ {F : Type 0} (dm : Domains) (d : Differ F) where
  abbrev pub cookies_before : List (Text × Cookie)
  cookies_before = cookies_from [] d.baseline.cookies

  abbrev pub cookies_after : List (Text × Cookie)
  cookies_after = cookies_from [] d.current.cookies

  abbrev pub storage_before : List (Text × StorageEntry)
  storage_before = storage_from [] d.baseline.storage

  abbrev pub storage_after : List (Text × StorageEntry)
  storage_after = storage_from [] d.current.storage

  -- A key that only one of two maps has.
  abbrev pub OnlyIn : {V : Type 0} → Text → List (Text × V) → List (Text × V) → Type 0
  OnlyIn key m other = (Assoc.contains key m ≡ true) × (Assoc.contains key other ≡ false)

  -- What a change of each type says.
  abbrev pub Says : Change → ChangeType → Type 0
  Says c ChangeType.host_added =
      (info : HostInfo) × (Assoc.lookup c.subject (hosts d.current) ≡ some info)
      × (Assoc.contains c.subject (hosts d.baseline) ≡ false)
      × (c.severity ≡ for_host_added d.rules.severity d.current.consent_mode info.party info.phase)
  Says c ChangeType.host_removed =
      OnlyIn c.subject (hosts d.baseline) (hosts d.current)
      × (removal_unprovable dm d c.subject [] ≡ false)
  Says c ChangeType.asset_added = OnlyIn c.subject d.after d.before
  Says c ChangeType.asset_removed =
      (info : AssetInfo) × (Assoc.lookup c.subject d.before ≡ some info)
      × (Assoc.contains c.subject d.after ≡ false)
      × (removal_unprovable dm d info.domain info.initiators ≡ false)
  Says c ChangeType.script_changed =
      (was : AssetInfo) × (now : AssetInfo) × (ids : Text × Text × Text) × (Assoc.lookup c.subject
          d.before
        ≡ some was)
      × (Assoc.lookup c.subject d.after ≡ some now)
      × (script_identity was now ≡ some ids)
      × (eqb ids.0 ids.1 ≡ false)
  Says c ChangeType.cookie_added = OnlyIn c.subject cookies_after cookies_before
  Says c ChangeType.cookie_removed = OnlyIn c.subject cookies_before cookies_after
  Says c ChangeType.storage_added = OnlyIn c.subject storage_after storage_before
  Says c ChangeType.storage_removed = OnlyIn c.subject storage_before storage_after
  Says c ChangeType.status_changed =
      (was : AssetInfo) × (now : AssetInfo) × (Assoc.lookup c.subject d.before ≡ some was)
      × (Assoc.lookup c.subject d.after ≡ some now)
      × ((was.status == now.status) ≡ false)
  Says c ChangeType.consent_changed =
      (same_outcome d.baseline.consent.outcome d.current.consent.outcome
        && eqb d.baseline.consent.cmp d.current.consent.cmp)
      ≡ false
  Says c ChangeType.denied_host =
      (Assoc.contains c.subject (hosts d.current) ≡ true)
      × (matches dm d.rules.deny c.subject ≡ true)
  Says c ChangeType.scan_degraded =
      (truncated d.current || (d.current_degraded || d.baseline_degraded)) ≡ true

  -- A change says what holds of the two scans, is stamped with the current one, and is on no allow
  -- list that could hide it.
  pub record Justified (c : Change) : Type 0 where
    pub says : Says c c.type
    pub target : c.target ≡ d.current.target
    pub mode : c.consent_mode ≡ d.current.consent_mode
    pub shown : suppresses dm d.rules.allow c ≡ false

  -- What an effect appends is justified.
  abbrev pub Sound : Effect → Type 0
  Sound (Effect.emit c) = Justified c
  Sound _ = Unit {0}

  pub add-Sound :
      (c : Change)
      → Says c c.type
      → c.target ≡ d.current.target
      → c.consent_mode ≡ d.current.consent_mode
      → Sound (Effects.add dm d c)
  unfolding Effects.add
  add-Sound c says t m = elim (Bool-cases (suppresses dm d.rules.allow c)) [
    | inl e ↦ rw e tt
    | inr e ↦ rw e (record { says = says; target = t; mode = m; shown = e })
  ]

  pub if_Sound : (b : Bool) (e g : Effect) → Sound e → Sound g → Sound (if b then e else g)
  if_Sound true e g h k = h
  if_Sound false e g h k = k
