-- ===== src/Diff/Complete.antt =====
-- What internal/diff/diff.go always reports.
use mathlib.Core.List.{Mem}
use wsaw.Prelude.{◌≡◌, ◌≢◌, refl, true, false, none, some, arith, Permᴰ-sym, any}
use wsaw.Prelude.Text.{Text, eqb, eqb_iff}
use wsaw.Prelude.Assoc
use wsaw.Prelude.Assoc.{MapOrder}
use wsaw.Prelude.Sort.{sort_stable-Permᴰ}
use wsaw.Model.Result.{Float, Result}
use wsaw.Classify.{Domains, mem}
use wsaw.Diff.Change.{Change, ChangeType, Value, Report}
use wsaw.Diff.Rules.{for_host_added, for_script_changed}
use wsaw.Diff.HostList.{HostList, list_empty, matches, suppresses}
use wsaw.Diff.Maps.{HostInfo, AssetInfo, hosts}
use wsaw.Diff.Differ.{
  Options, Differ, Effect, change_less, sort_changes, incomparable, script_identity,
}
use wsaw.Diff.Effects
use wsaw.Diff.Compare.{
  compare_hosts, compare_scripts, flag_denied_hosts, comparisons, compared, decide, compare,
  options_with_defaults,
}
use wsaw.Diff.Loops.{change_less-IsOrder}
use wsaw.Diff.Justified.Compare.{differ_of}
use wsaw.Diff.Extends.{
  mem-perm, for_each-Extends, loop-reports, comparisons-host, comparisons-script,
  comparisons-denied,
}

module _ {F : Type 0} (dm : Domains) (d : Differ F) where
  pub add-emits :
      (c : Change) → suppresses dm d.rules.allow c ≡ false → Effects.add dm d c ≡ Effect.emit c
  unfolding Effects.add
  add-emits c h = rw h

  pub not-suppressed :
      (c : Change)
      → matches dm d.rules.allow c.domain ≡ false
      → suppresses dm d.rules.allow c ≡ false
  unfolding suppresses
  not-suppressed c h = ground arith

  host_added-emits :
      (k : Text) (info : HostInfo)
      → Assoc.contains k (hosts d.baseline) ≡ false
      → matches dm d.rules.allow k ≡ false
      → Effects.host_added dm d (hosts d.baseline) (k, info)
        ≡ Effect.emit (Effects.host_added_change dm d k info)
  unfolding Effects.host_added
  host_added-emits k info new shown = rw new (add-emits _ (not-suppressed _ shown))

  script_changed-emits :
      (k : Text) (was now : AssetInfo) (ids : Text × Text × Text)
      → Assoc.lookup k d.before ≡ some was
      → Effects.is_volatile dm d now.url ≡ false
      → script_identity was now ≡ some ids
      → eqb ids.0 ids.1 ≡ false
      → matches dm d.rules.allow now.domain ≡ false
      → Effects.script_changed dm d (k, now) ≡ Effect.emit (Effects.script_change dm d k now ids)
  unfolding Effects.script_changed Effects.script_compared
  script_changed-emits k was now ids h steady same differs shown =
      rw (h, Effects.script_changed, steady, same, differs) (add-emits _ (not-suppressed _ shown))

not-empty : (dm : Domains) (l : HostList) (k : Text) → matches dm l k ≡ true → list_empty l ≡ false
unfolding matches list_empty mem any
not-empty dm l k h = ground arith

module _ {F : Type 0} (fl : Float F) (dm : Domains) (o : MapOrder) (b current : Result)
    (opts : Options F) (comparable : incomparable (some b) current ≡ none) where
  abbrev pub d : Differ F
  d = differ_of fl dm o b current opts

  pub compare-mem :
      (c : Change)
      → ((r : Report) → Mem c (comparisons dm o d r).changes)
      → Mem c (compare fl dm o (some b) current opts).changes
  unfolding compare decide compared sort_changes
  compare-mem c m =
      rw (comparable, decide)
        (mem-perm (Permᴰ-sym (sort_stable-Permᴰ change_less change_less-IsOrder _)) (m _))

  -- Of two comparable scans: a host that the current scan contacts and the baseline did not, and
  -- that is not on the allow list, is reported with the phase of the host and the severity of its
  -- mode, party and phase. Nothing is asked of the health of either scan.
  pub compare-new_host :
      (k : Text) (info : HostInfo)
      → Assoc.lookup k (hosts current) ≡ some info
      → Assoc.contains k (hosts b) ≡ false
      → matches dm opts.allow k ≡ false
      → (c : Change) × Mem c (compare fl dm o (some b) current opts).changes
        × (c.type ≡ ChangeType.host_added)
        × (c.subject ≡ k)
        × (c.phase ≡ info.phase)
        × (c.severity
            ≡ for_host_added
                (options_with_defaults fl opts).severity
                current.consent_mode
                info.party
                info.phase)
  unfolding compare_hosts
  compare-new_host k info now new shown = (
    c,
    compare-mem c (λ r. comparisons-host dm o d r c (
        for_each-Extends _ _ _ c (
          loop-reports o 1 _ (hosts current) r k info c now
            (host_added-emits dm d k info new shown)))),
    refl,
    refl,
    refl,
    refl,
  )
    where
      c : Change
      c = Effects.host_added_change dm d k info

  -- Of two comparable scans: a script that both loaded under one key, whose identities (the
  -- published ones where both have one, the digests where neither has) differ, is reported with
  -- both of them and the severity of its party, unless its body is configured as volatile or its
  -- domain is on the allow list.
  pub compare-changed_script :
      (k : Text) (was now : AssetInfo) (ids : Text × Text × Text)
      → Assoc.lookup k d.before ≡ some was
      → Assoc.lookup k d.after ≡ some now
      → Effects.is_volatile dm d now.url ≡ false
      → script_identity was now ≡ some ids
      → ids.0 ≢ ids.1
      → matches dm opts.allow now.domain ≡ false
      → (c : Change) × Mem c (compare fl dm o (some b) current opts).changes
        × (c.type ≡ ChangeType.script_changed)
        × (c.subject ≡ k)
        × (c.before ≡ Value.text ids.0)
        × (c.after ≡ Value.text ids.1)
        × (c.severity ≡ for_script_changed (options_with_defaults fl opts).severity now.party)
  unfolding compare_scripts
  compare-changed_script k was now ids hb ha steady same differs shown = (
    c,
    compare-mem c (λ r. comparisons-script dm o d r c (
        loop-reports o 5 _ d.after _ k now c ha (
          script_changed-emits dm d k was now ids hb steady same
            (ground (arith, eqb_iff ids.0 ids.1)) shown))),
    refl,
    refl,
    refl,
    refl,
    refl,
  )
    where
      c : Change
      c = Effects.script_change dm d k now ids

  -- Of two comparable scans: a host on the deny list that the current scan contacts is reported
  -- with the severity of that rule, whatever the baseline and the allow list hold.
  pub compare-denied_host :
      (k : Text) (info : HostInfo)
      → Assoc.lookup k (hosts current) ≡ some info
      → matches dm opts.deny k ≡ true
      → (c : Change) × Mem c (compare fl dm o (some b) current opts).changes
        × (c.type ≡ ChangeType.denied_host)
        × (c.subject ≡ k)
        × (c.severity ≡ (options_with_defaults fl opts).severity.denied_host)
  unfolding flag_denied_hosts Effects.denied_host
  compare-denied_host k info now denied = (
    c,
    compare-mem c (λ r. comparisons-denied dm o d r c (λ q.
        rw (not-empty dm opts.deny k denied)
          (loop-reports o 11 _ (hosts current) q k info c now (rw denied)))),
    refl,
    refl,
    refl,
  )
    where
      c : Change
      c = Effects.denied_change dm d k info
