-- ===== src/Diff/Justified/Bodies.antt =====
-- Each loop body of internal/diff/diff.go appends only changes that say what holds.
use wsaw.Prelude.{
  ◌≡◌, refl, inl, inr, ◌&&◌, ◌||◌, Option, none, some, [], arith, Bool-cases, Option-cases, ◌==◌,
}
use wsaw.Prelude.Text.{Text, eqb}
use wsaw.Prelude.Assoc
use wsaw.Prelude.Assoc.{MapOrder}
use wsaw.Model.Enums.{same_outcome}
use wsaw.Model.Result.{Cookie, StorageEntry}
use wsaw.Classify.{Domains}
use wsaw.Diff.HostList.{matches, suppresses}
use wsaw.Diff.Maps.{HostInfo, AssetInfo, hosts}
use wsaw.Diff.Differ.{Differ, Effect, script_identity}
use wsaw.Diff.Effects
use wsaw.Diff.Effects.{removal_unprovable}
use wsaw.Diff.Justified.{
  cookies_before, cookies_after, storage_before, storage_after, Sound, add-Sound, if_Sound,
}

module _ {F : Type 0} (dm : Domains) (d : Differ F) where
  pub host_added-Sound :
      (k : Text) (v : HostInfo)
      → Assoc.lookup k (hosts d.current) ≡ some v
      → Sound dm d (Effects.host_added dm d (hosts d.baseline) (k, v))
  unfolding Effects.host_added
  host_added-Sound k v h = elim (Bool-cases (Assoc.contains k (hosts d.baseline))) [
    | inl e ↦ rw e tt
    | inr e ↦ rw e (add-Sound dm d _ (v, h, e, refl) refl refl)
  ]

  pub host_removed-Sound :
      (k : Text) (v : HostInfo)
      → Assoc.lookup k (hosts d.baseline) ≡ some v
      → Sound dm d (Effects.host_removed dm d (hosts d.current) (k, v))
  unfolding Effects.host_removed
  host_removed-Sound k v h = elim (Bool-cases (Assoc.contains k (hosts d.current))) [
    | inl e ↦ rw e tt
    | inr e ↦ rw e (elim (Bool-cases (removal_unprovable dm d k [])) [
      | inl u ↦ rw u tt
      | inr u ↦ rw u (add-Sound dm d _ ((ground arith, e), u) refl refl)
    ])
  ]

  pub asset_added-Sound :
      (k : Text) (v : AssetInfo)
      → Assoc.lookup k d.after ≡ some v
      → Sound dm d (Effects.asset_added dm d (k, v))
  unfolding Effects.asset_added
  asset_added-Sound k v h = elim (Bool-cases (Assoc.contains k d.before)) [
    | inl e ↦ rw e tt
    | inr e ↦ rw e (add-Sound dm d _ (ground arith, e) refl refl)
  ]

  pub cookie_added-Sound :
      (k : Text) (v : Cookie)
      → Assoc.lookup k (cookies_after dm d) ≡ some v
      → Sound dm d (Effects.cookie_added dm d (cookies_before dm d) (k, v))
  unfolding Effects.cookie_added
  cookie_added-Sound k v h = elim (Bool-cases (Assoc.contains k (cookies_before dm d))) [
    | inl e ↦ rw e tt
    | inr e ↦ rw e (add-Sound dm d _ (ground arith, e) refl refl)
  ]

  pub cookie_removed-Sound :
      (k : Text) (v : Cookie)
      → Assoc.lookup k (cookies_before dm d) ≡ some v
      → Sound dm d (Effects.cookie_removed dm d (cookies_after dm d) (k, v))
  unfolding Effects.cookie_removed
  cookie_removed-Sound k v h = elim (Bool-cases (Assoc.contains k (cookies_after dm d))) [
    | inl e ↦ rw e tt
    | inr e ↦ rw e (add-Sound dm d _ (ground arith, e) refl refl)
  ]

  pub storage_added-Sound :
      (k : Text) (v : StorageEntry)
      → Assoc.lookup k (storage_after dm d) ≡ some v
      → Sound dm d (Effects.storage_added dm d (storage_before dm d) (k, v))
  unfolding Effects.storage_added
  storage_added-Sound k v h = elim (Bool-cases (Assoc.contains k (storage_before dm d))) [
    | inl e ↦ rw e tt
    | inr e ↦ rw e (add-Sound dm d _ (ground arith, e) refl refl)
  ]

  pub storage_removed-Sound :
      (k : Text) (v : StorageEntry)
      → Assoc.lookup k (storage_before dm d) ≡ some v
      → Sound dm d (Effects.storage_removed dm d (storage_after dm d) (k, v))
  unfolding Effects.storage_removed
  storage_removed-Sound k v h = elim (Bool-cases (Assoc.contains k (storage_after dm d))) [
    | inl e ↦ rw e tt
    | inr e ↦ rw e (add-Sound dm d _ (ground arith, e) refl refl)
  ]

  pub asset_removed-Sound :
      (k : Text) (v : AssetInfo)
      → Assoc.lookup k d.before ≡ some v
      → Sound dm d (Effects.asset_removed dm d (k, v))
  unfolding Effects.asset_removed
  asset_removed-Sound k v h = elim (Bool-cases (Assoc.contains k d.after)) [
    | inl e ↦ rw e tt
    | inr e ↦ rw e (elim (Bool-cases (removal_unprovable dm d v.domain v.initiators)) [
      | inl u ↦ rw u tt
      | inr u ↦ rw u (add-Sound dm d _ (v, h, e, u) refl refl)
    ])
  ]

  pub compared-Sound :
      (k : Text) (was now : AssetInfo) (ids : Option (Text × Text × Text))
      → script_identity was now ≡ ids
      → Assoc.lookup k d.before ≡ some was
      → Assoc.lookup k d.after ≡ some now
      → Sound dm d (Effects.script_compared dm d k now ids)
  unfolding Effects.script_compared
  compared-Sound k was now none s b a = tt
  compared-Sound k was now (some (x, y, l)) s b a = elim (Bool-cases (eqb x y)) [
    | inl e ↦ rw e tt
    | inr e ↦ rw e (add-Sound dm d _ (was, now, (x, y, l), b, a, s, e) refl refl)
  ]

  pub script_changed-Sound :
      (k : Text) (v : AssetInfo)
      → Assoc.lookup k d.after ≡ some v
      → Sound dm d (Effects.script_changed dm d (k, v))
  unfolding Effects.script_changed
  script_changed-Sound k v h = elim (Option-cases (Assoc.lookup k d.before)) [
    | inl e ↦ rw (e, Effects.script_changed) tt
    | inr (was, e) ↦
        rw (e, Effects.script_changed)
          (if_Sound dm d (Effects.is_volatile dm d v.url) Effect.skip _ tt
            (compared-Sound k was v _ refl e h))
  ]

  pub status_changed-Sound :
      (k : Text) (v : AssetInfo)
      → Assoc.lookup k d.after ≡ some v
      → Sound dm d (Effects.status_changed dm d (k, v))
  unfolding Effects.status_changed
  status_changed-Sound k v h = elim (Option-cases (Assoc.lookup k d.before)) [
    | inl e ↦ rw (e, Effects.status_changed) tt
    | inr (was, e) ↦
        rw (e, Effects.status_changed)
          (elim (Bool-cases ((was.status == v.status) || ((v.status == 0) || (was.status == 0)))) [
            | inl u ↦ rw u tt
            | inr u ↦ rw u (add-Sound dm d _ (was, v, e, h, ground arith) refl refl)
          ])
  ]

  pub consent_changed-Sound :
      Sound dm d (Effects.consent_changed dm d d.baseline.consent d.current.consent)
  unfolding Effects.consent_changed
  consent_changed-Sound =
      elim (Bool-cases (
        same_outcome d.baseline.consent.outcome d.current.consent.outcome
        && eqb d.baseline.consent.cmp d.current.consent.cmp)) [
          | inl e ↦ rw e tt
          | inr e ↦ rw e (add-Sound dm d _ e refl refl)
        ]

  pub denied_host-Sound :
      (k : Text) (v : HostInfo)
      → Assoc.lookup k (hosts d.current) ≡ some v
      → Sound dm d (Effects.denied_host dm d (k, v))
  unfolding Effects.denied_host suppresses
  denied_host-Sound k v h = elim (Bool-cases (matches dm d.rules.deny k)) [
    | inl e ↦
        rw e (record { says = (ground arith, e); target = refl; mode = refl; shown = ground arith })
    | inr e ↦ rw e tt
  ]
