-- ===== src/Diff/Justified/Compare.antt =====
-- Each change in a report of internal/diff/diff.go says what holds of the two scans.
use wsaw.Prelude.{
  ℕ, ◌≡◌, refl, inl, inr, Bool, true, false, ◌||◌, none, some, List, [], ◌∷◌, arith, All,
  All-append, All-Permᴰ, Permᴰ-sym, Bool-cases, if◌then◌else◌,
}
use wsaw.Prelude.Text.{Text}
use wsaw.Prelude.Assoc
use wsaw.Prelude.Assoc.{MapOrder}
use wsaw.Prelude.Sort.{sort_stable-Permᴰ}
use wsaw.Model.Result.{Float, Result, truncated}
use wsaw.Classify.{Domains}
use wsaw.Diff.Change.{Change, Report}
use wsaw.Diff.HostList.{list_empty, suppresses}
use wsaw.Diff.Maps.{hosts-Unique, assets-Unique, cookies_from-Unique, storage_from-Unique}
use wsaw.Diff.Differ.{
  Options, Differ, Effect, apply, for_each, change_less, sort_changes, incomparable,
}
use wsaw.Diff.Effects
use wsaw.Diff.Effects.{removal_unprovable}
use wsaw.Diff.Compare.{
  compare_hosts, compare_assets, compare_scripts, compare_cookies, compare_storage,
  compare_statuses, compare_consent, flag_denied_hosts, flag_degradation, degradations, comparisons,
  differ, compared, decide, compare, options_with_defaults, blank,
}
use wsaw.Diff.Loops.{change_less-IsOrder}
use wsaw.Diff.Justified.{Justified, Sound}
use wsaw.Diff.Justified.Bodies.{
  asset_added-Sound, asset_removed-Sound, consent_changed-Sound, cookie_added-Sound,
  cookie_removed-Sound, denied_host-Sound, host_added-Sound, host_removed-Sound,
  script_changed-Sound, status_changed-Sound, storage_added-Sound, storage_removed-Sound,
}

module _ {F : Type 0} (dm : Domains) (d : Differ F) where
  apply-All :
      (e : Effect) (r : Report)
      → Sound dm d e
      → All (Justified dm d) r.changes
      → All (Justified dm d) (apply e r).changes
  unfolding apply
  apply-All Effect.skip r s h = h
  apply-All Effect.hide r s h = h
  apply-All (Effect.emit c) r s h = All-append (Justified dm d) r.changes (c ∷ []) h (s, tt)

  for_each-All {ℓ} :
      {A : Type ℓ} (f : A → Effect) (xs : List A) (r : Report)
      → All (λ x. Sound dm d (f x)) xs
      → All (Justified dm d) r.changes
      → All (Justified dm d) (for_each f xs r).changes
  unfolding for_each
  for_each-All f [] r s h = h
  for_each-All f (x ∷ xs) r s h = for_each-All f xs (apply (f x) r) s.1 (apply-All (f x) r s.0 h)

  loop-All :
      {V : Type 0} (o : MapOrder) (n : ℕ) (f : Text × V → Effect) (m : List (Text × V)) (r : Report)
      → Assoc.Unique m
      → ((k : Text) (v : V) → Assoc.lookup k m ≡ some v → Sound dm d (f (k, v)))
      → All (Justified dm d) r.changes
      → All (Justified dm d) (for_each f (o.visit n m) r).changes
  loop-All o n f m r u s h =
      for_each-All f (o.visit n m) r
        (All-Permᴰ _ (o.visit-Permᴰ n m) (Assoc.entries_of (λ e. Sound dm d (f e)) m u s)) h

  hosts-All :
      (o : MapOrder) (r : Report)
      → All (Justified dm d) r.changes
      → All (Justified dm d) (compare_hosts dm o d r).changes
  unfolding compare_hosts
  hosts-All o r h =
      loop-All o 2 _ _ _ (hosts-Unique d.baseline) (host_removed-Sound dm d)
        (loop-All o 1 _ _ r (hosts-Unique d.current) (host_added-Sound dm d) h)

  cookies-All :
      (o : MapOrder) (r : Report)
      → All (Justified dm d) r.changes
      → All (Justified dm d) (compare_cookies dm o d r).changes
  unfolding compare_cookies
  cookies-All o r h =
      loop-All o 7 _ _ _ (cookies_from-Unique [] d.baseline.cookies tt) (cookie_removed-Sound dm d)
        (loop-All o 6 _ _ r (cookies_from-Unique [] d.current.cookies tt) (cookie_added-Sound dm d)
          h)

  storage-All :
      (o : MapOrder) (r : Report)
      → All (Justified dm d) r.changes
      → All (Justified dm d) (compare_storage dm o d r).changes
  unfolding compare_storage
  storage-All o r h =
      loop-All o 9 _ _ _ (storage_from-Unique [] d.baseline.storage tt) (storage_removed-Sound dm d)
        (loop-All o 8 _ _ r (storage_from-Unique [] d.current.storage tt) (storage_added-Sound dm d)
          h)

  denied-All :
      (o : MapOrder) (r : Report)
      → All (Justified dm d) r.changes
      → All (Justified dm d) (flag_denied_hosts dm o d r).changes
  unfolding flag_denied_hosts
  denied-All o r h = elim (Bool-cases (list_empty d.rules.deny)) [
    | inl e ↦ rw e h
    | inr e ↦ rw e (loop-All o 11 _ _ r (hosts-Unique d.current) (denied_host-Sound dm d) h)
  ]

  degraded_change-Justified :
      (s : Text) (m : _)
      → (truncated d.current || (d.current_degraded || d.baseline_degraded)) ≡ true
      → Justified dm d (Effects.degraded_change dm d s m)
  unfolding Effects.degraded_change suppresses
  degraded_change-Justified s m e = record {
    says = e;
    target = refl;
    mode = refl;
    shown = ground arith;
  }

  if_All :
      (b : Bool) (c : Change)
      → (b ≡ true → Justified dm d c)
      → All (Justified dm d) (if b then c ∷ [] else [])
  if_All true c h = (h refl, tt)
  if_All false c h = tt

  degradations-All : (o : MapOrder) → All (Justified dm d) (degradations dm o d)
  unfolding degradations
  degradations-All o =
      All-append (Justified dm d) _ _
        (if_All (truncated d.current) _ (λ e. degraded_change-Justified _ _ (ground arith)))
        (All-append (Justified dm d) _ _
          (if_All d.current_degraded _ (λ e. degraded_change-Justified _ _ (ground arith)))
          (if_All d.baseline_degraded _ (λ e. degraded_change-Justified _ _ (ground arith))))

  module _ (ub : Assoc.Unique d.before) (ua : Assoc.Unique d.after) where
    assets-All :
        (o : MapOrder) (r : Report)
        → All (Justified dm d) r.changes
        → All (Justified dm d) (compare_assets dm o d r).changes
    unfolding compare_assets
    assets-All o r h =
        loop-All o 4 _ _ _ ub (asset_removed-Sound dm d)
          (loop-All o 3 _ _ r ua (asset_added-Sound dm d) h)

    comparisons-All :
        (o : MapOrder) (r : Report)
        → All (Justified dm d) r.changes
        → All (Justified dm d) (comparisons dm o d r).changes
    unfolding comparisons compare_scripts compare_statuses compare_consent flag_degradation
    comparisons-All o r h =
        All-append (Justified dm d) _ (degradations dm o d)
          (denied-All o _ (
            apply-All _ _ (consent_changed-Sound dm d) (
              loop-All o 10 _ _ _ ua (status_changed-Sound dm d) (
                storage-All o _ (
                  cookies-All o _ (
                    loop-All o 5 _ _ _ ua (script_changed-Sound dm d)
                      (assets-All o _ (hosts-All o r h))))))))
          (degradations-All o)

module _ {F : Type 0} (fl : Float F) (dm : Domains) (o : MapOrder) where
  -- The comparison that `Compare` makes of two comparable results.
  abbrev pub differ_of : Result → Result → Options F → Differ F
  differ_of b current opts = differ fl dm o b current (options_with_defaults fl opts)

  pub compare-Justified :
      (b current : Result) (opts : Options F)
      → incomparable (some b) current ≡ none
      → All
          (Justified dm (differ_of b current opts))
          (compare fl dm o (some b) current opts).changes
  unfolding compare decide compared sort_changes blank
  compare-Justified b current opts h =
      rw (h, decide)
        (All-Permᴰ _ (Permᴰ-sym (sort_stable-Permᴰ change_less change_less-IsOrder _)) (
          comparisons-All dm (differ_of b current opts) (assets-Unique dm opts.normalizer b)
            (assets-Unique dm opts.normalizer current) o _ tt))
