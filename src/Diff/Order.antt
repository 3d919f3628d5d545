-- ===== src/Diff/Order.antt =====
-- `Compare` of internal/diff/diff.go does not depend on the order in which Go visits its maps.
use wsaw.Prelude.{
  ℕ, ◌+◌, ◌≡◌, refl, sym, ◌∙◌, Option, none, some, List, [], ◌∷◌, ◌++◌, arith, keep_if,
  keep_if-append, Bool-cases, inl, inr,
}
use wsaw.Prelude.Text.{Text}
use wsaw.Prelude.Assoc
use wsaw.Prelude.Assoc.{MapOrder}
use wsaw.Prelude.Sort.{tie, sort_stable-eq}
use wsaw.Model.Result.{Float, Result, Cookie, StorageEntry}
use wsaw.Model.Reasons.{top_incomplete_reason-order}
use wsaw.Classify.{Domains}
use wsaw.Diff.Change.{Change, Reason, Report}
use wsaw.Diff.HostList.{list_empty}
use wsaw.Diff.Maps.{
  HostInfo, hosts, hosts-Unique, assets-Unique, cookies_from-Unique, storage_from-Unique,
}
use wsaw.Diff.Differ.{Options, Differ, Effect, apply, for_each, change_less, sort_changes}
use wsaw.Diff.Effects
use wsaw.Diff.Compare.{
  compare_hosts, compare_assets, compare_scripts, compare_cookies, compare_storage,
  compare_statuses, compare_consent, flag_denied_hosts, flag_degradation, degradations, comparisons,
  differ, compared, decide, compare,
}
use wsaw.Diff.Loops.{for_each_lem, hidden-perm, Subjects, tie-visit, change_less-IsOrder}

-- Two reports that differ at most in how changes of different kinds follow one another.
record Agrees (r r' : Report) : Type 0 where
  rest : record r { changes = []; suppressed = 0 } ≡ record r' { changes = []; suppressed = 0 }
  hides : r.suppressed ≡ r'.suppressed
  ties :
      (a : Change) → keep_if (tie change_less a) r.changes ≡ keep_if (tie change_less a) r'.changes

Agrees-refl : (r : Report) → Agrees r r
Agrees-refl r = record { rest = refl; hides = refl; ties = λ a. refl }

Agrees-append :
    {r r' : Report} (cs cs' : List Change) (n n' : ℕ)
    → Agrees r r'
    → n ≡ n'
    → ((a : Change) → keep_if (tie change_less a) cs ≡ keep_if (tie change_less a) cs')
    → Agrees
        (record r { changes = r.changes ++ cs; suppressed = r.suppressed + n })
        (record r' { changes = r'.changes ++ cs'; suppressed = r'.suppressed + n' })
Agrees-append {r} {r'} cs cs' n n' h e k = record {
  rest = h.rest;
  hides = omega (arith, h.hides);
  ties = λ a. rw (
    keep_if-append (tie change_less a) r.changes cs,
    keep_if-append (tie change_less a) r'.changes cs',
    h.ties a,
    k a,
  );
}

module _ (o o' : MapOrder) {V : Type 0} (f : Text × V → Effect) (named : Subjects f) (loop : ℕ)
    (m : List (Text × V)) (u : Assoc.Unique m) where
  for_each-Agrees :
      {r r' : Report}
      → Agrees r r'
      → Agrees (for_each f (o.visit loop m) r) (for_each f (o'.visit loop m) r')
  for_each-Agrees {r} {r'} h =
      rw (for_each_lem f (o.visit loop m) r, for_each_lem f (o'.visit loop m) r')
        (Agrees-append _ _ _ _ h
          (sym (hidden-perm f (o.visit-Permᴰ loop m)) ∙ hidden-perm f (o'.visit-Permᴰ loop m))
          (λ a. tie-visit f named a o loop m u ∙ sym (tie-visit f named a o' loop m u)))

module _ {F : Type 0} (dm : Domains) (d : Differ F) where
  host_added-Subjects : (m : List (Text × HostInfo)) → Subjects (Effects.host_added dm d m)
  unfolding Effects.host_added Effects.add
  host_added-Subjects m key v c h = ground arith

  host_removed-Subjects : (m : List (Text × HostInfo)) → Subjects (Effects.host_removed dm d m)
  unfolding Effects.host_removed Effects.add
  host_removed-Subjects m key v c h = ground arith

  asset_added-Subjects : Subjects (Effects.asset_added dm d)
  unfolding Effects.asset_added Effects.add
  asset_added-Subjects key v c h = ground arith

  asset_removed-Subjects : Subjects (Effects.asset_removed dm d)
  unfolding Effects.asset_removed Effects.add
  asset_removed-Subjects key v c h = ground arith

  script_changed-Subjects : Subjects (Effects.script_changed dm d)
  unfolding Effects.script_changed Effects.add Effects.script_compared
  script_changed-Subjects key v c h = ground arith

  cookie_added-Subjects : (m : List (Text × Cookie)) → Subjects (Effects.cookie_added dm d m)
  unfolding Effects.cookie_added Effects.add
  cookie_added-Subjects m key v c h = ground arith

  cookie_removed-Subjects : (m : List (Text × Cookie)) → Subjects (Effects.cookie_removed dm d m)
  unfolding Effects.cookie_removed Effects.add
  cookie_removed-Subjects m key v c h = ground arith

  storage_added-Subjects :
      (m : List (Text × StorageEntry)) → Subjects (Effects.storage_added dm d m)
  unfolding Effects.storage_added Effects.add
  storage_added-Subjects m key v c h = ground arith

  storage_removed-Subjects :
      (m : List (Text × StorageEntry)) → Subjects (Effects.storage_removed dm d m)
  unfolding Effects.storage_removed Effects.add
  storage_removed-Subjects m key v c h = ground arith

  status_changed-Subjects : Subjects (Effects.status_changed dm d)
  unfolding Effects.status_changed Effects.add
  status_changed-Subjects key v c h = ground arith

  denied_host-Subjects : Subjects (Effects.denied_host dm d)
  unfolding Effects.denied_host
  denied_host-Subjects key v c h = ground arith

module _ {F : Type 0} (dm : Domains) (o o' : MapOrder) (d : Differ F) where
  hosts-Agrees :
      {r r' : Report} → Agrees r r' → Agrees (compare_hosts dm o d r) (compare_hosts dm o' d r')
  unfolding compare_hosts
  hosts-Agrees h =
      for_each-Agrees o o' _ (host_removed-Subjects dm d (hosts d.current)) 2 _
        (hosts-Unique d.baseline)
        (for_each-Agrees o o' _ (host_added-Subjects dm d (hosts d.baseline)) 1 _
          (hosts-Unique d.current) h)

  module _ (unique_before : Assoc.Unique d.before) (unique_after : Assoc.Unique d.after) where
    assets-Agrees :
        {r r' : Report} → Agrees r r' → Agrees (compare_assets dm o d r) (compare_assets dm o' d r')
    unfolding compare_assets
    assets-Agrees h =
        for_each-Agrees o o' _ (asset_removed-Subjects dm d) 4 _ unique_before
          (for_each-Agrees o o' _ (asset_added-Subjects dm d) 3 _ unique_after h)

    scripts-Agrees :
        {r r' : Report}
        → Agrees r r'
        → Agrees (compare_scripts dm o d r) (compare_scripts dm o' d r')
    unfolding compare_scripts
    scripts-Agrees h = for_each-Agrees o o' _ (script_changed-Subjects dm d) 5 _ unique_after h

    statuses-Agrees :
        {r r' : Report}
        → Agrees r r'
        → Agrees (compare_statuses dm o d r) (compare_statuses dm o' d r')
    unfolding compare_statuses
    statuses-Agrees h = for_each-Agrees o o' _ (status_changed-Subjects dm d) 10 _ unique_after h

  cookies-Agrees :
      {r r' : Report} → Agrees r r' → Agrees (compare_cookies dm o d r) (compare_cookies dm o' d r')
  unfolding compare_cookies
  cookies-Agrees h =
      for_each-Agrees o o' _ (cookie_removed-Subjects dm d _) 7 _
        (cookies_from-Unique [] d.baseline.cookies tt)
        (for_each-Agrees o o' _ (cookie_added-Subjects dm d _) 6 _
          (cookies_from-Unique [] d.current.cookies tt) h)

  storage-Agrees :
      {r r' : Report} → Agrees r r' → Agrees (compare_storage dm o d r) (compare_storage dm o' d r')
  unfolding compare_storage
  storage-Agrees h =
      for_each-Agrees o o' _ (storage_removed-Subjects dm d _) 9 _
        (storage_from-Unique [] d.baseline.storage tt)
        (for_each-Agrees o o' _ (storage_added-Subjects dm d _) 8 _
          (storage_from-Unique [] d.current.storage tt) h)

  apply-Agrees : (e : Effect) {r r' : Report} → Agrees r r' → Agrees (apply e r) (apply e r')
  unfolding apply
  apply-Agrees Effect.skip h = h
  apply-Agrees Effect.hide h = record {
    rest = h.rest;
    hides = omega (arith, h.hides);
    ties = h.ties;
  }
  apply-Agrees (Effect.emit c) {r} {r'} h = record {
    rest = h.rest;
    hides = h.hides;
    ties = λ a. rw (
      keep_if-append (tie change_less a) r.changes (c ∷ []),
      keep_if-append (tie change_less a) r'.changes (c ∷ []),
      h.ties a,
    );
  }

  consent-Agrees :
      {r r' : Report} → Agrees r r' → Agrees (compare_consent dm o d r) (compare_consent dm o' d r')
  unfolding compare_consent
  consent-Agrees h = apply-Agrees _ h

  denied-Agrees :
      {r r' : Report}
      → Agrees r r'
      → Agrees (flag_denied_hosts dm o d r) (flag_denied_hosts dm o' d r')
  unfolding flag_denied_hosts
  denied-Agrees {r} {r'} h = elim (Bool-cases (list_empty d.rules.deny)) [
    | inl e ↦ rw e h
    | inr e ↦
        rw e (for_each-Agrees o o' _ (denied_host-Subjects dm d) 11 _ (hosts-Unique d.current) h)
  ]

  degradations-order : degradations dm o d ≡ degradations dm o' d
  unfolding degradations
  degradations-order =
      rw (top_incomplete_reason-order o o' d.current, top_incomplete_reason-order o o' d.baseline)

  degradation-Agrees :
      {r r' : Report}
      → Agrees r r'
      → Agrees (flag_degradation dm o d r) (flag_degradation dm o' d r')
  unfolding flag_degradation
  degradation-Agrees {r} {r'} h = record {
    rest = h.rest;
    hides = h.hides;
    ties = λ a. rw (
      keep_if-append (tie change_less a) r.changes (degradations dm o d),
      keep_if-append (tie change_less a) r'.changes (degradations dm o' d),
      h.ties a,
      degradations-order,
    );
  }

  comparisons-Agrees :
      (unique_before : Assoc.Unique d.before) (unique_after : Assoc.Unique d.after) (r : Report)
      → Agrees (comparisons dm o d r) (comparisons dm o' d r)
  unfolding comparisons
  comparisons-Agrees ub ua r = degradation-Agrees (
      denied-Agrees (
        consent-Agrees (
          statuses-Agrees ub ua (
            storage-Agrees (
              cookies-Agrees
                (scripts-Agrees ub ua (assets-Agrees ub ua (hosts-Agrees (Agrees-refl r)))))))))

-- Agreeing reports are equal once their changes are sorted.
sorted-eq :
    {r r' : Report}
    → Agrees r r'
    → record r { changes = sort_changes r.changes }
      ≡ record r' { changes = sort_changes r'.changes }
unfolding sort_changes
sorted-eq {r} {r'} h = λ i. record (h.rest i) {
  changes = sort_stable-eq change_less change_less-IsOrder r.changes r'.changes h.ties i;
  suppressed = h.hides i;
}

module _ {F : Type 0} (fl : Float F) (dm : Domains) (o o' : MapOrder) where
  decide-order :
      (baseline : Option Result) (current : Result) (rules : Options F) (reason : Option Reason)
      → decide fl dm o baseline current rules reason ≡ decide fl dm o' baseline current rules reason
  unfolding decide compared
  decide-order baseline current rules (some reason) = refl
  decide-order none current rules none = refl
  decide-order (some b) current rules none = sorted-eq (
      comparisons-Agrees dm o o' (differ fl dm o b current rules)
        (assets-Unique dm rules.normalizer b) (assets-Unique dm rules.normalizer current) _)

  -- Two runs of the comparison produce the same report, change by change and in the same order,
  -- whatever order Go visits the maps in.
  pub compare-order :
      (baseline : Option Result) (current : Result) (opts : Options F)
      → compare fl dm o baseline current opts ≡ compare fl dm o' baseline current opts
  unfolding compare
  compare-order baseline current opts = decide-order baseline current _ _
