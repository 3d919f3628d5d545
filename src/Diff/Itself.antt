-- ===== src/Diff/Itself.antt =====
-- The comparison of internal/diff/diff.go of a scan with itself.
use mathlib.Core.Bool.{false≢true}
use wsaw.Prelude.{
  ◌≡◌, refl, sym, ap, ◌∙◌, ◌⊎◌, inl, inr, true, false, ◌&&◌, none, some, List, [], ◌∷◌, arith, All,
  ◌==◌, is_some,
}
use wsaw.Prelude.Text.{Text, eqb, eqb_refl}
use wsaw.Prelude.Assoc
use wsaw.Prelude.Assoc.{MapOrder}
use wsaw.Model.Enums.{outcome_text, same_outcome}
use wsaw.Model.Result.{Float, Result}
use wsaw.Classify.{Domains}
use wsaw.Diff.Change.{Change, ChangeType}
use wsaw.Diff.Maps.{AssetInfo, hosts, cookies_from, storage_from}
use wsaw.Diff.Differ.{Options, Differ, incomparable, script_identity}
use wsaw.Diff.Compare.{compare}
use wsaw.Diff.Justified.{Says}
use wsaw.Diff.Justified.Compare.{differ_of, compare-Justified}

All-weaken :
    {A : Type 0} (P Q : A → Type 0) → ((x : A) → P x → Q x) → (xs : List A) → All P xs → All Q xs
All-weaken P Q f [] h = tt
All-weaken P Q f (x ∷ xs) h = (f x h.0, All-weaken P Q f xs h.1)

same_ids :
    (was : AssetInfo) (ids : Text × Text × Text)
    → script_identity was was ≡ some ids
    → eqb ids.0 ids.1 ≡ true
unfolding script_identity
same_ids was ids h = ground (arith, eqb_refl was.identity, eqb_refl was.digest)

differ_status : (was now : AssetInfo) → was ≡ now → (was.status == now.status) ≡ false → ⊥
differ_status was now e h = ground (arith, ap (λ a. a.status) e)

same_consent :
    (b c : Result)
    → b ≡ c
    → (same_outcome b.consent.outcome c.consent.outcome && eqb b.consent.cmp c.consent.cmp) ≡ false
    → ⊥
same_consent b c e h = ground (
  arith,
  ap (λ r. outcome_text r.consent.outcome) e,
  ap (λ r. r.consent.cmp) e,
  eqb_refl (outcome_text b.consent.outcome),
  eqb_refl b.consent.cmp,
)

-- The two types of finding that need no difference.
abbrev pub IsStanding : ChangeType → Type 0
IsStanding t = (t ≡ ChangeType.denied_host) ⊎ (t ≡ ChangeType.scan_degraded)

clash :
    {V : Type 0} (k : Text) (m m' : List (Text × V))
    → m ≡ m'
    → Assoc.contains k m ≡ true
    → Assoc.contains k m' ≡ false
    → ⊥
clash k m m' e h h' = false≢true (sym h' ∙ ap (Assoc.contains k) (sym e) ∙ h)

clash_found :
    {V : Type 0} (k : Text) (v : V) (m m' : List (Text × V))
    → m ≡ m'
    → Assoc.lookup k m ≡ some v
    → Assoc.contains k m' ≡ false
    → ⊥
clash_found k v m m' e h h' = clash k m m' e (ap is_some h) h'

one_value :
    {V : Type 0} (k : Text) (v w : V) (m m' : List (Text × V))
    → m ≡ m'
    → Assoc.lookup k m ≡ some v
    → Assoc.lookup k m' ≡ some w
    → v ≡ w
one_value k v w m m' e h h' = ground (arith, ap (Assoc.lookup k) e)

module _ {F : Type 0} (dm : Domains) (d : Differ F) (same : d.baseline ≡ d.current)
    (same_assets : d.before ≡ d.after) where
  says-IsStanding : (c : Change) (t : ChangeType) → Says dm d c t → IsStanding t
  says-IsStanding c ChangeType.host_added (info, h, n, e) =
      absurd (clash_found c.subject info _ _ (ap hosts (sym same)) h n)
  says-IsStanding c ChangeType.host_removed (h, e) =
      absurd (clash c.subject _ _ (ap hosts same) h.0 h.1)
  says-IsStanding c ChangeType.asset_added h =
      absurd (clash c.subject _ _ (sym same_assets) h.0 h.1)
  says-IsStanding c ChangeType.asset_removed (info, h, n, e) =
      absurd (clash_found c.subject info _ _ same_assets h n)
  says-IsStanding c ChangeType.script_changed (was, now, ids, b, a, i, e) = absurd (
      false≢true (
        sym e
        ∙ same_ids was ids
            (ap (script_identity was) (one_value c.subject was now _ _ same_assets b a) ∙ i)))
  says-IsStanding c ChangeType.cookie_added h =
      absurd (clash c.subject _ _ (ap (λ r. cookies_from [] r.cookies) (sym same)) h.0 h.1)
  says-IsStanding c ChangeType.cookie_removed h =
      absurd (clash c.subject _ _ (ap (λ r. cookies_from [] r.cookies) same) h.0 h.1)
  says-IsStanding c ChangeType.storage_added h =
      absurd (clash c.subject _ _ (ap (λ r. storage_from [] r.storage) (sym same)) h.0 h.1)
  says-IsStanding c ChangeType.storage_removed h =
      absurd (clash c.subject _ _ (ap (λ r. storage_from [] r.storage) same) h.0 h.1)
  says-IsStanding c ChangeType.status_changed (was, now, b, a, e) =
      absurd (differ_status was now (one_value c.subject was now _ _ same_assets b a) e)
  says-IsStanding c ChangeType.consent_changed h = absurd (same_consent d.baseline d.current same h)
  says-IsStanding c ChangeType.denied_host h = inl refl
  says-IsStanding c ChangeType.scan_degraded h = inr refl

module _ {F : Type 0} (fl : Float F) (dm : Domains) (o : MapOrder) where
  -- A scan that produced an asset list and is compared with itself has no findings but those on
  -- denied hosts and on its own degradation.
  pub compare-itself :
      (r : Result) (opts : Options F)
      → incomparable (some r) r ≡ none
      → All (λ c. IsStanding c.type) (compare fl dm o (some r) r opts).changes
  compare-itself r opts h =
      All-weaken _ _
        (λ c j. says-IsStanding dm (differ_of fl dm o r r opts) refl refl c c.type j.says) _
        (compare-Justified fl dm o r r opts h)
