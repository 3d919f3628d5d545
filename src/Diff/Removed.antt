-- ===== src/Diff/Removed.antt =====
-- What internal/diff/diff.go reports of cookies that are gone.
use mathlib.Core.List.{Mem}
use wsaw.Prelude.{◌≡◌, refl, false, none, some, []}
use wsaw.Prelude.Text.{Text}
use wsaw.Prelude.Assoc
use wsaw.Prelude.Assoc.{MapOrder}
use wsaw.Model.Result.{Float, Result, Cookie}
use wsaw.Classify.{Domains}
use wsaw.Diff.Change.{Change, ChangeType, Value}
use wsaw.Diff.HostList.{matches}
use wsaw.Diff.Maps.{cookies_from}
use wsaw.Diff.Differ.{Options, Differ, incomparable}
use wsaw.Diff.Effects
use wsaw.Diff.Compare.{compare_cookies, compare, options_with_defaults}
use wsaw.Diff.Complete.{d, add-emits, not-suppressed, compare-mem}
use wsaw.Diff.Extends.{loop-reports, comparisons-cookie}

module _ {F : Type 0} (fl : Float F) (dm : Domains) (o : MapOrder) (b current : Result)
    (opts : Options F) (comparable : incomparable (some b) current ≡ none) where
  -- Of two comparable scans: a cookie that the baseline has and the current scan has not, and whose
  -- domain is not on the allow list, is reported as removed with its name and domain. Nothing is asked
  -- of the health of either scan: it is reported also where so many requests are lost that removed
  -- hosts and assets are not.
  pub compare-lost_cookie :
      (k : Text) (cookie : Cookie)
      → Assoc.lookup k (cookies_from [] b.cookies) ≡ some cookie
      → Assoc.contains k (cookies_from [] current.cookies) ≡ false
      → matches dm opts.allow cookie.domain ≡ false
      → (c : Change) × Mem c (compare fl dm o (some b) current opts).changes
        × (c.type ≡ ChangeType.cookie_removed)
        × (c.subject ≡ k)
        × (c.domain ≡ cookie.domain)
        × (c.before ≡ Value.text cookie.name)
        × (c.severity ≡ (options_with_defaults fl opts).severity.cookie_removed)
  unfolding compare_cookies Effects.cookie_removed
  compare-lost_cookie k cookie was gone shown = (
    c,
    compare-mem fl dm o b current opts comparable c (λ r. comparisons-cookie dm o e r c (λ q.
        loop-reports o 7 _ (cookies_from [] b.cookies) _ k cookie c was
          (rw gone (add-emits dm e c (not-suppressed dm e c shown))))),
    refl,
    refl,
    refl,
    refl,
    refl,
  )
    where
      e : Differ F
      e = d fl dm o b current opts comparable

      c : Change
      c = Effects.cookie_removed_change dm e k cookie
