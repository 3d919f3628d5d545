-- ===== src/Examples/Diff.antt =====
-- The comparison of internal/diff on two concrete scans.
use mathlib.Core.Bool.{false≢true}
use mathlib.Core.List.{Permᴰ, Mem}
use wsaw.Prelude.{◌≡◌, ◌≢◌, refl, true, false, none, some, List, [], ◌∷◌, arith, any, All}
use wsaw.Prelude.Text.{Text, bytes, eqb, eqb_iff, to_lower}
use wsaw.Prelude.Assoc
use wsaw.Prelude.Assoc.{MapOrder, in_order}
use wsaw.Model.Enums.{mode_text, ConsentPhase, Party}
use wsaw.Model.Result.{Result, Cookie, ok}
use wsaw.Diff.Change.{Change, ChangeType, Severity, Value, Report}
use wsaw.Diff.Rules.{for_host_added, for_script_changed, with_defaults, over, or_severity}
use wsaw.Diff.HostList.{matches}
use wsaw.Diff.Maps.{
  cookies_from, hosts, assets, HostInfo, AssetInfo, initiator_domains, add_initiator,
}
use wsaw.Diff.Differ.{incomparable, script_identity}
use wsaw.Diff.Compare.{compare}
use wsaw.Diff.Order.{compare-order}
use wsaw.Diff.Justified.{Justified}
use wsaw.Diff.Complete.{compare-new_host, compare-changed_script, compare-denied_host}
use wsaw.Diff.Removed.{compare-lost_cookie}
use wsaw.Diff.Itself.{IsStanding, compare-itself}
use wsaw.Examples.Scans.{millionths, flat_web, earlier, later, options}

comparable : incomparable (some earlier) later ≡ none
unfolding incomparable ok mode_text eqb
comparable = refl

abbrev found : Report
found = compare millionths flat_web in_order (some earlier) later options

-- Another order: the first two entries change places.
swap_two {ℓ} : {A : Type ℓ} → List A → List A
swap_two (x ∷ y ∷ m) = y ∷ x ∷ m
swap_two m = m

swap_two-Permᴰ {ℓ} : {A : Type ℓ} (m : List A) → Permᴰ m (swap_two m)
unfolding swap_two
swap_two-Permᴰ (x ∷ y ∷ m) = Permᴰ.swap refl refl
swap_two-Permᴰ [] = Permᴰ.nil
swap_two-Permᴰ (x ∷ []) = Permᴰ.cons refl Permᴰ.nil

abbrev swapped : MapOrder
swapped = record { visit = λ loop m. swap_two m; visit-Permᴰ = λ loop m. swap_two-Permᴰ m }

compare-order_example : found ≡ compare millionths flat_web swapped (some earlier) later options
compare-order_example =
    compare-order millionths flat_web in_order swapped (some earlier) later options

abbrev tracker : HostInfo
tracker = record { party = Party.third; phase = ConsentPhase.pre; count = 1 }

tracker_contacted : Assoc.lookup (bytes "t.io") (hosts later) ≡ some tracker
unfolding hosts Assoc.lookup Assoc.set eqb
tracker_contacted = refl

tracker_new : Assoc.contains (bytes "t.io") (hosts earlier) ≡ false
unfolding hosts Assoc.lookup Assoc.set eqb
tracker_new = refl

nothing_allowed : matches flat_web options.allow (bytes "t.io") ≡ false
unfolding matches any eqb
nothing_allowed = ground arith

tracker_denied : matches flat_web options.deny (bytes "t.io") ≡ true
unfolding matches any eqb to_lower
tracker_denied = refl

compare-new_host_example :
    (c : Change) × Mem c found.changes
    × (c.type ≡ ChangeType.host_added)
    × (c.subject ≡ bytes "t.io")
    × (c.phase ≡ ConsentPhase.pre)
    × (c.severity ≡ Severity.critical)
unfolding for_host_added with_defaults over or_severity
compare-new_host_example =
    compare-new_host millionths flat_web in_order earlier later options comparable (bytes "t.io")
      tracker tracker_contacted tracker_new nothing_allowed

compare-denied_host_example :
    (c : Change) × Mem c found.changes
    × (c.type ≡ ChangeType.denied_host)
    × (c.subject ≡ bytes "t.io")
    × (c.severity ≡ Severity.critical)
unfolding with_defaults over or_severity
compare-denied_host_example =
    compare-denied_host millionths flat_web in_order earlier later options comparable (bytes "t.io")
      tracker tracker_contacted tracker_denied

abbrev script : Text → AssetInfo
script digest = record {
  url = bytes "a.de";
  party = Party.first;
  domain = bytes "a.de";
  phase = ConsentPhase.pre;
  typ = bytes "script";
  status = 200;
  digest = digest;
  identity = [];
  identity_label = [];
  initiators = [];
}

script_before :
    Assoc.lookup (bytes "a.de") (assets flat_web none earlier) ≡ some (script (bytes "11"))
unfolding assets Assoc.lookup Assoc.set eqb initiator_domains add_initiator
script_before = refl

script_after : Assoc.lookup (bytes "a.de") (assets flat_web none later) ≡ some (script (bytes "22"))
unfolding assets Assoc.lookup Assoc.set eqb initiator_domains add_initiator
script_after = refl

script_ids :
    script_identity (script (bytes "11")) (script (bytes "22")) ≡ some (bytes "11", bytes "22", [])
unfolding script_identity
script_ids = refl

not_allowed : matches flat_web options.allow (bytes "a.de") ≡ false
unfolding matches any eqb
not_allowed = ground arith

digests_differ : bytes "11" ≢ bytes "22"
unfolding eqb
digests_differ e = false≢true ((eqb_iff (bytes "11") (bytes "22")).1 e)

compare-changed_script_example :
    (c : Change) × Mem c found.changes
    × (c.type ≡ ChangeType.script_changed)
    × (c.subject ≡ bytes "a.de")
    × (c.before ≡ Value.text (bytes "11"))
    × (c.after ≡ Value.text (bytes "22"))
    × (c.severity ≡ Severity.low)
unfolding for_script_changed with_defaults over or_severity
compare-changed_script_example =
    compare-changed_script millionths flat_web in_order earlier later options comparable
      (bytes "a.de") (script (bytes "11")) (script (bytes "22")) (bytes "11", bytes "22", [])
      script_before script_after refl script_ids digests_differ not_allowed

with_itself : incomparable (some later) later ≡ none
unfolding incomparable ok mode_text eqb
with_itself = refl

compare-itself_example :
    All
      (λ c. IsStanding c.type)
      (compare millionths flat_web in_order (some later) later options).changes
compare-itself_example = compare-itself millionths flat_web in_order later options with_itself

abbrev session : Cookie
session = record { name = bytes "id"; domain = bytes "a.de"; path = bytes "/"; party = Party.first }

abbrev with_cookie : Result
with_cookie = record earlier { cookies = session ∷ [] }

comparable_cookie : incomparable (some with_cookie) later ≡ none
unfolding incomparable ok mode_text eqb
comparable_cookie = refl

had_cookie : Assoc.lookup (bytes "a.de/|id") (cookies_from [] with_cookie.cookies) ≡ some session
unfolding cookies_from Assoc.set Assoc.lookup eqb
had_cookie = refl

cookie_gone : Assoc.contains (bytes "a.de/|id") (cookies_from [] later.cookies) ≡ false
unfolding cookies_from Assoc.lookup
cookie_gone = refl

compare-lost_cookie_example :
    (c : Change) × Mem c
      (compare millionths flat_web in_order (some with_cookie) later options).changes
    × (c.type ≡ ChangeType.cookie_removed)
    × (c.subject ≡ bytes "a.de/|id")
    × (c.domain ≡ bytes "a.de")
    × (c.before ≡ Value.text (bytes "id"))
    × (c.severity ≡ Severity.info)
unfolding with_defaults over or_severity
compare-lost_cookie_example =
    compare-lost_cookie millionths flat_web in_order with_cookie later options comparable_cookie
      (bytes "a.de/|id") session had_cookie cookie_gone not_allowed
