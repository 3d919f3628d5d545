-- ===== src/Diff/Flap.antt =====
-- internal/diff/flap.go: the suppressor that collapses a change which reverts within a window.
-- Times and the window are in nanoseconds, and the window is positive where suppression is on.
pub mod Prune
pub mod Laws
use wsaw.Prelude.{
  ℕ, ◌+◌, ◌-◌, ◌≤◌, ◌<◌, ◌≡◌, refl, sym, ap, ◌∙◌, ◌⊎◌, inl, inr, Bool, true, false, not, ◌&&◌, ◌||◌,
  Option, none, some, List, [], ◌∷◌, ◌++◌, arith, if◌then◌else◌, ltb, leb, ◌==◌, length, Bool-cases,
  Option-cases,
}
use wsaw.Prelude.Text.{Text, eqb, eqb_iff, eqb_refl, bytes}
use wsaw.Model.Enums.{ConsentMode, mode_text}
use wsaw.Diff.Change.{Change, ChangeType, type_text}

pub record FlapKey : Type 0 where
  pub target : Text
  pub mode : ConsentMode
  pub typ : ChangeType
  pub subject : Text

-- The type that a change and its inverse share.
unfoldable pub paired : ChangeType → ChangeType
paired ChangeType.host_removed = ChangeType.host_added
paired ChangeType.asset_removed = ChangeType.asset_added
paired ChangeType.cookie_removed = ChangeType.cookie_added
paired ChangeType.storage_removed = ChangeType.storage_added
paired t = t

unfoldable pub key_of : Change → FlapKey
unfolding paired
key_of c = record {
  target = c.target;
  mode = c.consent_mode;
  typ = paired c.type;
  subject = c.subject;
}

-- `==` on keys: all four fields.
unfoldable pub same_key : FlapKey → FlapKey → Bool
same_key a b =
    eqb a.target b.target
    && (eqb (mode_text a.mode) (mode_text b.mode)
        && (eqb (type_text a.typ) (type_text b.typ) && eqb a.subject b.subject))

-- `seen`: when each identity was last emitted.
abbrev pub Seen : Type 0
Seen = List (FlapKey × ℕ)

unfoldable pub seen_at : FlapKey → Seen → Option ℕ
seen_at k [] = none
seen_at k ((j, t) ∷ m) = if same_key j k then some t else seen_at k m

unfoldable pub record_at : FlapKey → ℕ → Seen → Seen
record_at k t [] = (k, t) ∷ []
record_at k t ((j, u) ∷ m) = if same_key j k then (j, t) ∷ m else (j, u) ∷ record_at k t m

pub record FlapSuppressor : Type 0 where
  pub window : ℕ
  pub seen : Seen

-- Whether an identity was emitted less than a window ago. A clock that was set back gives a
-- negative age, which is less too.
unfoldable pub is_recent : ℕ → ℕ → Option ℕ → Bool
is_recent window now none = false
is_recent window now (some last) = ltb (now - last) window

pub record Filtered : Type 0 where
  pub seen : Seen
  pub emit : List Change
  pub suppressed : ℕ

-- One pass of the loop of `Filter`.
unfoldable pub filter_step : ℕ → ℕ → Filtered → Change → Filtered
filter_step window now f c =
    if is_recent window now (seen_at (key_of c) f.seen)
    then record f { suppressed = f.suppressed + 1 }
    else record {
      seen = record_at (key_of c) now f.seen;
      emit = f.emit ++ c ∷ [];
      suppressed = f.suppressed;
    }

unfoldable pub filter_from : ℕ → ℕ → Filtered → List Change → Filtered
filter_from window now f [] = f
filter_from window now f (c ∷ cs) = filter_from window now (filter_step window now f c) cs

-- `Filter`. No suppressor at all is the nil pointer.
unfoldable pub filter :
    Option FlapSuppressor → ℕ → List Change → Option FlapSuppressor × List Change × ℕ
filter none now cs = (none, cs, 0)
filter (some s) now cs =
    if s.window == 0
    then (some s, cs, 0)
    else let out =
        filter_from s.window now (record { seen = s.seen; emit = []; suppressed = 0 }) cs in
      (some (record s { seen = out.seen }), out.emit, out.suppressed)

-- The loop of `Prune`.
unfoldable pub prune_seen : ℕ → ℕ → Seen → Seen
prune_seen window now [] = []
prune_seen window now ((k, at) ∷ m) =
    if leb window (now - at) then prune_seen window now m else (k, at) ∷ prune_seen window now m

unfoldable pub prune : Option FlapSuppressor → ℕ → Option FlapSuppressor
unfolding prune_seen
prune none now = none
prune (some s) now = some (record s { seen = prune_seen s.window now s.seen })
