-- ===== src/Examples/Flap.antt =====
-- The suppressor of internal/diff/flap.go on a host that comes and goes.
use wsaw.Prelude.{◌≤◌, ◌≡◌, refl, some, List, [], ◌∷◌, arith}
use wsaw.Prelude.Text.{bytes, eqb}
use wsaw.Model.Enums.{ConsentMode, ConsentPhase, Party, mode_text}
use wsaw.Diff.Change.{Change, ChangeType, Severity, Message, empty, type_text}
use wsaw.Diff.Flap.{
  FlapSuppressor, key_of, same_key, seen_at, record_at, is_recent, filter_step, filter_from, filter,
  prune,
}
use wsaw.Diff.Flap.Laws.{emissions, filter-once}
use wsaw.Diff.Flap.Prune.{filter-prune}

abbrev host_change : ChangeType → Change
host_change typ = record {
  type = typ;
  severity = Severity.high;
  target = bytes "shop";
  consent_mode = ConsentMode.reject;
  subject = bytes "t.io";
  domain = bytes "t.io";
  party = Party.third;
  phase = ConsentPhase.pre;
  before = empty;
  after = empty;
  detail = Message.third_host (bytes "t.io");
}

abbrev suppressor : FlapSuppressor
suppressor = record { window = 60; seen = (key_of (host_change ChangeType.host_added), 100) ∷ [] }

abbrev flapping : List Change
flapping =
    host_change ChangeType.host_removed
    ∷ host_change ChangeType.cookie_added
    ∷ host_change ChangeType.cookie_removed
    ∷ []

-- Within the window the host is held back, after it the host is emitted; the cookie is new.
host_suppressed : (filter (some suppressor) 130 flapping).2 ≡ 2
unfolding filter filter_from filter_step is_recent record_at key_of same_key seen_at type_text
    mode_text eqb
host_suppressed = refl

host_emitted : (filter (some suppressor) 170 flapping).2 ≡ 1
unfolding filter filter_from filter_step is_recent record_at key_of same_key seen_at type_text
    mode_text eqb
host_emitted = refl

filter-once_example :
    emissions
      (key_of (host_change ChangeType.cookie_added))
      (filter (some suppressor) 130 flapping).1
    ≤ 1
filter-once_example =
    filter-once suppressor 130 flapping (key_of (host_change ChangeType.cookie_added)) (omega arith)

filter-prune_example :
    ((filter (prune (some suppressor) 165) 170 flapping).1
      ≡ (filter (some suppressor) 170 flapping).1)
    × ((filter (prune (some suppressor) 165) 170 flapping).2
        ≡ (filter (some suppressor) 170 flapping).2)
unfolding seen_at
filter-prune_example = filter-prune suppressor 165 170 flapping (refl, tt) (omega arith)
