-- ===== src/Model/Enums.antt =====
-- The named strings of internal/model/result.go. A value that no constant names is kept as its
-- text, since a stored document may hold any string there.
use wsaw.Prelude.{Bool, true, false, ◌||◌}
use wsaw.Prelude.Text.{Text, bytes, eqb}

pub data ConsentMode : Type 0 where
  none reject accept : ConsentMode
  other : Text → ConsentMode

unfoldable pub mode_text : ConsentMode → Text
mode_text ConsentMode.none = bytes "none"
mode_text ConsentMode.reject = bytes "reject"
mode_text ConsentMode.accept = bytes "accept"
mode_text (ConsentMode.other s) = s

-- `Valid`.
unfoldable pub mode_valid : ConsentMode → Bool
mode_valid (ConsentMode.other s) = false
mode_valid _ = true

abbrev pub is_reject : ConsentMode → Bool
is_reject ConsentMode.reject = true
is_reject _ = false

-- `a == b` on consent modes, which compares the strings.
abbrev pub same_mode : ConsentMode → ConsentMode → Bool
same_mode a b = eqb (mode_text a) (mode_text b)

pub data ConsentOutcome : Type 0 where
  applied not_needed failed unverified banner_visible necessary_only : ConsentOutcome
  other : Text → ConsentOutcome

unfoldable pub outcome_text : ConsentOutcome → Text
outcome_text ConsentOutcome.applied = bytes "applied"
outcome_text ConsentOutcome.not_needed = bytes "not-needed"
outcome_text ConsentOutcome.failed = bytes "failed"
outcome_text ConsentOutcome.unverified = bytes "unverified"
outcome_text ConsentOutcome.banner_visible = bytes "banner-visible"
outcome_text ConsentOutcome.necessary_only = bytes "necessary-only"
outcome_text (ConsentOutcome.other s) = s

abbrev pub is_applied : ConsentOutcome → Bool
is_applied ConsentOutcome.applied = true
is_applied _ = false

abbrev pub same_outcome : ConsentOutcome → ConsentOutcome → Bool
same_outcome a b = eqb (outcome_text a) (outcome_text b)

pub data Termination : Type 0 where
  idle timeout request_cap byte_cap error skipped : Termination
  other : Text → Termination

unfoldable pub termination_text : Termination → Text
termination_text Termination.idle = bytes "idle"
termination_text Termination.timeout = bytes "timeout"
termination_text Termination.request_cap = bytes "request-cap"
termination_text Termination.byte_cap = bytes "byte-cap"
termination_text Termination.error = bytes "error"
termination_text Termination.skipped = bytes "skipped"
termination_text (Termination.other s) = s

abbrev pub is_error : Termination → Bool
is_error Termination.error = true
is_error _ = false

abbrev pub is_skipped : Termination → Bool
is_skipped Termination.skipped = true
is_skipped _ = false

-- `Truncated` of a termination reason: capture stopped before the page went idle.
unfoldable pub termination_truncated : Termination → Bool
termination_truncated Termination.timeout = true
termination_truncated Termination.request_cap = true
termination_truncated Termination.byte_cap = true
termination_truncated _ = false

-- `Failed` of a termination reason: no asset list was produced at all.
unfoldable pub termination_failed : Termination → Bool
termination_failed t = is_error t || is_skipped t

-- `unset` is the empty string, here and below.
pub data ConsentPhase : Type 0 where
  unset pre post : ConsentPhase
  other : Text → ConsentPhase

abbrev pub is_unset : ConsentPhase → Bool
is_unset ConsentPhase.unset = true
is_unset _ = false

abbrev pub is_pre : ConsentPhase → Bool
is_pre ConsentPhase.pre = true
is_pre _ = false

pub data Party : Type 0 where
  unset first third : Party
  other : Text → Party

abbrev pub is_first : Party → Bool
is_first Party.first = true
is_first _ = false

abbrev pub is_third : Party → Bool
is_third Party.third = true
is_third _ = false

unfoldable pub phase_text : ConsentPhase → Text
phase_text ConsentPhase.unset = bytes ""
phase_text ConsentPhase.pre = bytes "pre-interaction"
phase_text ConsentPhase.post = bytes "post-interaction"
phase_text (ConsentPhase.other s) = s

unfoldable pub party_text : Party → Text
party_text Party.unset = bytes ""
party_text Party.first = bytes "first"
party_text Party.third = bytes "third"
party_text (Party.other s) = s
