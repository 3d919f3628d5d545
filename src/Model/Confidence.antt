-- ===== src/Model/Confidence.antt =====
-- internal/model/confidence.go: a score with its band and its reasons. Sentences for a reader are
-- kept as data, with the arguments of their formats.
use wsaw.Prelude.{ℕ, Option, List}
use wsaw.Prelude.Text.{Text}
use wsaw.Model.Enums.{ConsentMode, ConsentOutcome, Termination}

pub data Band : Type 0 where
  high medium low none : Band

pub data Signal : Type 0 where
  termination fetches duration consent : Signal

-- Why a completed scan's consent state cannot be taken at face value.
pub data Caveat : Type 0 where
  interaction_failed unverified banner_shown : Caveat
  necessary_only_in : ConsentMode → Caveat

pub data Observed : Type 0 where
  ended : Termination → Observed
  time_budget requests_cap bytes_cap went_idle : Observed
  all_requests : ℕ → Observed
  lost_requests : ℕ → ℕ → Text × ℕ → Observed
  lasted : ℕ → Observed
  outcome : ConsentOutcome → Observed
  caveat : Caveat → Observed
  with_heuristic : Observed → Observed
  failed_with : Termination → Text → Observed

pub data NotAssessed : Type 0 where
  unavailable : Text → NotAssessed
  too_few : ℕ → NotAssessed

-- The median and the number of scans that it was taken over.
pub record DurationReference : Type 0 where
  pub median : ℕ
  pub scans : ℕ

pub record ConfidenceReason : Type 0 where
  pub signal : Signal
  pub points : ℕ
  pub observed : Observed
  pub reference : Option DurationReference
  pub not_assessed : Option NotAssessed

pub record Confidence : Type 0 where
  pub score : ℕ
  pub band : Band
  pub reasons : List ConfidenceReason
  pub duration_reference : Option DurationReference
