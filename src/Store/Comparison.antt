-- ===== src/Store/Comparison.antt =====
-- internal/store/compare.go: what a scan is compared against, and the report of it.
pub mod Explained
pub mod Other
use wsaw.Prelude.{Bool, true, false, ◌&&◌, Option, none, some, if◌then◌else◌, is_some, not}
use wsaw.Prelude.Text.{Text, eqb}
use wsaw.Prelude.Assoc.{MapOrder}
use wsaw.Model.Enums.{ConsentMode}
use wsaw.Model.Result.{Float, Result}
use wsaw.Classify.{Domains}
use wsaw.Diff.Change.{Reason, Report}
use wsaw.Diff.Differ.{Options}
use wsaw.Diff.Compare.{compare}
use wsaw.Store.Baselines.{
  Reading, found, not_found, evidence_gone, failed, Row, Baseline, Codec, Tables, get_baseline,
  previous_result,
}

pub record ComparisonReader : Type 0 where
  pub baseline_of_series : Text → ConsentMode → Reading Baseline
  pub result_before : Text → ConsentMode → Text → Reading Result

pub record Comparison : Type 0 where
  pub base : Option Result
  pub baseline : Option Baseline
  pub own_baseline : Bool
  pub evidence_gone : Bool

-- The store as the reader.
abbrev pub reader_of : {D : Type 0} → (Row → Reading Result) → Codec D → Tables D → ComparisonReader
reader_of read codec t = record {
  baseline_of_series = get_baseline codec t;
  result_before = previous_result read t;
}

module _ (src : ComparisonReader) (res : Result) where
  -- The scan before this one; no answer is a failed read.
  unfoldable pub compare_previous : Comparison → Option Comparison
  compare_previous c = elim (src.result_before res.target res.consent_mode res.scan_id) [
    | found prev ↦ some (record c { base = some prev })
    | evidence_gone ↦ some (record c { evidence_gone = true })
    | not_found ↦ some c
    | failed ↦ none
  ]

  abbrev pub with_baseline : Option Baseline → Bool → Comparison
  with_baseline b own = record {
    base = none;
    baseline = b;
    own_baseline = own;
    evidence_gone = false;
  }

  unfoldable pub compare_baseline : Baseline → Option Comparison
  compare_baseline b =
      if eqb b.scan_id res.scan_id
      then compare_previous (with_baseline (some b) true)
      else some (record (with_baseline (some b) false) { base = some b.result })

  unfoldable pub comparison_for : Option Comparison
  comparison_for = elim (src.baseline_of_series res.target res.consent_mode) [
    | found b ↦ compare_baseline b
    | not_found ↦ compare_previous (with_baseline none false)
    | evidence_gone ↦ none
    | failed ↦ none
  ]

module _ {F : Type 0} (fl : Float F) (dm : Domains) (order : MapOrder) where
  unfoldable pub report : Comparison → Result → Options F → Report
  report c res opts =
      let rep = compare fl dm order c.base res opts in
      if c.evidence_gone
      then record rep { reason = Reason.evidence_gone }
      else if c.own_baseline && not (is_some c.base)
      then record rep { reason = Reason.first_baseline }
      else rep
