-- ===== src/Examples/Baselines.antt =====
-- A series of two scans, one of which is approved (internal/store, baseline.go and compare.go).
use wsaw.Prelude.{
  Option, subst, ◌==◌, if◌then◌else◌, ℕ, ◌≡◌, refl, true, false, none, some, [], ◌∷◌, arith, All,
  keep_if,
}
use wsaw.Prelude.Text.{Text, bytes, eqb, less, is_empty}
use wsaw.Prelude.Assoc.{in_order}
use wsaw.Model.Enums.{ConsentMode, mode_text, Termination}
use wsaw.Model.Result.{Result, ok}
use wsaw.Diff.Change.{Report}
use wsaw.Store.Baselines.{
  Reading, Row, Baseline, Tables, found, set_baseline, result_by_id, new_baseline, store_baseline,
  approve, find_row, get_baseline, find_baseline, decoded, append_audit, row_of, Codec, upsert,
  previous_row, previous_result, newest,
}
use wsaw.Store.Baselines.Approved.{
  set_baseline-get, IsAnswer, IsApproved, IsApprovedRow, IsDocumented, CodecLaws,
}
use wsaw.Store.Baselines.History.{History, Event, IsAudited, History-IsAudited}
use wsaw.Store.Baselines.Rows.{IsKeyed}
use wsaw.Store.Comparison.{
  Comparison, reader_of, comparison_for, compare_baseline, compare_previous, report,
}
use wsaw.Store.Comparison.Explained.{report-IsExplained, IsExplained}
use wsaw.Store.Comparison.Other.{comparison_for-other}
use wsaw.Examples.Scans.{millionths, flat_web, scan_with, options}

abbrev row : Text → ℕ → Row
row id at = record {
  target = bytes "shop";
  mode = ConsentMode.reject;
  scan_id = id;
  started_at = at;
  termination = Termination.idle;
}

-- A codec that writes a version before a baseline, and takes no audit entry without an actor.
abbrev Document : Type 0
Document = ℕ × Option Baseline

abbrev codec : Codec Document
codec = record {
  encode_baseline = λ b. some (1, some b);
  decode_baseline = λ d. if d.0 == 1 then d.1 else none;
  encode_entry = λ e. if is_empty e.actor then none else some (2, none);
}

laws : CodecLaws codec
laws = record { readable = λ b. true; back = λ b d r h. ground (arith, h) }

abbrev two_scans : Tables Document
two_scans = record {
  rows = row (bytes "s1") 1 ∷ row (bytes "s2") 2 ∷ [];
  baselines = [];
  audit = [];
}

abbrev read : Row → Reading Result
read x = found (scan_with x.scan_id [])

abbrev the_baseline : Baseline
the_baseline =
    new_baseline 9 (bytes "shop") ConsentMode.reject (bytes "s2") (bytes "me") []
      (scan_with (bytes "s2") [])

abbrev approval_of_s2 : Tables Document
approval_of_s2 = record two_scans {
  baselines = row_of the_baseline (1, some the_baseline) ∷ [];
  audit = (record { at = 9; document = (2, none) }) ∷ [];
}

approved :
    set_baseline read codec two_scans 9
      (bytes "shop")
      ConsentMode.reject
      (bytes "s2")
      (bytes "me")
      []
    ≡ found (approval_of_s2, the_baseline)
unfolding set_baseline result_by_id find_row approve ok eqb mode_text store_baseline append_audit
    upsert
approved = refl

set_baseline-get_example :
    IsAnswer codec read two_scans
      (bytes "shop")
      ConsentMode.reject
      (bytes "s2")
      (bytes "shop")
      ConsentMode.accept
      approval_of_s2
      the_baseline
unfolding eqb mode_text laws
set_baseline-get_example =
    set_baseline-get codec read laws two_scans approval_of_s2 9 (bytes "shop") ConsentMode.reject
      (bytes "s2") (bytes "me") [] the_baseline (bytes "shop") ConsentMode.accept refl approved refl

documented : IsDocumented read
documented x r h = ground (arith, h)

History-IsAudited_example : All (IsAudited codec approval_of_s2) approval_of_s2.baselines
History-IsAudited_example = History-IsAudited read documented codec two_scans approval_of_s2 refl (
    History.then two_scans two_scans approval_of_s2 (History.done two_scans) (
      Event.approves two_scans approval_of_s2 9 (bytes "shop") ConsentMode.reject (bytes "s2")
        (bytes "me") [] the_baseline approved))

keyed : IsKeyed two_scans.rows
unfolding IsKeyed eqb mode_text
keyed = ((refl, tt), (tt, tt))

audited : All (IsApprovedRow codec) approval_of_s2.baselines
unfolding ok
audited =
    ((λ b h. let d : the_baseline ≡ b = ground (arith, h) in subst IsApproved d (refl, refl)), tt)

-- The approved scan is compared with the one before it.
abbrev with_before : Comparison
with_before = record {
  base = some (scan_with (bytes "s1") []);
  baseline = some the_baseline;
  own_baseline = true;
  evidence_gone = false;
}

compared :
    comparison_for (reader_of read codec approval_of_s2) (scan_with (bytes "s2") [])
    ≡ some with_before
unfolding comparison_for compare_baseline compare_previous get_baseline decoded find_baseline upsert
    previous_result previous_row find_row newest keep_if eqb mode_text less
compared = refl

comparison_for-other_example : ¬ (bytes "s1" ≡ bytes "s2")
comparison_for-other_example =
    comparison_for-other approval_of_s2 keyed read documented codec (scan_with (bytes "s2") [])
      with_before (scan_with (bytes "s1") []) audited compared refl

-- The first scan has none before it.
abbrev alone : Comparison
alone = record { base = none; baseline = none; own_baseline = false; evidence_gone = false }

first_scan :
    comparison_for (reader_of read codec two_scans) (scan_with (bytes "s1") []) ≡ some alone
unfolding comparison_for compare_baseline compare_previous get_baseline find_baseline decoded
    previous_result previous_row find_row newest keep_if eqb mode_text less
first_scan = refl

trusted : ok (scan_with (bytes "s1") []) ≡ true
unfolding ok
trusted = refl

abbrev first_report : Report
first_report = report millionths flat_web in_order alone (scan_with (bytes "s1") []) options

report-IsExplained_example :
    (first_report.comparable ≡ false)
    × IsExplained millionths flat_web in_order
        (reader_of read codec two_scans)
        (scan_with (bytes "s1") [])
        first_report
report-IsExplained_example =
    report-IsExplained millionths flat_web in_order (reader_of read codec two_scans)
      (scan_with (bytes "s1") []) options alone first_scan refl trusted
