-- ===== src/Store/Comparison/Explained.antt =====
-- Report of internal/store/compare.go: why nothing was compared.
use wsaw.Prelude.{◌≡◌, true, false, ◌⊎◌, inl, inr, Option, none, some, arith, Bool-cases}
use wsaw.Prelude.Text.{eqb}
use wsaw.Prelude.Assoc.{MapOrder}
use wsaw.Model.Result.{Float, Result, ok}
use wsaw.Classify.{Domains}
use wsaw.Diff.Change.{Reason, Report}
use wsaw.Diff.Differ.{Options, incomparable}
use wsaw.Diff.Compare.{compare, decide, refused, blank}
use wsaw.Store.Baselines.{Reading, Baseline, found, not_found, evidence_gone}
use wsaw.Store.Baselines.Reads.{Reading-cases}
use wsaw.Store.Comparison.{
  ComparisonReader, Comparison, compare_previous, compare_baseline, comparison_for, with_baseline,
  report,
}

module _ (src : ComparisonReader) (res : Result) where
  abbrev pub scan_before : Reading Result
  scan_before = src.result_before res.target res.consent_mode res.scan_id

  abbrev pub approved : Reading Baseline
  approved = src.baseline_of_series res.target res.consent_mode

  compare_previous-none :
      (c d : Comparison)
      → compare_previous src res c ≡ some d
      → d.base ≡ none
      → ((scan_before ≡ not_found) × (d ≡ c))
        ⊎ ((scan_before ≡ evidence_gone) × (d.evidence_gone ≡ true))
  unfolding compare_previous
  compare_previous-none c d h n = elim (Reading-cases scan_before) [
    | inl (r, e) ↦ ground (arith, e, h, n)
    | inr (inl e) ↦ inl (e, ground (arith, e, h))
    | inr (inr (inl e)) ↦ inr (e, ground (arith, e, h))
    | inr (inr (inr e)) ↦ ground (arith, e, h)
  ]

  -- Why there is nothing to compare with.
  abbrev pub Unanswered : Comparison → Type 0
  Unanswered c =
      ((approved ≡ not_found)
        × (scan_before ≡ not_found)
        × (c.evidence_gone ≡ false)
        × (c.own_baseline ≡ false))
      ⊎ (((scan_before ≡ evidence_gone) × (c.evidence_gone ≡ true))
          ⊎ ((b : Baseline) × (approved ≡ found b)
              × (eqb b.scan_id res.scan_id ≡ true)
              × (scan_before ≡ not_found)
              × (c.evidence_gone ≡ false)
              × (c.own_baseline ≡ true)))

  compare_baseline-none :
      (b : Baseline) (c : Comparison)
      → approved ≡ found b
      → compare_baseline src res b ≡ some c
      → c.base ≡ none
      → Unanswered c
  unfolding compare_baseline
  compare_baseline-none b c f h n = elim (Bool-cases (eqb b.scan_id res.scan_id)) [
    | inr e ↦ ground (arith, e, h, n)
    | inl e ↦
        elim (compare_previous-none (with_baseline src res (some b) true) c (ground (arith, e, h))
          n) [ inl (g, d) ↦ inr (inr (b, f, e, g, cc d, cc d)) | inr g ↦ inr (inl g) ]
  ]

  comparison_for-none :
      (c : Comparison) → comparison_for src res ≡ some c → c.base ≡ none → Unanswered c
  unfolding comparison_for
  comparison_for-none c h n = elim (Reading-cases approved) [
    | inl (b, e) ↦ compare_baseline-none b c e (ground (arith, e, h)) n
    | inr (inl e) ↦
        elim (compare_previous-none (with_baseline src res none false) c (ground (arith, e, h)) n) [
          | inl (g, d) ↦ inl (e, g, cc d, cc d)
          | inr g ↦ inr (inl g)
        ]
    | inr (inr (inl e)) ↦ ground (arith, e, h)
    | inr (inr (inr e)) ↦ ground (arith, e, h)
  ]

module _ {F : Type 0} (fl : Float F) (dm : Domains) (order : MapOrder) where
  compare-alone :
      (base : Option Result) (res : Result) (opts : Options F)
      → base ≡ none
      → ok res ≡ true
      → ((compare fl dm order base res opts).comparable ≡ false)
        × ((compare fl dm order base res opts).reason ≡ Reason.no_baseline)
  unfolding compare decide incomparable refused blank
  compare-alone (some b) res opts n h = cc n
  compare-alone none res opts n h = ground (arith, h)

  -- The reason, in the words of the report.
  abbrev pub IsExplained : ComparisonReader → Result → Report → Type 0
  IsExplained src res rep =
      ((approved src res ≡ not_found)
        × (scan_before src res ≡ not_found)
        × (rep.reason ≡ Reason.no_baseline))
      ⊎ (((scan_before src res ≡ evidence_gone) × (rep.reason ≡ Reason.evidence_gone))
          ⊎ ((b : Baseline) × (approved src res ≡ found b)
              × (eqb b.scan_id res.scan_id ≡ true)
              × (scan_before src res ≡ not_found)
              × (rep.reason ≡ Reason.first_baseline)))

  -- When a scan that can be trusted has nothing to be compared with, its report says that it is not
  -- comparable and gives a reason by what the store answered: no baseline where both the baseline of
  -- the series and the scan before were not found, lost evidence where the answer for the scan before
  -- was that its evidence is gone, and the first baseline where the scan is the approved one and the
  -- scan before was not found. A store also answers "not found" for the scan before if the earlier
  -- scans failed, if the document of the earlier one is not in the bucket yet, or if the scan itself
  -- has no row.
  pub report-IsExplained :
      (src : ComparisonReader) (res : Result) (opts : Options F) (c : Comparison)
      → comparison_for src res ≡ some c
      → c.base ≡ none
      → ok res ≡ true
      → ((report fl dm order c res opts).comparable ≡ false)
        × IsExplained src res (report fl dm order c res opts)
  unfolding report
  report-IsExplained src res opts c h n t =
      let (k, r) = compare-alone c.base res opts n t in
      elim (comparison_for-none src res c h n) [
        | inl (e, f, g, i) ↦ (ground (arith, k, g, i), inl (e, f, ground (arith, r, g, i)))
        | inr (inl (e, g)) ↦ (ground (arith, k, g), inr (inl (e, ground (arith, g))))
        | inr (inr (b, e, f, g, i, j)) ↦
            (ground (arith, k, i, j, n), inr (inr (b, e, f, g, ground (arith, i, j, n))))
      ]
