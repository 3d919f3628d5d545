-- ===== src/Store/Comparison/Other.antt =====
-- ComparisonFor of internal/store/compare.go over the store: what a scan is compared with.
use mathlib.Core.Bool.{false≢true}
use wsaw.Prelude.{
  ◌≡◌, refl, sym, ap, ◌∙◌, subst, inl, inr, Bool, true, false, ◌||◌, none, some, Option-cases, List,
  [], ◌∷◌, arith, All, Bool-cases, keep_if,
}
use wsaw.Prelude.Text.{Text, eqb, eqb_iff}
use wsaw.Model.Enums.{ConsentMode, is_error, is_skipped}
use wsaw.Model.Result.{Result}
use wsaw.Store.Baselines.{
  Reading, Row, Baseline, Codec, Tables, decoded, find_baseline, found, is_row, in_series, earlier,
  find_row, is_before, previous_row, previous_result, get_baseline,
}
use wsaw.Store.Baselines.Approved.{IsApproved, IsApprovedRow, IsDocumented, find_baseline-All}
use wsaw.Store.Baselines.Rows.{IsKeyed, find_row-one, newest-All, earlier_irrefl}
use wsaw.Store.Baselines.Reads.{Reading-cases}
use wsaw.Store.Comparison.{
  Comparison, reader_of, compare_previous, compare_baseline, comparison_for, with_baseline,
}

-- What a row that was selected has passed.
kept-All :
    {A : Type 0} (P : A → Type 0) (p : A → Bool) (xs : List A)
    → All P xs
    → All (λ x. (p x ≡ true) × P x) (keep_if p xs)
unfolding keep_if
kept-All P p [] h = tt
kept-All P p (x ∷ xs) h = elim (Bool-cases (p x)) [
  | inl e ↦ rw e ((e, h.0), kept-All P p xs h.1)
  | inr e ↦ rw e (kept-All P p xs h.1)
]

module _ {D : Type 0} (t : Tables D) (keyed : IsKeyed t.rows) where
  not_itself :
      (target : Text) (mode : ConsentMode) (id : Text) (a x : Row)
      → find_row target mode id t.rows ≡ some a
      → is_before target mode a x ≡ true
      → (is_row target mode id x ≡ true → x ≡ a)
      → x.scan_id ≡ id
      → ⊥
  not_itself target mode id a x e b one s =
      let d : x ≡ a = one (ground (arith, b, eqb_iff x.scan_id id, s)) in
      false≢true (sym (earlier_irrefl a) ∙ subst (λ r. earlier r a ≡ true) d (ground (arith, b)))

  -- The row before a scan is another scan of its series, and one that ended well.
  previous_row-other :
      (target : Text) (mode : ConsentMode) (id : Text) (x : Row)
      → previous_row target mode id t.rows ≡ some x
      → (x.scan_id ≡ id → ⊥)
        × (in_series target mode x ≡ true)
        × ((is_error x.termination || is_skipped x.termination) ≡ false)
  unfolding previous_row
  previous_row-other target mode id x h = elim (Option-cases (find_row target mode id t.rows)) [
    | inl e ↦ ground (arith, e, h)
    | inr (a, e) ↦
        let (b, one) =
          newest-All _ _ x
            (kept-All _ (is_before target mode a) t.rows
              (find_row-one target mode id t.rows a keyed e))
            (ground (arith, e, h)) in
        (not_itself target mode id a x e b one, ground (arith, b), ground (arith, b))
  ]

  module _ (read : Row → Reading Result) (documents : IsDocumented read) (codec : Codec D)
      (res : Result) where
    before-other :
        (prev : Result)
        → previous_result read t res.target res.consent_mode res.scan_id ≡ found prev
        → prev.scan_id ≡ res.scan_id
        → ⊥
    unfolding previous_result
    before-other prev h s =
        elim (Option-cases (previous_row res.target res.consent_mode res.scan_id t.rows)) [
          | inl e ↦ ground (arith, e, h)
          | inr (x, e) ↦
              (previous_row-other res.target res.consent_mode res.scan_id x e).0
                (sym (documents x prev (ground (arith, e, h))) ∙ s)
        ]

    compare_previous-other :
        (c d : Comparison) (base : Result)
        → compare_previous (reader_of read codec t) res c ≡ some d
        → c.base ≡ none
        → d.base ≡ some base
        → base.scan_id ≡ res.scan_id
        → ⊥
    unfolding compare_previous
    compare_previous-other c d base h n m s =
        elim (Reading-cases (previous_result read t res.target res.consent_mode res.scan_id)) [
          | inl (r, e) ↦
              let k : r ≡ base = ground (arith, e, h, m) in
              before-other r e (ap (λ r. r.scan_id) k ∙ s)
          | inr (inl e) ↦ ground (arith, e, h, n, m)
          | inr (inr (inl e)) ↦ ground (arith, e, h, n, m)
          | inr (inr (inr e)) ↦ ground (arith, e, h)
        ]

    compare_baseline-other :
        (b : Baseline) (c : Comparison) (base : Result)
        → IsApproved b
        → compare_baseline (reader_of read codec t) res b ≡ some c
        → c.base ≡ some base
        → base.scan_id ≡ res.scan_id
        → ⊥
    unfolding compare_baseline
    compare_baseline-other b c base a h m s = elim (Bool-cases (eqb b.scan_id res.scan_id)) [
      | inl e ↦
          compare_previous-other (with_baseline (reader_of read codec t) res (some b) true) c base
            (ground (arith, e, h)) refl m s
      | inr e ↦
          let k : b.result ≡ base = ground (arith, e, h, m) in
          false≢true
            (sym e ∙ (eqb_iff b.scan_id res.scan_id).1 (sym a.1 ∙ ap (λ r. r.scan_id) k ∙ s))
    ]

    get_baseline-IsApproved :
        (b : Baseline)
        → All (IsApprovedRow codec) t.baselines
        → get_baseline codec t res.target res.consent_mode ≡ found b
        → IsApproved b
    unfolding get_baseline decoded
    get_baseline-IsApproved b a h =
        elim (Option-cases (find_baseline res.target res.consent_mode t.baselines)) [
          | inl e ↦ ground (arith, e, h)
          | inr (row, e) ↦ elim (Option-cases (codec.decode_baseline row.document)) [
            | inl f ↦ ground (arith, e, f, h)
            | inr (c, f) ↦
                let d : c ≡ b = ground (arith, e, f, h) in
                subst IsApproved d (
                  find_baseline-All (IsApprovedRow codec) res.target res.consent_mode t.baselines
                    row a e c f)
          ]
        ]

    -- In a store whose results have one row of each scan of a series, whose documents are the scans
    -- of their rows and whose baselines, as they decode, hold the scans that they name, a scan is
    -- never compared with itself: not as its own baseline, and not as the scan before it.
    pub comparison_for-other :
        (c : Comparison) (base : Result)
        → All (IsApprovedRow codec) t.baselines
        → comparison_for (reader_of read codec t) res ≡ some c
        → c.base ≡ some base
        → ¬ (base.scan_id ≡ res.scan_id)
    unfolding comparison_for
    comparison_for-other c base a h m s =
        elim (Reading-cases (get_baseline codec t res.target res.consent_mode)) [
          | inl (b, e) ↦
              compare_baseline-other b c base (get_baseline-IsApproved b a e) (ground (arith, e, h))
                m s
          | inr (inl e) ↦
              compare_previous-other (with_baseline (reader_of read codec t) res none false) c base
                (ground (arith, e, h)) refl m s
          | inr (inr (inl e)) ↦ ground (arith, e, h)
          | inr (inr (inr e)) ↦ ground (arith, e, h)
        ]
