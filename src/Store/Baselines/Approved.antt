-- ===== src/Store/Baselines/Approved.antt =====
-- SetBaseline and DeleteBaseline of internal/store/baseline.go.
use wsaw.Prelude.{
  none, some, Option-cases, ◌≡◌, refl, ap, subst, Bool, true, false, inl, inr, List, [], ◌∷◌, arith,
  All, Bool-cases, ℕ, not, keep_if, ◌&&◌, ◌++◌,
}
use wsaw.Prelude.Text.{Text, eqb, eqb_refl, eqb_iff}
use wsaw.Model.Enums.{ConsentMode, same_mode, mode_text}
use wsaw.Model.Result.{Result, ok}
use wsaw.Store.Baselines.{
  Reading, Row, Baseline, BaselineRow, AuditEntry, Tables, Codec, found, is_baseline, find_baseline,
  upsert, decoded, get_baseline, set_baseline, result_by_id, approve, new_baseline, row_of,
  append_audit, store_baseline, approval,
}
use wsaw.Store.Baselines.Reads.{Reading-cases}

-- What encoding/json documents: what it writes of a baseline whose texts are readable (valid UTF-8)
-- it reads back.
pub record CodecLaws {D : Type 0} (codec : Codec D) : Type 0 where
  pub readable : Baseline → Bool
  pub back :
      (b : Baseline) (document : D)
      → readable b ≡ true
      → codec.encode_baseline b ≡ some document
      → codec.decode_baseline document ≡ some b

-- An approved result is one to trust, and is the scan that the baseline names.
abbrev pub IsApproved : Baseline → Type 0
IsApproved b = (ok b.result ≡ true) × (b.result.scan_id ≡ b.scan_id)

-- What a row decodes to is approved.
abbrev pub IsApprovedRow : {D : Type 0} → Codec D → BaselineRow D → Type 0
IsApprovedRow codec row =
    (b : Baseline) → codec.decode_baseline row.document ≡ some b → IsApproved b

pub find_baseline-All :
    {D : Type 0} (P : BaselineRow D → Type 0) (t : Text) (m : ConsentMode)
    (bs : List (BaselineRow D)) (b : BaselineRow D)
    → All P bs
    → find_baseline t m bs ≡ some b
    → P b
unfolding find_baseline
find_baseline-All P t m [] b h e = cc
find_baseline-All P t m (c ∷ bs) b h e = elim (Bool-cases (is_baseline t m c)) [
  | inl k ↦ let d : c ≡ b = ground (arith, e, k) in subst P d h.0
  | inr k ↦ find_baseline-All P t m bs b h.1 (ground (arith, e, k))
]

pub upsert-All :
    {D : Type 0} (P : BaselineRow D → Type 0) (b : BaselineRow D) (bs : List (BaselineRow D))
    → P b
    → All P bs
    → All P (upsert b bs)
unfolding upsert
upsert-All P b [] h k = (h, tt)
upsert-All P b (c ∷ bs) h k = elim (Bool-cases (is_baseline b.target b.mode c)) [
  | inl e ↦ rw e (h, k.1)
  | inr e ↦ rw e (k.0, upsert-All P b bs h k.1)
]

pub keep_if-All :
    {A : Type 0} (P : A → Type 0) (p : A → Bool) (xs : List A) → All P xs → All P (keep_if p xs)
unfolding keep_if
keep_if-All P p [] h = tt
keep_if-All P p (x ∷ xs) h = elim (Bool-cases (p x)) [
  | inl e ↦ rw e (h.0, keep_if-All P p xs h.1)
  | inr e ↦ rw e (keep_if-All P p xs h.1)
]

module _ {D : Type 0} where
  is_baseline_refl : (b : BaselineRow D) → is_baseline b.target b.mode b ≡ true
  is_baseline_refl b = ground (arith, eqb_refl b.target, eqb_refl (mode_text b.mode))

  -- What a series reads after an approval.
  find_baseline-upsert :
      (b : BaselineRow D) (bs : List (BaselineRow D))
      → find_baseline b.target b.mode (upsert b bs) ≡ some b
  unfolding find_baseline upsert
  find_baseline-upsert b [] = rw (is_baseline_refl b) refl
  find_baseline-upsert b (c ∷ bs) = elim (Bool-cases (is_baseline b.target b.mode c)) [
    | inl e ↦ rw (e, is_baseline_refl b) refl
    | inr e ↦ rw (e, e) (find_baseline-upsert b bs)
  ]

  -- Another series does not notice.
  is_baseline-other :
      (t : Text) (m : ConsentMode) (b c : BaselineRow D)
      → is_baseline t m b ≡ false
      → is_baseline b.target b.mode c ≡ true
      → is_baseline t m c ≡ false
  is_baseline-other t m b c h k =
      ground (arith, eqb_iff c.target b.target, eqb_iff (mode_text c.mode) (mode_text b.mode))

  upsert-other :
      (t : Text) (m : ConsentMode) (b : BaselineRow D) (bs : List (BaselineRow D))
      → is_baseline t m b ≡ false
      → find_baseline t m (upsert b bs) ≡ find_baseline t m bs
  unfolding find_baseline upsert
  upsert-other t m b [] h = rw h refl
  upsert-other t m b (c ∷ bs) h = elim (Bool-cases (is_baseline b.target b.mode c)) [
    | inl e ↦ rw (e, h, is_baseline-other t m b c h e) refl
    | inr e ↦ rw e (ground (arith, upsert-other t m b bs h))
  ]

  removed :
      (t : Text) (m : ConsentMode) (bs : List (BaselineRow D))
      → find_baseline t m (keep_if (λ b. not (is_baseline t m b)) bs) ≡ none
  unfolding find_baseline keep_if
  removed t m [] = refl
  removed t m (c ∷ bs) = elim (Bool-cases (is_baseline t m c)) [
    | inl e ↦ rw e (removed t m bs)
    | inr e ↦ rw (e, e) (removed t m bs)
  ]

-- A document is the scan of the row that names it.
abbrev pub IsDocumented : (Row → Reading Result) → Type 0
IsDocumented read = (x : Row) (r : Result) → read x ≡ found r → r.scan_id ≡ x.scan_id

module _ {D : Type 0} (codec : Codec D) where
  abbrev pub with_entry : AuditEntry → D → Tables D → Tables D
  with_entry e document t = record t {
    audit = t.audit ++ (record { at = e.at; document = document }) ∷ [];
  }

  pub append_audit-some :
      (e : AuditEntry) (t u : Tables D)
      → append_audit codec e t ≡ some u
      → (document : D) × (codec.encode_entry e ≡ some document) × (with_entry e document t ≡ u)
  unfolding append_audit
  append_audit-some e t u h = elim (Option-cases (codec.encode_entry e)) [
    | inl k ↦ ground (arith, k, h)
    | inr (d, k) ↦ (d, k, ground (arith, k, h))
  ]

  -- The tables after an approval, with the documents of the baseline and of its audit entry.
  abbrev pub stored : Baseline → D → D → Tables D → Tables D
  stored b document entry t =
      with_entry (approval b) entry
        (record t { baselines = upsert (row_of b document) t.baselines })

  store_baseline-some :
      (b : Baseline) (t u : Tables D)
      → store_baseline codec b t ≡ some u
      → (document : D) × (entry : D) × (codec.encode_baseline b ≡ some document)
        × (codec.encode_entry (approval b) ≡ some entry)
        × (stored b document entry t ≡ u)
  unfolding store_baseline
  store_baseline-some b t u h = elim (Option-cases (codec.encode_baseline b)) [
    | inl k ↦ ground (arith, k, h)
    | inr (d, k) ↦
        let (e, l, s) =
          append_audit-some (approval b) (record t { baselines = upsert (row_of b d) t.baselines })
            u (ground (arith, k, h)) in
        (d, e, k, l, s)
  ]

  module _ (read : Row → Reading Result) where
    -- What an approval has done.
    abbrev pub Approval : Tables D → Tables D → Text → ConsentMode → Text → Baseline → Type 0
    Approval t t' target mode id b =
        (document : D) × (entry : D) × (result_by_id read t target mode id ≡ found b.result)
        × (ok b.result ≡ true)
        × (b.scan_id ≡ id)
        × (b.target ≡ target)
        × (b.mode ≡ mode)
        × (codec.encode_baseline b ≡ some document)
        × (codec.encode_entry (approval b) ≡ some entry)
        × (stored b document entry t ≡ t')

    approve-found :
        (t t' : Tables D) (c b : Baseline)
        → approve read codec t c ≡ found (t', b)
        → (ok c.result ≡ true) × (c ≡ b) × (store_baseline codec c t ≡ some t')
    unfolding approve
    approve-found t t' c b h = elim (Option-cases (store_baseline codec c t)) [
      | inl k ↦ ground (arith, k, h)
      | inr (u, k) ↦ (ground (arith, h), ground (arith, k, h), ground (arith, k, h))
    ]

    approved :
        (t t' : Tables D) (now : ℕ) (target : Text) (mode : ConsentMode) (id by note : Text)
        (res : Result) (b : Baseline)
        → result_by_id read t target mode id ≡ found res
        → approve read codec t (new_baseline now target mode id by note res) ≡ found (t', b)
        → Approval t t' target mode id b
    approved t t' now target mode id by note res b e h =
        let c : Baseline = new_baseline now target mode id by note res in
        let (p, d, s) = approve-found t t' c b h in
        let (x, y, k, l, q) = store_baseline-some c t t' s in
        subst (Approval t t' target mode id) d (x, y, e, p, refl, refl, refl, k, l, q)

    pub set_baseline-found :
        (t t' : Tables D) (now : ℕ) (target : Text) (mode : ConsentMode) (id by note : Text)
        (b : Baseline)
        → set_baseline read codec t now target mode id by note ≡ found (t', b)
        → Approval t t' target mode id b
    unfolding set_baseline
    set_baseline-found t t' now target mode id by note b h =
        elim (Reading-cases (result_by_id read t target mode id)) [
          | inl (res, e) ↦ approved t t' now target mode id by note res b e (ground (arith, e, h))
          | inr (inl e) ↦ ground (arith, e, h)
          | inr (inr (inl e)) ↦ ground (arith, e, h)
          | inr (inr (inr e)) ↦ ground (arith, e, h)
        ]

    -- What a store answers after an approval.
    abbrev pub IsAnswer :
        Tables D → Text → ConsentMode → Text → Text → ConsentMode → Tables D → Baseline → Type 0
    IsAnswer t target mode id u m t' b =
        (get_baseline codec t' target mode ≡ found b)
        × (result_by_id read t target mode id ≡ found b.result)
        × (ok b.result ≡ true)
        × (get_baseline codec t' u m ≡ get_baseline codec t u m)
        × (t'.rows ≡ t.rows)
        × ((entry : D) × (codec.encode_entry (approval b) ≡ some entry)
            × (t'.audit ≡ t.audit ++ (record { at = b.approved_at; document = entry }) ∷ []))

    get_baseline-stored :
        (laws : CodecLaws codec) (t : Tables D) (b : Baseline) (document entry : D)
        → laws.readable b ≡ true
        → codec.encode_baseline b ≡ some document
        → get_baseline codec (stored b document entry t) b.target b.mode ≡ found b
    unfolding get_baseline decoded
    get_baseline-stored laws t b document entry g k =
        rw (find_baseline-upsert (row_of b document) t.baselines, decoded, laws.back b document g k)
          refl

    -- What an approval returns is the baseline that its series reads from then on, decoded from the
    -- document that was written, if its texts are readable: a copy of the stored result of that scan,
    -- which is one to trust. Another series reads what it read before, no result is touched, and the
    -- audit log has the document of the approval as its last entry.
    pub set_baseline-get :
        (laws : CodecLaws codec) (t t' : Tables D) (now : ℕ) (target : Text) (mode : ConsentMode)
        (id by note : Text) (b : Baseline) (u : Text) (m : ConsentMode)
        → laws.readable b ≡ true
        → set_baseline read codec t now target mode id by note ≡ found (t', b)
        → (eqb target u && same_mode mode m) ≡ false
        → IsAnswer t target mode id u m t' b
    unfolding get_baseline
    set_baseline-get laws t t' now target mode id by note b u m g h n =
        let (x, y, e, p, i, tg, md, k, l, s) =
          set_baseline-found t t' now target mode id by note b h in
        let away : (eqb b.target u && same_mode b.mode m) ≡ false = rw (tg, md) n in
        let after = stored b x y t in
        let mine : get_baseline codec after target mode ≡ found b =
          subst (λ z. get_baseline codec after z mode ≡ found b) tg
            (subst (λ z. get_baseline codec after b.target z ≡ found b) md
              (get_baseline-stored laws t b x y g k)) in
        subst (λ v. IsAnswer t target mode id u m v b) s
          (
            mine,
            e,
            p,
            ap (decoded codec) (upsert-other u m (row_of b x) t.baselines away),
            refl,
            (y, l, refl),
          )
