-- ===== src/Store/Baselines/History.antt =====
-- What happens to the baselines and the audit log of internal/store/baseline.go in the course of
-- time: approvals, deletions, and results that are stored or pruned.
use wsaw.Prelude.{
  ◌≡◌, refl, sym, ap, ◌∙◌, subst, inl, inr, Option-cases, List, [], ◌∷◌, ◌++◌, append_assoc, arith,
  All, ℕ, not, keep_if, some,
}
use wsaw.Prelude.Text.{Text, eqb_iff}
use wsaw.Model.Enums.{ConsentMode}
use wsaw.Model.Result.{Result}
use wsaw.Store.Baselines.{
  Reading, Row, Baseline, BaselineRow, AuditRow, Tables, Codec, found, find_row, set_baseline,
  result_by_id, approval, row_of, deletion, delete_baseline, is_baseline,
}
use wsaw.Store.Baselines.Approved.{
  IsApproved, IsDocumented, keep_if-All, upsert-All, set_baseline-found, append_audit-some,
}
use wsaw.Store.Baselines.Rows.{find_row-is}

module _ {D : Type 0} (read : Row → Reading Result) (codec : Codec D) where
  pub data Event : Tables D → Tables D → Type 0 where
    approves :
        (t t' : Tables D) (now : ℕ) (target : Text) (mode : ConsentMode) (id by note : Text)
        (b : Baseline)
        → set_baseline read codec t now target mode id by note ≡ found (t', b)
        → Event t t'
    deletes :
        (t t' : Tables D) (now : ℕ) (target : Text) (mode : ConsentMode) (actor : Text)
        → delete_baseline codec t now target mode actor ≡ some t'
        → Event t t'
    stores : (t : Tables D) (rows : List Row) → Event t (record t { rows = rows })

  pub data History : Tables D → Tables D → Type 0 where
    done : (t : Tables D) → History t t
    then : (t u v : Tables D) → History t u → Event u v → History t v

module _ {D : Type 0} (codec : Codec D) where
  -- The log has the approval of the baseline.
  abbrev pub Logged : List (AuditRow D) → Baseline → Type 0
  Logged log b =
      (entry : D) × (earlier : List (AuditRow D)) × (later : List (AuditRow D))
      × (codec.encode_entry (approval b) ≡ some entry)
      × (log ≡ earlier ++ (record { at = b.approved_at; document = entry }) ∷ later)

  -- The row holds the document of an approved baseline, which the log has.
  abbrev pub IsAuditedBy : List (AuditRow D) → BaselineRow D → Type 0
  IsAuditedBy log row =
      (b : Baseline) × (document : D) × (codec.encode_baseline b ≡ some document)
      × (row ≡ row_of b document)
      × IsApproved b
      × Logged log b

  abbrev pub IsAudited : Tables D → BaselineRow D → Type 0
  IsAudited t = IsAuditedBy t.audit

  All-audited :
      (log more : List (AuditRow D)) (rows : List (BaselineRow D))
      → All (IsAuditedBy log) rows
      → All (IsAuditedBy (log ++ more)) rows
  All-audited log more [] h = tt
  All-audited log more (row ∷ rows) h =
      let (b, d, e, r, a, (x, pre, post, y, l)) = h.0 in
      (
        (
          b,
          d,
          e,
          r,
          a,
          (
            x,
            pre,
            post ++ more,
            y,
            ap (λ k. k ++ more) l
                ∙ append_assoc pre ((record { at = b.approved_at; document = x }) ∷ post) more,
          ),
        ),
        All-audited log more rows h.1,
      )

module _ {D : Type 0} (read : Row → Reading Result) (documents : IsDocumented read)
    (codec : Codec D) where
  found-scan :
      (t : Tables D) (target : Text) (mode : ConsentMode) (id : Text) (res : Result)
      → result_by_id read t target mode id ≡ found res
      → res.scan_id ≡ id
  unfolding result_by_id
  found-scan t target mode id res h = elim (Option-cases (find_row target mode id t.rows)) [
    | inl e ↦ ground (arith, e, h)
    | inr (x, e) ↦
        documents x res (ground (arith, e, h))
        ∙ (eqb_iff x.scan_id id).0 (ground (arith, find_row-is target mode id t.rows x e))
  ]

  Event-IsAudited :
      {t u : Tables D}
      → Event read codec t u
      → All (IsAudited codec t) t.baselines
      → All (IsAudited codec u) u.baselines
  unfolding delete_baseline
  Event-IsAudited (Event.approves t u now target mode id by note b h) k =
      let (x, y, e, p, i, tg, md, v, w, s) =
        set_baseline-found codec read t u now target mode id by note b h in
      let log = (record { at = b.approved_at; document = y }) ∷ [] in
      subst (λ z. All (IsAudited codec z) z.baselines) s
        (upsert-All (IsAuditedBy codec (t.audit ++ log)) (row_of b x) t.baselines
          (
            b,
            x,
            v,
            refl,
            (p, found-scan t target mode id b.result e ∙ sym i),
            (y, t.audit, [], w, refl),
          )
          (All-audited codec t.audit log t.baselines k))
  Event-IsAudited (Event.deletes t u now target mode actor h) k =
      let kept = record t {
        baselines = keep_if (λ b. not (is_baseline target mode b)) t.baselines;
      } in
      let (x, e, s) = append_audit-some codec (deletion now target mode actor) kept u h in
      subst (λ z. All (IsAudited codec z) z.baselines) s
        (keep_if-All _ _ t.baselines (All-audited codec t.audit _ t.baselines k))
  Event-IsAudited (Event.stores t rows) k = k

  History-keep :
      {t u : Tables D}
      → History read codec t u
      → All (IsAudited codec t) t.baselines
      → All (IsAudited codec u) u.baselines
  History-keep (History.done t) k = k
  History-keep (History.then t u v cs c) k = Event-IsAudited c (History-keep cs k)

  -- Where each document is the scan of its row, every baseline of a store, whatever was approved,
  -- deleted, stored and pruned since it had none, is the document of an approval whose result is one
  -- to trust and the scan that it names, and the audit log has the document of its entry.
  pub History-IsAudited :
      (t u : Tables D)
      → t.baselines ≡ []
      → History read codec t u
      → All (IsAudited codec u) u.baselines
  History-IsAudited t u h c = History-keep c (subst (All (IsAudited codec t)) (sym h) tt)
