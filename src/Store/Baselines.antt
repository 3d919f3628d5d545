-- ===== src/Store/Baselines.antt =====
-- internal/store/baseline.go and the readers of store.go that comparisons ask: results of a series,
-- its approved baseline, and the audit log. What readDocument makes of a row is a parameter, and so is
-- the JSON of a baseline and of an audit entry.
pub mod Approved
pub mod History
pub mod Reads
pub mod Rows
use wsaw.Prelude.{
  is_some, ℕ, Bool, true, false, not, ◌&&◌, ◌||◌, Option, none, some, List, [], ◌∷◌, ◌++◌, ltb,
  ◌==◌, if◌then◌else◌, keep_if,
}
use wsaw.Prelude.Text.{Text, bytes, eqb, less}
use wsaw.Model.Enums.{ConsentMode, same_mode, Termination, is_error, is_skipped}
use wsaw.Model.Result.{Result, ok}

-- A value, or the errors that callers tell apart: ErrNotFound, ErrEvidenceGone and the others.
pub data Reading {ℓ} (A : Type ℓ) : Type ℓ where
  found : A → Reading A
  not_found evidence_gone failed : Reading A

pub record Row : Type 0 where
  pub target : Text
  pub mode : ConsentMode
  pub scan_id : Text
  pub started_at : ℕ
  pub termination : Termination

pub record Baseline : Type 0 where
  pub target : Text
  pub mode : ConsentMode
  pub scan_id : Text
  pub approved_at : ℕ
  pub approved_by : Text
  pub note : Text
  pub result : Result

pub record AuditEntry : Type 0 where
  pub at : ℕ
  pub actor : Text
  pub action : Text
  pub target : Text
  pub mode : ConsentMode
  pub subject : Text
  pub note : Text

-- json.Marshal and json.Unmarshal of what the two columns `document` hold; no value is an error.
pub record Codec (D : Type 0) : Type 0 where
  pub encode_baseline : Baseline → Option D
  pub decode_baseline : D → Option Baseline
  pub encode_entry : AuditEntry → Option D

pub record BaselineRow (D : Type 0) : Type 0 where
  pub target : Text
  pub mode : ConsentMode
  pub scan_id : Text
  pub approved_at : ℕ
  pub document : D

pub record AuditRow (D : Type 0) : Type 0 where
  pub at : ℕ
  pub document : D

pub record Tables (D : Type 0) : Type 0 where
  pub rows : List Row
  pub baselines : List (BaselineRow D)
  pub audit : List (AuditRow D)

abbrev pub in_series : Text → ConsentMode → Row → Bool
in_series target mode x = eqb x.target target && same_mode x.mode mode

abbrev pub is_row : Text → ConsentMode → Text → Row → Bool
is_row target mode scan_id x = in_series target mode x && eqb x.scan_id scan_id

-- `(a.started_at, a.scan_id) < (b.started_at, b.scan_id)`
abbrev pub earlier : Row → Row → Bool
earlier a b =
    ltb a.started_at b.started_at || (a.started_at == b.started_at && less a.scan_id b.scan_id)

unfoldable pub find_row : Text → ConsentMode → Text → List Row → Option Row
find_row target mode scan_id [] = none
find_row target mode scan_id (x ∷ xs) =
    if is_row target mode scan_id x then some x else find_row target mode scan_id xs

-- `order by started_at desc, scan_id desc limit 1`
unfoldable pub newest : List Row → Option Row
newest [] = none
newest (x ∷ xs) = elim (newest xs) [
  | none ↦ some x
  | some y ↦ if earlier x y then some y else some x
]

abbrev pub is_before : Text → ConsentMode → Row → Row → Bool
is_before target mode anchor x =
    in_series target mode x
    && not (is_error x.termination || is_skipped x.termination)
    && earlier x anchor

-- The row that `PreviousResult` selects; nothing is before a scan that has no row.
unfoldable pub previous_row : Text → ConsentMode → Text → List Row → Option Row
previous_row target mode scan_id rows = elim (find_row target mode scan_id rows) [
  | none ↦ none
  | some anchor ↦ newest (keep_if (is_before target mode anchor) rows)
]

abbrev pub approval : Baseline → AuditEntry
approval b = record {
  at = b.approved_at;
  actor = b.approved_by;
  action = bytes "baseline-approved";
  target = b.target;
  mode = b.mode;
  subject = b.scan_id;
  note = b.note;
}

abbrev pub new_baseline : ℕ → Text → ConsentMode → Text → Text → Text → Result → Baseline
new_baseline now target mode scan_id approved_by note res = record {
  target = target;
  mode = mode;
  scan_id = scan_id;
  approved_at = now;
  approved_by = approved_by;
  note = note;
  result = res;
}

abbrev pub deletion : ℕ → Text → ConsentMode → Text → AuditEntry
deletion now target mode actor = record {
  at = now;
  actor = actor;
  action = bytes "baseline-deleted";
  target = target;
  mode = mode;
  subject = [];
  note = [];
}

abbrev pub is_baseline : {D : Type 0} → Text → ConsentMode → BaselineRow D → Bool
is_baseline target mode b = eqb b.target target && same_mode b.mode mode

unfoldable pub find_baseline :
    {D : Type 0} → Text → ConsentMode → List (BaselineRow D) → Option (BaselineRow D)
find_baseline target mode [] = none
find_baseline target mode (b ∷ bs) =
    if is_baseline target mode b then some b else find_baseline target mode bs

-- The row of the series is written over, or a row is added.
unfoldable pub upsert : {D : Type 0} → BaselineRow D → List (BaselineRow D) → List (BaselineRow D)
upsert b [] = b ∷ []
upsert b (c ∷ bs) = if is_baseline b.target b.mode c then b ∷ bs else c ∷ upsert b bs

unfoldable pub has_baseline : {D : Type 0} → Tables D → Text → ConsentMode → Bool
has_baseline t target mode = is_some (find_baseline target mode t.baselines)

abbrev pub row_of : {D : Type 0} → Baseline → D → BaselineRow D
row_of b document = record {
  target = b.target;
  mode = b.mode;
  scan_id = b.scan_id;
  approved_at = b.approved_at;
  document = document;
}

module _ {D : Type 0} (codec : Codec D) where
  -- The document of the row, as it decodes.
  unfoldable pub decoded : Option (BaselineRow D) → Reading Baseline
  decoded none = not_found
  decoded (some row) = elim (codec.decode_baseline row.document) [
    | none ↦ failed
    | some b ↦ found b
  ]

  unfoldable pub get_baseline : Tables D → Text → ConsentMode → Reading Baseline
  get_baseline t target mode = decoded (find_baseline target mode t.baselines)

  -- `appendAuditTx`; an error rolls the transaction back.
  unfoldable pub append_audit : AuditEntry → Tables D → Option (Tables D)
  append_audit e t = elim (codec.encode_entry e) [
    | none ↦ none
    | some document ↦
        some (record t { audit = t.audit ++ (record { at = e.at; document = document }) ∷ [] })
  ]

  -- The approval and its audit entry are one transaction.
  unfoldable pub store_baseline : Baseline → Tables D → Option (Tables D)
  unfolding append_audit
  store_baseline b t = elim (codec.encode_baseline b) [
    | none ↦ none
    | some document ↦
        append_audit (approval b) (record t { baselines = upsert (row_of b document) t.baselines })
  ]

  unfoldable pub delete_baseline : Tables D → ℕ → Text → ConsentMode → Text → Option (Tables D)
  unfolding append_audit
  delete_baseline t now target mode actor =
      append_audit (deletion now target mode actor)
        (record t { baselines = keep_if (λ b. not (is_baseline target mode b)) t.baselines })

module _ (read : Row → Reading Result) where
  -- `queryResult`, with the ErrNotFound that its callers make of no row.
  abbrev pub query_result : Option Row → Reading Result
  query_result none = not_found
  query_result (some x) = read x

module _ {D : Type 0} (read : Row → Reading Result) where
  unfoldable pub result_by_id : Tables D → Text → ConsentMode → Text → Reading Result
  result_by_id t target mode scan_id = query_result read (find_row target mode scan_id t.rows)

  unfoldable pub latest_result : Tables D → Text → ConsentMode → Reading Result
  latest_result t target mode = query_result read (newest (keep_if (in_series target mode) t.rows))

  unfoldable pub previous_result : Tables D → Text → ConsentMode → Text → Reading Result
  previous_result t target mode scan_id =
      query_result read (previous_row target mode scan_id t.rows)

  module _ (codec : Codec D) where
    -- A result that is not trustworthy is no baseline, and neither is one that does not encode:
    -- `failed`.
    unfoldable pub approve : Tables D → Baseline → Reading (Tables D × Baseline)
    unfolding ok store_baseline
    approve t b =
        if ok b.result
        then elim (store_baseline codec b t) [ none ↦ failed | some t' ↦ found (t', b) ]
        else failed

    unfoldable pub set_baseline :
        Tables D → ℕ → Text → ConsentMode → Text → Text → Text → Reading (Tables D × Baseline)
    set_baseline t now target mode scan_id approved_by note =
        elim (result_by_id t target mode scan_id) [
          | found res ↦ approve t (new_baseline now target mode scan_id approved_by note res)
          | not_found ↦ not_found
          | evidence_gone ↦ evidence_gone
          | failed ↦ failed
        ]
