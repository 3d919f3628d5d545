-- ===== src/Store/Index.antt =====
-- The index of internal/store as retention reads and writes it: results, baselines, references and
-- claims (references.go, claims.go), with what the statements of those files ask of it.
pub mod Rising
pub mod Above
use wsaw.Prelude.{
  ℕ, ◌+◌, ◌≡◌, Bool, true, false, not, ◌&&◌, ◌||◌, Option, none, some, List, [], ◌∷◌, map, ltb, leb,
  ◌==◌, if◌then◌else◌, is_some, length, take, keep_if, any, count_if,
}
use wsaw.Prelude.Text.{Text, bytes, eqb, less}
use wsaw.Prelude.Assoc.{lookup, delete, contains, set}
use wsaw.Model.Enums.{Termination}

-- What names a result or a baseline.
pub record Owner : Type 0 where
  pub target : Text
  pub mode : Text
  pub scan_id : Text

pub record ResultRow : Type 0 where
  pub owner : Owner
  pub started_at : ℕ
  pub termination : Termination
  pub refs_recorded : Bool

pub record RefRow : Type 0 where
  pub owner : Owner
  pub artifact_ref : Text
  pub size : ℕ

-- Claims and sizes are keyed by the reference of an artifact.
pub record Index : Type 0 where
  pub results : List ResultRow
  pub baselines : List Owner
  pub refs : List RefRow
  pub claims : List (Text × ℕ)
  pub sizes : List (Text × ℕ)

abbrev pub same_owner : Owner → Owner → Bool
same_owner a b = eqb a.target b.target && eqb a.mode b.mode && eqb a.scan_id b.scan_id

-- `liveOwners`: a result or a baseline of that name is there.
unfoldable pub is_live : Index → Owner → Bool
is_live ix o = any (λ r. same_owner o r.owner) ix.results || any (same_owner o) ix.baselines

-- A strictly rising list of texts, which `group by` and `order by` make of a column.
unfoldable pub insert_text : Text → List Text → List Text
insert_text s [] = s ∷ []
insert_text s (t ∷ ts) =
    let rest = insert_text s ts in
    if less s t then s ∷ t ∷ ts else if less t s then t ∷ rest else t ∷ ts

unfoldable pub rising : List Text → List Text
rising [] = []
rising (s ∷ ss) = insert_text s (rising ss)

abbrev pub is_dangling : Index → Text → RefRow → Bool
is_dangling ix after row = less after row.artifact_ref && not (is_live ix row.owner)

-- `danglingRefsQuery` without its limit: the references past a text that have a row whose owner
-- is gone.
unfoldable pub dangling : Index → Text → List Text
dangling ix after = rising (map (λ r. r.artifact_ref) (keep_if (is_dangling ix after) ix.refs))

abbrev pub names_live : Index → Text → RefRow → Bool
names_live ix ref row = eqb row.artifact_ref ref && is_live ix row.owner

unfoldable pub still_named : Index → Text → Bool
still_named ix ref = any (names_live ix ref) ix.refs

pub record DanglingRef : Type 0 where
  pub ref : Text
  pub named : Bool

abbrev pub page_size : ℕ
page_size = 256

abbrev pub dangling_ref : Index → Text → DanglingRef
dangling_ref ix ref = record { ref = ref; named = still_named ix ref }

unfoldable pub dangling_refs : Index → Text → List DanglingRef
dangling_refs ix after = map (dangling_ref ix) (take page_size (dangling ix after))

-- `dropDanglingRefRows`: the rows of a reference whose owners are gone.
abbrev pub outlives : Index → Text → RefRow → Bool
outlives ix ref row = not (eqb row.artifact_ref ref) || is_live ix row.owner

unfoldable pub forget_ref : Text → Index → Index
forget_ref ref ix = record ix { refs = keep_if (outlives ix ref) ix.refs }

-- `claimedSince`, asked of one reference. The moment is `now - grace`.
unfoldable pub claimed_since : Index → ℕ → ℕ → Text → Bool
claimed_since ix now grace ref = elim (lookup ref ix.claims) [
  | none ↦ false
  | some at ↦ leb now (at + grace)
]

-- `referencedRefs`, asked of one reference.
unfoldable pub referenced : Index → Text → Bool
referenced ix ref = any (λ row. eqb row.artifact_ref ref) ix.refs

unfoldable pub results_with_unknown_refs : Index → ℕ
results_with_unknown_refs ix = count_if (λ r. not r.refs_recorded) ix.results

unfoldable pub claim_artifact : Text → ℕ → Index → Index
claim_artifact ref at ix = record ix { claims = set ref at ix.claims }

unfoldable pub release_claims : List Text → Index → Index
release_claims refs ix = record ix { claims = keep_if (λ c. not (any (eqb c.0) refs)) ix.claims }

-- `forgetStaleClaims` before the moment `now - grace`.
unfoldable pub forget_stale_claims : ℕ → ℕ → Index → Index
forget_stale_claims now grace ix = record ix {
  claims = keep_if (λ c. leb now (c.1 + grace)) ix.claims;
}

unfoldable pub forget_artifact_size : Text → Index → Index
forget_artifact_size ref ix = record ix { sizes = delete ref ix.sizes }

-- `unreferencedArtifactGrace`, 24 hours in nanoseconds.
abbrev pub grace_period : ℕ
grace_period = 86_400_000_000_000
