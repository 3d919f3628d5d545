-- ===== src/Diff/Severity.antt =====
-- The severities of a report of internal/diff/diff.go.
use wsaw.Prelude.{
  ℕ, ◌<◌, ◌≡◌, refl, inl, inr, Bool, ◌||◌, List, [], ◌∷◌, arith, any, leb, ltb, if◌then◌else◌,
  Bool-cases, keep_if,
}
use wsaw.Diff.Change.{
  Severity, Change, ChangeType, Report, rank, at_least, max_severity, max_severity_from,
  max_severity_of, max_severity_of_from, has_findings_at_least, same_type,
}

-- Whether some change of a list is at least as severe as a rank.
reaches : ℕ → List Change → Bool
reaches n cs = any (λ c. leb n (rank c.severity)) cs

max_from-reaches :
    (n : ℕ) (s : Severity) (cs : List Change)
    → leb n (rank (max_severity_from s cs)) ≡ (leb n (rank s) || reaches n cs)
unfolding max_severity_from reaches any
max_from-reaches n s [] = ground arith
max_from-reaches n s (c ∷ cs) =
    ground (arith, max_from-reaches n (if ltb (rank s) (rank c.severity) then c.severity else s) cs)

-- A report has findings at or above a threshold above `info` exactly when its maximum severity is
-- at or above the threshold.
pub has_findings-max_severity :
    (r : Report) (threshold : Severity)
    → 0 < rank threshold
    → has_findings_at_least r threshold ≡ at_least (max_severity r) threshold
unfolding has_findings_at_least at_least max_severity reaches rank
has_findings-max_severity r threshold h =
    ground (arith, max_from-reaches (rank threshold) Severity.info r.changes)

-- The maximum over some types of change is the maximum of the report with the others left out.
of_from-keep :
    (types : List ChangeType) (s : Severity) (cs : List Change)
    → max_severity_of_from types s cs
      ≡ max_severity_from s (keep_if (λ c. any (same_type c.type) types) cs)
unfolding max_severity_of_from max_severity_from keep_if
of_from-keep types s [] = refl
of_from-keep types s (c ∷ cs) = elim (Bool-cases (any (same_type c.type) types)) [
  | inl e ↦
      rw (e) (of_from-keep types (if ltb (rank s) (rank c.severity) then c.severity else s) cs)
  | inr e ↦ rw (e) (of_from-keep types s cs)
]

-- `MaxSeverityOf` is `MaxSeverity` of the report that keeps the changes of the given types only.
pub max_severity_of-keep_if :
    (r : Report) (types : List ChangeType)
    → max_severity_of r types
      ≡ max_severity (record r { changes = keep_if (λ c. any (same_type c.type) types) r.changes })
unfolding max_severity_of max_severity
max_severity_of-keep_if r types = of_from-keep types Severity.info r.changes
