-- ===== src/Model/Result.antt =====
-- internal/model/result.go: one scan of one target in one consent mode. Float64 arithmetic is the
-- argument `fl` of the functions that use it.
use wsaw.Prelude.{
  ℕ, ◌≤◌, ◌≡◌, refl, Bool, Option, not, ◌&&◌, List, [], ◌∷◌, count_if, arith, if◌then◌else◌, ◌==◌,
}
use wsaw.Prelude.Text.{Text, is_empty}
use wsaw.Model.Enums.{
  ConsentMode, ConsentOutcome, Termination, Party, termination_truncated, is_error, is_skipped,
}
use wsaw.Model.Confidence.{Confidence}
use wsaw.Model.Request.{Request, incomplete, capture_failure, never_completed}

-- The floating-point operations that the program uses, over a type of floats.
pub record Float (F : Type 0) : Type 0 where
  -- `float64(n)`
  pub of_int : ℕ → F
  pub quotient : F → F → F
  pub product : F → F → F
  -- `a <= b`
  pub le : F → F → Bool
  -- `int(math.Round(a))`, of a float that is not negative
  pub round : F → ℕ

pub record Environment : Type 0 where
  pub chrome_version : Text
  pub browser_runtime : Text
  pub browser_image : Text
  pub browser_image_id : Text

pub record Consent : Type 0 where
  pub outcome : ConsentOutcome
  pub reason : Text
  pub cmp : Text
  pub heuristic : Bool

pub record Cookie : Type 0 where
  pub name : Text
  pub domain : Text
  pub path : Text
  pub party : Party

pub record StorageEntry : Type 0 where
  pub origin : Text
  -- `StorageArea`, a string
  pub area : Text
  pub key : Text
  pub party : Party

pub record Result : Type 0 where
  pub scan_id : Text
  pub target : Text
  pub url : Text
  pub labels : List (Text × Text)
  pub consent_mode : ConsentMode
  pub consent : Consent
  -- The stored score, absent where none was computed.
  pub confidence : Option Confidence
  pub duration : ℕ
  pub termination : Termination
  pub error : Text
  pub environment : Environment
  pub requests : List Request
  pub cookies : List Cookie
  pub storage : List StorageEntry

-- `OK`.
unfoldable pub ok : Result → Bool
ok r = is_empty r.error && (not (is_error r.termination) && not (is_skipped r.termination))

unfoldable pub truncated : Result → Bool
unfolding termination_truncated
truncated r = termination_truncated r.termination

unfoldable pub incomplete_observations : Result → ℕ
unfolding incomplete
incomplete_observations r = count_if incomplete r.requests

-- The two counters of the loop of `IncompleteRatio`.
unfoldable pub network_count : List Request → ℕ
network_count = count_if (λ q. not q.non_network)

unfoldable pub lost_count : List Request → ℕ
unfolding incomplete
lost_count = count_if (λ q. not q.non_network && incomplete q)

unfoldable pub incomplete_ratio : {F : Type 0} → Float F → Result → F
unfolding network_count lost_count
incomplete_ratio fl r =
    if network_count r.requests == 0
    then fl.of_int 0
    else fl.quotient (fl.of_int (lost_count r.requests)) (fl.of_int (network_count r.requests))

-- Only a network request can be incomplete, so both counts of lost requests agree.
pub lost-incomplete : (qs : List Request) → lost_count qs ≡ count_if incomplete qs
unfolding lost_count count_if incomplete capture_failure never_completed
lost-incomplete [] = refl
lost-incomplete (q ∷ qs) = ground (arith, lost-incomplete qs)

pub lost-le-network : (qs : List Request) → lost_count qs ≤ network_count qs
unfolding lost_count network_count count_if
lost-le-network [] = omega arith
lost-le-network (q ∷ qs) = ground (arith, lost-le-network qs)
