-- ===== src/Retry.antt =====
-- internal/retry/retry.go: whether a scan that observed nothing is attempted again, and when.
-- Durations are int64 nanoseconds, as in Prelude/Int64.antt. A number of attempts below zero is
-- treated as zero is.
pub mod Laws
use wsaw.Prelude.{
  ℕ, zero, suc, ◌+◌, ◌-◌, ◌*◌, ◌/◌, ◌%◌, Bool, true, false, ◌&&◌, Option, none, some, List, [], ◌∷◌,
  ◌++◌, if◌then◌else◌, ltb,
}
use wsaw.Prelude.Text.{Text, bytes}
use wsaw.Prelude.Hash.{fnv32a, decimal}
use wsaw.Prelude.Int64.{is_positive, signed_le, signed_lt, add64}
use wsaw.Model.Enums.{Termination}
use wsaw.Model.Result.{Result}

pub record Policy : Type 0 where
  pub attempts : ℕ
  pub backoff : ℕ
  pub max_backoff : ℕ
  pub truncated : Bool

unfoldable pub enabled : Policy → Bool
enabled p = ltb 1 p.attempts

unfoldable pub max_attempts : Policy → ℕ
max_attempts p = if ltb p.attempts 1 then 1 else p.attempts

-- No result at all is the nil pointer.
unfoldable pub retryable : Policy → Option Result → Bool
retryable p none = true
retryable p (some r) = elim r.termination [
  | Termination.error ↦ true
  | Termination.skipped ↦ false
  | Termination.timeout ↦ p.truncated
  | Termination.request_cap ↦ p.truncated
  | Termination.byte_cap ↦ p.truncated
  | Termination.idle ↦ false
  | _ ↦ false
]

unfoldable pub retry_jitter : Text → ℕ → ℕ → ℕ
retry_jitter key attempt base =
    let window = if is_positive base then base / 10 else 0 in
    if ltb 0 window then fnv32a (key ++ bytes "#" ++ decimal attempt) % window else 0

-- The loop of `Delay`, with the passes that are left.
unfoldable pub doubled : ℕ → ℕ → ℕ → ℕ
doubled zero most base = base
doubled (suc n) most base =
    let twice = base * 2 % 18446744073709551616 in
    let rest = doubled n most twice in
    if is_positive most && signed_le most twice then most else rest

-- `base` where the loop starts.
abbrev pub first_backoff : Policy → ℕ
first_backoff p = if is_positive p.backoff then p.backoff else 30000000000

-- `base` after the loop and the last test.
unfoldable pub base_delay : Policy → ℕ → ℕ
unfolding doubled
base_delay p attempt =
    let base = doubled (attempt - 2) p.max_backoff (first_backoff p) in
    if is_positive p.max_backoff && signed_lt p.max_backoff base then p.max_backoff else base

unfoldable pub delay : Policy → ℕ → Text → ℕ
unfolding base_delay retry_jitter
delay p attempt key =
    if ltb attempt 2
    then 0
    else add64 (base_delay p attempt) (retry_jitter key attempt (base_delay p attempt))

-- The loop of `TotalDelay` from an attempt, with the passes that are left.
unfoldable pub total_from : Policy → Text → ℕ → ℕ → ℕ → ℕ
unfolding delay
total_from p key zero attempt total = total
total_from p key (suc n) attempt total =
    total_from p key n (suc attempt) (add64 total (delay p attempt key))

unfoldable pub total_delay : Policy → Text → ℕ
unfolding total_from
total_delay p key = total_from p key (max_attempts p - 1) 2 0
