-- ===== src/Daemon.antt =====
-- internal/daemon/daemon.go: what starting, finishing and reloading do to the job of one key. The
-- workers, the clock and the lock are left out: each function is what one goroutine does while it
-- holds the lock once, and Daemon/Steps.antt interleaves them.
pub mod Steps
pub mod Spacing
pub mod Attempts
use wsaw.Prelude.{
  ℕ, ◌+◌, Bool, true, false, not, ◌&&◌, ◌||◌, Option, none, some, List, [], ◌∷◌, ◌++◌,
  if◌then◌else◌, ltb, leb,
}
use wsaw.Prelude.Text.{Text, bytes, is_empty}
use wsaw.Model.Enums.{termination_text}
use wsaw.Model.Result.{Result}
use wsaw.Retry.{Policy, retryable, max_attempts, delay}
use wsaw.Schedule.{Cron, Job, key, advance, schedule_retry, carry_over, reset_retries}

pub record StartedRun (B : Type 0) : Type 0 where
  pub attempt : ℕ
  pub previous : Text
  pub bodies : Option B

-- `scanner.Outcome` and the error of a scan: the result, the sampling decision it records, and the
-- text of the error.
pub record Outcome (B : Type 0) : Type 0 where
  pub result : Option Result
  pub body_capture : Option B
  pub error : Option Text

unfoldable pub retry_reason : {B : Type 0} → Outcome B → Text
retry_reason out = elim out.result [
  | none ↦ elim out.error [ none ↦ bytes "the scan produced no result" | some e ↦ e ]
  | some r ↦
      if is_empty r.error
      then termination_text r.termination
      else termination_text r.termination ++ bytes ": " ++ r.error
]

module _ {S B : Type 0} (cron : Cron S) where
  -- `markStarted`: the job afterwards, and the run.
  unfoldable pub mark_started : Job S B → ℕ → Job S B × StartedRun B
  unfolding advance
  mark_started j now =
      let moved = advance cron (record j { last_run = now }) now in
      let attempt = if ltb j.attempt 1 then 1 else j.attempt in
      (
        record moved { retrying = false; attempt = attempt },
        record {
          attempt = attempt;
          previous = j.prev_error;
          bodies = if ltb 1 attempt then j.bodies else none;
        },
      )

  -- `retryPolicy` of the job that the scheduler runs now, if any.
  unfoldable pub retry_policy : Option (Job S B) → Option Policy
  retry_policy none = none
  retry_policy (some j) = some j.target.retry

  unfoldable pub finish_retries : Option (Job S B) → Option (Job S B)
  unfolding reset_retries
  finish_retries none = none
  finish_retries (some j) = some (reset_retries cron j)

  -- `Daemon.scheduleRetry`: the job afterwards, and whether there is one. `next` is the attempt whose
  -- delay the policy gives, and `now` the time at which the retry is queued.
  unfoldable pub queue_retry :
      Policy → ℕ → Outcome B → ℕ → Option (Job S B) → Option (Job S B) × Bool
  unfolding schedule_retry retry_reason delay
  queue_retry policy next out now none = (none, false)
  queue_retry policy next out now (some j) = (
    some (
        schedule_retry cron j now (delay policy next (key cron j)) (retry_reason out)
          (elim out.result [ none ↦ none | some r ↦ out.body_capture ])),
    true,
  )

  -- `considerRetry` after it has read the policy: what it decides needs no lock, and the job is the
  -- one that the scheduler runs when it then takes the lock. `cancelled` is `ctx.Err() != nil`.
  -- Whether a retry was queued comes second.
  unfoldable pub consider_retry :
      Policy → Option (Job S B) → Outcome B → ℕ → Bool → ℕ → Option (Job S B) × Bool
  unfolding finish_retries queue_retry
  consider_retry policy job out attempt cancelled now =
      if not (retryable policy out.result)
      then (finish_retries job, false)
      else if leb (max_attempts policy) attempt
      then (finish_retries job, false)
      else if cancelled
      then (finish_retries job, false)
      else queue_retry policy (attempt + 1) out now job

  -- `applyReload` for the key: the rebuilt job takes over from the one it replaces.
  unfoldable pub reloaded : Option (Job S B) → Option (Job S B) → Option (Job S B)
  unfolding carry_over
  reloaded previous none = none
  reloaded none (some j) = some j
  reloaded (some prev) (some j) = some (carry_over cron j prev)
