-- ===== src/Examples/Daemon.antt =====
-- The scheduler of internal/daemon on one target.
use wsaw.Prelude.{
  ◌==◌, ◌&&◌, not, ℕ, ◌+◌, ◌-◌, ◌*◌, ◌/◌, ◌^◌, ◌≤◌, ◌<◌, ◌≡◌, inr, refl, true, false, none, some,
  [], ◌∷◌, ◌++◌, arith, min, All, ltb,
}
use wsaw.Prelude.Text.{Text, bytes}
use wsaw.Prelude.Assoc
use wsaw.Model.Enums.{ConsentMode, Termination}
use wsaw.Model.Result.{Result}
use wsaw.Retry.{Policy, first_backoff, delay, max_attempts}
use wsaw.Retry.Laws.{InRange, delay-bounds}
use wsaw.Schedule.{Cron, Target, Job, due_at, advance}
use wsaw.Limiter.{Limiter, new_limiter, try_acquire}
use wsaw.Limiter.Laws.{Runs, holders, entry, limiter-bounds}
use wsaw.Daemon.{Outcome, mark_started, retry_policy, finish_retries}
use wsaw.Daemon.Steps.{Start, Life, Step, Steps, check, start, finish, idle}
use wsaw.Daemon.Spacing.{Spaced, Steps-Spaced}
use wsaw.Daemon.Attempts.{IsAttempt, Counts, Steps-Attempts}
use wsaw.Examples.Scans.{later}

abbrev policy : Policy
policy = record {
  attempts = 3;
  backoff = 30000000000;
  max_backoff = 600000000000;
  truncated = false;
}

abbrev failed : Result
failed = record later { termination = Termination.error }

in_range : InRange policy
in_range = (omega arith, omega arith, omega arith)

abbrev base : ℕ
base = min (first_backoff policy * 2 ^ (3 - 2)) policy.max_backoff

delay-bounds_example :
    (base ≤ delay policy 3 (bytes "shop/reject"))
    × (delay policy 3 (bytes "shop/reject") ≤ base + base / 10)
delay-bounds_example = delay-bounds policy 3 (bytes "shop/reject") in_range (omega arith)

fits :
    (max_attempts policy - 1) * (policy.max_backoff + policy.max_backoff / 10) < 9223372036854775808
unfolding max_attempts
fits = omega arith

-- A cron library that takes every text for an hourly schedule.
abbrev hourly : Cron ℕ
hourly = record { parse = λ t. inr 3600000000000; next = λ s now. now + s }

abbrev shop : Target
shop = record {
  name = bytes "shop";
  consent_modes = ConsentMode.reject ∷ ConsentMode.accept ∷ [];
  interval = 86400000000000;
  cron = [];
  jitter = 0;
  min_interval = 3600000000000;
  retry = policy;
}

abbrev now : ℕ
now = 1000000000000000

abbrev job : Job ℕ Text
job = record {
  target = shop;
  mode = ConsentMode.reject;
  interval = 86400000000000;
  schedule = none;
  next = now;
  last_run = 0;
  attempt = 1;
  prev_error = [];
  bodies = none;
  retrying = false;
}

abbrev one_slot : Limiter
one_slot = (try_acquire (new_limiter 1) (bytes "a.de")).0

taken : (try_acquire (new_limiter 1) (bytes "a.de")).1 ≡ true
unfolding try_acquire new_limiter Assoc.lookup
taken = refl

limiter-bounds_example :
    (holders (bytes "a.de") (bytes "a.de" ∷ []) ≤ one_slot.limit)
    × (Assoc.lookup (bytes "a.de") one_slot.in_use
        ≡ entry (holders (bytes "a.de") (bytes "a.de" ∷ [])))
    × ((try_acquire one_slot (bytes "a.de")).1
        ≡ ltb (holders (bytes "a.de") (bytes "a.de" ∷ [])) one_slot.limit)
limiter-bounds_example =
    limiter-bounds one_slot (bytes "a.de" ∷ []) (bytes "a.de")
      (Runs.acquires (new_limiter 1) [] (bytes "a.de") (Runs.new 1) taken)

abbrev begun : Life ℕ Text
begun = idle (some job)

abbrev found : Life ℕ Text
found = check hourly job now begun

abbrev first : Start
first = record { at = now; retry = false; floor = 3600000000000 }

abbrev running : Life ℕ Text
running = start hourly job first found

due : due_at hourly job now ≡ true
unfolding due_at
due = refl

abbrev outcome : Outcome Text
outcome = record { result = some failed; body_capture = none; error = none }

-- The run that has read its policy.
abbrev asked : Life ℕ Text
asked = record running {
  running = [] ++ (record { attempt = 1; policy = retry_policy hourly running.job }) ∷ [];
}

abbrev retried : Life ℕ Text
retried = finish hourly policy outcome 1 false (now + 1000) [] [] asked

run_once : running.running ≡ [] ++ (record { attempt = 1; policy = none }) ∷ []
unfolding start mark_started check
run_once = refl

asked_once : asked.running ≡ [] ++ (record { attempt = 1; policy = some policy }) ∷ []
unfolding start mark_started retry_policy advance
asked_once = refl

found_first : found.found ≡ some first
unfolding check
found_first = refl

found_job : found.job ≡ some job
unfolding check
found_job = refl

abbrev steps : Steps hourly begun retried
steps =
    Steps.then begun asked retried
      (Steps.then begun running asked
        (Steps.then begun found running
          (Steps.then begun begun found (Steps.done begun)
            (Step.checks begun job now refl refl due))
          (Step.starts found job first found_job found_first))
        (Step.asks running (record { attempt = 1; policy = none }) [] [] run_once))
      (Step.finishes asked policy outcome 1 false (now + 1000) [] [] asked_once)

Steps-Spaced_example : Spaced retried.starts
Steps-Spaced_example = Steps-Spaced hourly (some job) retried steps

none_on : found.running ≡ []
unfolding check
none_on = refl

Steps-Attempts_example :
    All (λ r. IsAttempt policy r.attempt) retried.running
    × Counts hourly policy retried.job retried.running
Steps-Attempts_example =
    Steps-Attempts hourly policy job retried refl refl steps (((((tt, tt), none_on), tt)), tt)

-- A job that waits for its second attempt, an hour too early for a first one.
abbrev waiting : Job ℕ Text
waiting = record job { attempt = 2; retrying = true; last_run = now - 1000 }

-- Found due as a retry, and made a first attempt by a run that ends before it starts.
reset_retry :
    (due_at hourly waiting now ≡ true)
    × (elim (finish_retries hourly (some waiting)) [
      | none ↦ false
      | some j ↦ (mark_started hourly j now).1.attempt == 1 && not (due_at hourly j now)
    ]
        ≡ true)
unfolding due_at finish_retries mark_started
reset_retry = (refl, refl)

started_due : due_at hourly (mark_started hourly job now).0 (now + 90000000000000) ≡ true
unfolding due_at mark_started
started_due = refl
