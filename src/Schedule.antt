-- ===== src/Schedule.antt =====
-- internal/daemon/schedule.go: one target in one consent mode with its schedule. Times are
-- nanoseconds since the Unix epoch, and 0 is the zero time; a duration that the code tests for being
-- positive is 0 where it is not. The monotonic reading that `wall` strips is not modelled: all times
-- are wall-clock times.
pub mod Spread
pub mod Laws
use wsaw.Prelude.{
  ℕ, zero, suc, ◌+◌, ◌-◌, ◌*◌, ◌/◌, ◌%◌, Bool, true, false, not, ◌&&◌, ◌||◌, Option, none, some,
  List, [], ◌∷◌, ◌++◌, if◌then◌else◌, ltb, leb, ◌==◌, ◌⊎◌, inl, inr, max,
}
use wsaw.Prelude.Text.{Text, bytes, is_empty}
use wsaw.Prelude.Hash.{fnv32a, decimal}
use wsaw.Model.Enums.{ConsentMode, mode_text}
use wsaw.Retry.{Policy}

-- The cron library: what it parses a schedule to, and the next occurrence after a time.
pub record Cron (S : Type 0) : Type 0 where
  pub parse : Text → Text ⊎ S
  pub next : S → ℕ → ℕ

-- The fields of config.Resolved that the scheduler reads.
pub record Target : Type 0 where
  pub name : Text
  pub consent_modes : List ConsentMode
  pub interval : ℕ
  pub cron : Text
  pub jitter : ℕ
  pub min_interval : ℕ
  pub retry : Policy

-- S is the type of parsed schedules, B the one of body sampling decisions.
pub record Job (S B : Type 0) : Type 0 where
  pub target : Target
  pub mode : ConsentMode
  pub interval : ℕ
  pub schedule : Option S
  pub next : ℕ
  pub last_run : ℕ
  pub attempt : ℕ
  pub prev_error : Text
  pub bodies : Option B
  pub retrying : Bool

-- `spread`: the product is taken in 128 bits and shifted right by 32. The two halves that the code
-- joins with `|` share no bit.
unfoldable pub spread : ℕ → ℕ → ℕ
spread hash window =
    let hi = hash * window / 18446744073709551616 in
    let lo = hash * window % 18446744073709551616 in
    if window == 0 then 0 else hi * 4294967296 % 18446744073709551616 + lo / 4294967296

-- `lastRun` of a new job: the last stored scan, or now where that lies in the future.
unfoldable pub seeded : Option (Text → ConsentMode → Option ℕ) → Text → ConsentMode → ℕ → ℕ
seeded none name mode now = 0
seeded (some last_scan) name mode now = elim (last_scan name mode) [
  | none ↦ 0
  | some at ↦ if ltb now at then now else at
]

abbrev pub parsed : {S : Type 0} → Text ⊎ S → Text ⊎ Option S
parsed (inl e) = inl e
parsed (inr s) = inr (some s)

-- The schedule of a target, or what the cron library says of it.
unfoldable pub schedule_of : {S : Type 0} → Cron S → Target → Text ⊎ Option S
schedule_of cron t = if is_empty t.cron then inr none else parsed (cron.parse t.cron)

module _ {S B : Type 0} (cron : Cron S) where
  unfoldable pub key : Job S B → Text
  key j = j.target.name ++ bytes "/" ++ mode_text j.mode

  unfoldable pub startup_delay : Job S B → ℕ
  unfolding spread key
  startup_delay j =
      spread (fnv32a (key j)) (if j.target.jitter == 0 then 30000000000 else j.target.jitter)

  -- `jitter`; `now.Unix()` is in seconds.
  unfoldable pub jitter : Job S B → ℕ → ℕ
  unfolding key
  jitter j now =
      if j.target.jitter == 0
      then 0
      else fnv32a (key j ++ decimal (now / 1000000000 / 60)) % j.target.jitter

  unfoldable pub first_run : Job S B → ℕ → Bool → ℕ
  unfolding startup_delay jitter
  first_run j now catch_up =
      let soon = if catch_up then now else now + startup_delay j in
      let due = j.last_run + (j.interval + jitter j j.last_run) in
      elim j.schedule [
        | some s ↦ cron.next s now
        | none ↦
            if (j.last_run == 0) || (j.interval == 0)
            then soon
            else if ltb now due
            then due
            else soon
      ]

  -- The time that `advance` sets before it applies the floor.
  unfoldable pub planned : Job S B → ℕ → ℕ
  unfolding jitter
  planned j now = elim j.schedule [
    | some s ↦ cron.next s now
    | none ↦ if j.interval == 0 then now + 86400000000000 else now + (j.interval + jitter j now)
  ]

  unfoldable pub advance : Job S B → ℕ → Job S B
  unfolding planned
  advance j now =
      let floor = j.target.min_interval in
      record j {
        next =
            if ltb 0 floor && ltb (planned j now) (now + floor) then now + floor else planned j now;
      }

  unfoldable pub due_at : Job S B → ℕ → Bool
  due_at j now =
      if ltb now j.next
      then false
      else if j.retrying
      then true
      else not (
          ltb 0 j.target.min_interval
          && (not (j.last_run == 0) && ltb now (j.last_run + j.target.min_interval)))

  unfoldable pub schedule_retry : Job S B → ℕ → ℕ → Text → Option B → Job S B
  schedule_retry j now delay because bodies = record j {
    attempt = j.attempt + 1;
    prev_error = because;
    bodies = bodies;
    retrying = true;
    next = now + delay;
  }

  unfoldable pub carry_over : Job S B → Job S B → Job S B
  carry_over j prev =
      let kept = record j {
        last_run = prev.last_run;
        attempt = prev.attempt;
        prev_error = prev.prev_error;
        bodies = prev.bodies;
      } in
      if prev.retrying then record kept { retrying = true; next = prev.next } else kept

  unfoldable pub reset_retries : Job S B → Job S B
  reset_retries j = record j { attempt = 1; prev_error = []; bodies = none; retrying = false }

  unfoldable pub new_job :
      Target → Option S → ConsentMode → ℕ → Bool → Option (Text → ConsentMode → Option ℕ) → Job S B
  unfolding first_run seeded
  new_job t schedule mode now catch_up last_scan =
      let j : Job S B = record {
        target = t;
        mode = mode;
        interval = t.interval;
        schedule = schedule;
        next = 0;
        last_run = seeded last_scan t.name mode now;
        attempt = 1;
        prev_error = [];
        bodies = none;
        retrying = false;
      } in
      record j { next = first_run j now catch_up }

  -- A job in front of those of the rest; the first error ends the loop.
  abbrev pub prepend : Text ⊎ Job S B → Text ⊎ List (Job S B) → Text ⊎ List (Job S B)
  prepend (inl e) rest = inl e
  prepend (inr j) (inl e) = inl e
  prepend (inr j) (inr jobs) = inr (j ∷ jobs)

  abbrev pub join : Text ⊎ List (Job S B) → Text ⊎ List (Job S B) → Text ⊎ List (Job S B)
  join (inl e) rest = inl e
  join (inr jobs) (inl e) = inl e
  join (inr jobs) (inr more) = inr (jobs ++ more)

  -- One pass of the loop over the modes of a target.
  unfoldable pub try_job :
      Target → ConsentMode → ℕ → Bool → Option (Text → ConsentMode → Option ℕ) → Text ⊎ Job S B
  unfolding new_job schedule_of
  try_job t mode now catch_up last_scan = elim (schedule_of cron t) [
    | inl e ↦ inl e
    | inr schedule ↦ inr (new_job t schedule mode now catch_up last_scan)
  ]

  -- The loop over the modes of a target.
  unfoldable pub jobs_of :
      Target
      → List ConsentMode
      → ℕ
      → Bool
      → Option (Text → ConsentMode → Option ℕ)
      → Text ⊎ List (Job S B)
  unfolding try_job
  jobs_of t [] now catch_up last_scan = inr []
  jobs_of t (mode ∷ modes) now catch_up last_scan =
      prepend (try_job t mode now catch_up last_scan) (jobs_of t modes now catch_up last_scan)

  unfoldable pub build_jobs :
      List Target → ℕ → Bool → Option (Text → ConsentMode → Option ℕ) → Text ⊎ List (Job S B)
  unfolding jobs_of
  build_jobs [] now catch_up last_scan = inr []
  build_jobs (t ∷ ts) now catch_up last_scan =
      join (jobs_of t t.consent_modes now catch_up last_scan) (build_jobs ts now catch_up last_scan)
