-- ===== src/Daemon/Spacing.antt =====
-- How far apart internal/daemon starts scans of one target.
use wsaw.Prelude.{
  ◌||◌, ◌==◌, leb, ℕ, ◌+◌, ◌≤◌, ◌<◌, ◌≡◌, refl, subst, Bool, true, Option, none, some, List, [],
  ◌∷◌, arith,
}
use wsaw.Schedule.{Cron, Job, due_at, advance, carry_over, reset_retries, schedule_retry}
use wsaw.Retry.{Policy}
use wsaw.Daemon.{Outcome, mark_started, consider_retry, finish_retries, queue_retry, reloaded}
use wsaw.Daemon.Steps.{Start, Life, Step, Steps, check, start, finish, idle}

-- A start that was found due as no retry, of a target with a minimum interval, comes at least the
-- minimum interval after the one before.
abbrev pub Apart : Start → Start → Type 0
Apart later earlier =
    (later.retry
      || ((later.floor == 0) || ((earlier.at == 0) || leb (earlier.at + later.floor) later.at)))
    ≡ true

abbrev pub Spaced : List Start → Type 0
Spaced [] = Unit {0}
Spaced (s ∷ []) = Unit {0}
Spaced (s ∷ t ∷ rest) = Apart s t × Spaced (t ∷ rest)

-- What was found due may be started after the last start.
abbrev Found : Option Start → List Start → Type 0
Found none starts = Unit {0}
Found (some s) [] = Unit {0}
Found (some s) (t ∷ rest) = Apart s t

start-Spaced :
    (s : Start) (starts : List Start) → Found (some s) starts → Spaced starts → Spaced (s ∷ starts)
start-Spaced s [] f p = tt
start-Spaced s (t ∷ rest) f p = (f, p)

module _ {S B : Type 0} (cron : Cron S) where
  -- After a start the job of a target with a minimum interval is not due again before that has
  -- passed, whatever its cron schedule says.
  pub mark_started-floor :
      (j : Job S B) (now later : ℕ)
      → 0 < j.target.min_interval
      → due_at cron (mark_started cron j now).0 later ≡ true
      → now + j.target.min_interval ≤ later
  unfolding due_at mark_started advance
  mark_started-floor j now later floor h = ground arith

  -- The last start is the one that the job remembers.
  abbrev Remembers : Option (Job S B) → List Start → Type 0
  Remembers none starts = Unit {0}
  Remembers (some j) [] = Unit {0}
  Remembers (some j) (s ∷ rest) = j.last_run ≡ s.at

  abbrev Inv : Life S B → Type 0
  Inv l = Remembers l.job l.starts × Found l.found l.starts × Spaced l.starts

  check-Found :
      (j : Job S B) (now : ℕ) (starts : List Start)
      → due_at cron j now ≡ true
      → Remembers (some j) starts
      → Found (some (record { at = now; retry = j.retrying; floor = j.target.min_interval })) starts
  unfolding due_at
  check-Found j now [] due r = tt
  check-Found j now (t ∷ rest) due r = ground arith

  finish-Remembers :
      (policy : Policy) (job : Option (Job S B)) (out : Outcome B) (attempt now : ℕ)
      (cancelled : Bool) (starts : List Start)
      → Remembers job starts
      → Remembers (consider_retry cron policy job out attempt cancelled now).0 starts
  unfolding consider_retry finish_retries queue_retry reset_retries schedule_retry
  finish-Remembers policy none out attempt now cancelled starts r = ground arith
  finish-Remembers policy (some j) out attempt now cancelled [] r = ground arith
  finish-Remembers policy (some j) out attempt now cancelled (s ∷ rest) r = ground arith

  reload-Remembers :
      (prev j : Job S B) (starts : List Start)
      → Remembers (some prev) starts
      → Remembers (reloaded cron (some prev) (some j)) starts
  unfolding reloaded carry_over
  reload-Remembers prev j [] r = tt
  reload-Remembers prev j (s ∷ rest) r = ground arith

  dropped-Remembers :
      (job : Option (Job S B)) (starts : List Start) → Remembers (reloaded cron job none) starts
  unfolding reloaded
  dropped-Remembers none starts = tt
  dropped-Remembers (some j) starts = tt

  Step-Inv : (l m : Life S B) → Step cron l m → Inv l → Inv m
  unfolding check start finish mark_started advance
  Step-Inv _ _ (Step.checks l j now e n due) (r, f, s) =
      (r, check-Found j now l.starts due (subst (λ o. Remembers o l.starts) e r), s)
  Step-Inv _ _ (Step.passes l) (r, f, s) = (r, tt, s)
  Step-Inv _ _ (Step.starts l j p e n) (r, f, s) =
      (refl, tt, start-Spaced p l.starts (subst (λ o. Found o l.starts) n f) s)
  Step-Inv _ _ (Step.asks l run before after e) i = i
  Step-Inv _ _ (Step.leaves l run before after e n) i = i
  Step-Inv _ _ (Step.finishes l policy out attempt cancelled now before after e) (r, f, s) =
      (finish-Remembers policy l.job out attempt now cancelled l.starts r, f, s)
  Step-Inv _ _ (Step.reloads l prev j e n) (r, f, s) =
      (rw e (reload-Remembers prev j l.starts (subst (λ o. Remembers o l.starts) e r)), f, s)
  Step-Inv _ _ (Step.dropped l n) (r, f, s) = (dropped-Remembers l.job l.starts, f, s)

  Steps-Inv : (k l : Life S B) → Steps cron k l → Inv k → Inv l
  Steps-Inv _ _ (Steps.done l) i = i
  Steps-Inv _ _ (Steps.then k l m ss s) i = Step-Inv l m s (Steps-Inv k l ss i)

  -- Whatever checks, starts, results, retries and reloads follow each other in the life of a job, a
  -- scan that was not found due as a retry starts at least the minimum interval that was configured
  -- when it was found due, if any, after the start before it (one at the zero time excepted): neither a
  -- cron schedule nor a reload gets around it. A scan that was found due as a retry may start earlier,
  -- also where a run that ends between the check and the start has made a first attempt of it.
  pub Steps-Spaced :
      (job : Option (Job S B)) (l : Life S B) → Steps cron (idle job) l → Spaced l.starts
  Steps-Spaced none l s = (Steps-Inv _ l s (tt, tt, tt)).2
  Steps-Spaced (some j) l s = (Steps-Inv _ l s (tt, tt, tt)).2
