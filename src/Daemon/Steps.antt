-- ===== src/Daemon/Steps.antt =====
-- The life of the job of one key in internal/daemon: checks, starts, finishes and reloads in any
-- order, one step for each time that the lock is held.
use wsaw.Prelude.{ℕ, ◌≡◌, Bool, true, Option, none, some, List, [], ◌∷◌, ◌++◌}
use wsaw.Retry.{Policy}
use wsaw.Schedule.{Cron, Job, due_at}
use wsaw.Daemon.{Outcome, mark_started, retry_policy, consider_retry, reloaded}

-- One start of a scan: when, whether it was found due as a retry, and the minimum interval then.
pub record Start : Type 0 where
  pub at : ℕ
  pub retry : Bool
  pub floor : ℕ

-- A run that has not finished: its attempt, and the policy, once it has read it.
pub record Run : Type 0 where
  pub attempt : ℕ
  pub policy : Option Policy

pub record Life (S B : Type 0) : Type 0 where
  pub job : Option (Job S B)
  -- The job was found due in the dispatch that is on, and has not been started or passed over.
  pub found : Option Start
  pub running : List Run
  -- The latest start comes first.
  pub starts : List Start

module _ {S B : Type 0} (cron : Cron S) where
  -- `dueJobs`, for a job that is due.
  unfoldable pub check : Job S B → ℕ → Life S B → Life S B
  check j now l = record l {
    found = some (record { at = now; retry = j.retrying; floor = j.target.min_interval });
  }

  -- `markStarted`, with the time of the dispatch.
  unfoldable pub start : Job S B → Start → Life S B → Life S B
  unfolding mark_started
  start j s l = record {
    job = some (mark_started cron j s.at).0;
    found = none;
    running =
        (record { attempt = (mark_started cron j s.at).1.attempt; policy = none }) ∷ l.running;
    starts = s ∷ l.starts;
  }

  unfoldable pub finish :
      Policy → Outcome B → ℕ → Bool → ℕ → List Run → List Run → Life S B → Life S B
  unfolding consider_retry
  finish policy out attempt cancelled now before after l = record l {
    job = (consider_retry cron policy l.job out attempt cancelled now).0;
    running = before ++ after;
  }

  -- One goroutine dispatches and reloads, so a reload finds no dispatch on; runs finish at any time.
  -- A run whose job is gone when it asks for the policy is over. A target that a reload brings back
  -- starts from its last stored scan and not from a job, and is a life of its own.
  pub data Step : Life S B → Life S B → Type 0 where
    checks :
        (l : Life S B) (j : Job S B) (now : ℕ)
        → l.job ≡ some j
        → l.found ≡ none
        → due_at cron j now ≡ true
        → Step l (check j now l)
    passes : (l : Life S B) → Step l (record l { found = none })
    starts :
        (l : Life S B) (j : Job S B) (s : Start)
        → l.job ≡ some j
        → l.found ≡ some s
        → Step l (start j s l)
    asks :
        (l : Life S B) (r : Run) (before after : List Run)
        → l.running ≡ before ++ r ∷ after
        → Step l (record l {
          running = before ++ (record r { policy = retry_policy cron l.job }) ∷ after;
        })
    leaves :
        (l : Life S B) (r : Run) (before after : List Run)
        → l.running ≡ before ++ r ∷ after
        → retry_policy cron l.job ≡ none
        → Step l (record l { running = before ++ after })
    finishes :
        (l : Life S B) (policy : Policy) (out : Outcome B) (attempt : ℕ) (cancelled : Bool)
        (now : ℕ) (before after : List Run)
        → l.running ≡ before ++ (record { attempt = attempt; policy = some policy }) ∷ after
        → Step l (finish policy out attempt cancelled now before after l)
    reloads :
        (l : Life S B) (prev j : Job S B)
        → l.job ≡ some prev
        → l.found ≡ none
        → Step l (record l { job = reloaded cron l.job (some j) })
    dropped : (l : Life S B) → l.found ≡ none → Step l (record l { job = reloaded cron l.job none })

  pub data Steps : Life S B → Life S B → Type 0 where
    done : (l : Life S B) → Steps l l
    then : (k l m : Life S B) → Steps k l → Step l m → Steps k m

-- A job before its first start.
abbrev pub idle : {S B : Type 0} → Option (Job S B) → Life S B
idle job = record { job = job; found = none; running = []; starts = [] }
