-- ===== src/Daemon/Attempts.antt =====
-- How often internal/daemon attempts one scan.
use wsaw.Prelude.{
  ℕ, ◌≤◌, ◌≡◌, refl, ◌∙◌, subst, Bool, Option, none, some, List, [], ◌∷◌, ◌++◌, arith, ltb,
  if◌then◌else◌, All, length, length-append, Bool-cases, inl, inr,
}
use wsaw.Retry.{Policy, max_attempts}
use wsaw.Schedule.{Cron, Job, advance, carry_over, reset_retries, schedule_retry}
use wsaw.Daemon.{
  Outcome, mark_started, retry_policy, consider_retry, finish_retries, queue_retry, reloaded,
}
use wsaw.Daemon.Steps.{Start, Run, Life, Step, Steps, check, start, finish, idle}

abbrev pub IsAttempt : Policy → ℕ → Type 0
IsAttempt policy a = (1 ≤ a) × (a ≤ max_attempts policy)

max_attempts-positive : (p : Policy) → 1 ≤ max_attempts p
unfolding max_attempts
max_attempts-positive p = ground arith

alone :
    (before : List Run) (r : Run) (after : List Run)
    → length (before ++ r ∷ after) ≤ 1
    → (before ≡ []) × (after ≡ [])
alone [] r [] h = (refl, refl)
alone [] r (x ∷ after) h = absurd (omega arith)
alone (x ∷ before) r after h = absurd (omega (arith, length-append before (r ∷ after)))

-- A run that has read a policy has read this one.
abbrev Asked : Policy → Run → Type 0
Asked policy r = elim r.policy [ none ↦ Unit {0} | some p ↦ p ≡ policy ]

module _ {S B : Type 0} (cron : Cron S) (policy : Policy) where
  -- A step that starts no run while another one is on, and a reload that keeps the retry policy.
  abbrev IsSerial : {l m : Life S B} → Step cron l m → Type 0
  IsSerial (Step.starts l j s e n) = l.running ≡ []
  IsSerial (Step.reloads l prev j e n) = j.target.retry ≡ policy
  IsSerial _ = Unit {0}

  abbrev pub AllSerial : {l m : Life S B} → Steps cron l m → Type 0
  AllSerial (Steps.done l) = Unit {0}
  AllSerial (Steps.then k l m ss s) = AllSerial ss × IsSerial s

  -- The job counts the attempt that is running, or the next one.
  abbrev pub Counts : Option (Job S B) → List Run → Type 0
  Counts none running = Unit {0}
  Counts (some j) running =
      (j.target.retry ≡ policy)
      × IsAttempt policy j.attempt
      × All (λ r. j.attempt ≡ r.attempt) running

  abbrev Inv : Life S B → Type 0
  Inv l =
      (length l.running ≤ 1)
      × All (λ r. IsAttempt policy r.attempt) l.running
      × All (Asked policy) l.running
      × Counts l.job l.running

  start-Inv :
      (l : Life S B) (j : Job S B) (s : Start)
      → l.running ≡ []
      → Counts (some j) []
      → Inv (start cron j s l)
  unfolding start mark_started advance
  start-Inv l j s e (p, b, u) =
      let one : (if ltb j.attempt 1 then 1 else j.attempt) ≡ j.attempt = ground arith in
      rw (e, one) (omega arith, (b, tt), (tt, tt), (p, b, (refl, tt)))

  retry-Counts :
      (job : Option (Job S B)) (out : Outcome B) (r : Run) (now : ℕ) (cancelled : Bool)
      → Counts job (r ∷ [])
      → Counts (consider_retry cron policy job out r.attempt cancelled now).0 []
  unfolding consider_retry finish_retries queue_retry reset_retries schedule_retry
  retry-Counts none out r now cancelled c = ground arith
  retry-Counts (some j) out r now cancelled (e, b, same) =
      ground (arith, max_attempts-positive policy)

  asks-Counts :
      (job : Option (Job S B)) (r : Run)
      → Counts job (r ∷ [])
      → Asked policy (record r { policy = retry_policy cron job })
        × Counts job ((record r { policy = retry_policy cron job }) ∷ [])
  unfolding retry_policy
  asks-Counts none r c = (tt, tt)
  asks-Counts (some j) r (e, b, same) = (e, (e, b, same))

  -- The one run that is on.
  only :
      (l : Life S B) (r : Run) (before after : List Run)
      → l.running ≡ before ++ r ∷ after
      → Inv l
      → (before ≡ []) × (after ≡ []) × (l.running ≡ r ∷ [])
  only l r before after e (n, a, k, c) =
      let (eb, ea) = alone before r after (subst (λ x. length x ≤ 1) e n) in
      (eb, ea, e ∙ rw (eb, ea) refl)

  asks-Inv :
      (l : Life S B) (r : Run) (before after : List Run)
      → l.running ≡ before ++ r ∷ after
      → Inv l
      → Inv
          (record l { running = before ++ (record r { policy = retry_policy cron l.job }) ∷ after })
  asks-Inv l r before after e (n, a, k, c) =
      let (eb, ea, run) = only l r before after e (n, a, k, c) in
      let (q, d) = asks-Counts l.job r (subst (Counts l.job) run c) in
      let b = subst (All (λ x. IsAttempt policy x.attempt)) run a in
      rw (eb, ea) (omega arith, b, (q, tt), d)

  leaves-Inv :
      (l : Life S B) (r : Run) (before after : List Run)
      → l.running ≡ before ++ r ∷ after
      → Inv l
      → Inv (record l { running = before ++ after })
  leaves-Inv l r before after e (n, a, k, c) =
      let (eb, ea, run) = only l r before after e (n, a, k, c) in
      rw (eb, ea) (omega arith, tt, tt, fewer l.job r (subst (Counts l.job) run c))
    where
      fewer : (job : Option (Job S B)) (r : Run) → Counts job (r ∷ []) → Counts job []
      fewer none r c = tt
      fewer (some j) r (e, b, same) = (e, b, tt)

  finish-Inv :
      (l : Life S B) (p : Policy) (out : Outcome B) (attempt : ℕ) (cancelled : Bool) (now : ℕ)
      (before after : List Run)
      → l.running ≡ before ++ (record { attempt = attempt; policy = some p }) ∷ after
      → Inv l
      → Inv (finish cron p out attempt cancelled now before after l)
  unfolding finish
  finish-Inv l p out attempt cancelled now before after e (n, a, k, c) =
      let r : Run = record { attempt = attempt; policy = some p } in
      let (eb, ea, run) = only l r before after e (n, a, k, c) in
      let q : p ≡ policy = (subst (All (Asked policy)) run k).0 in
      rw (eb, ea, q)
        (omega arith, tt, tt, retry-Counts l.job out r now cancelled (subst (Counts l.job) run c))

  reload-Counts :
      (prev j : Job S B) (running : List Run)
      → j.target.retry ≡ policy
      → Counts (some prev) running
      → Counts (reloaded cron (some prev) (some j)) running
  unfolding reloaded carry_over
  reload-Counts prev j running e (p, b, same) = elim (Bool-cases prev.retrying) [
    | inl h ↦ rw h (e, b, same)
    | inr h ↦ rw h (e, b, same)
  ]

  dropped-Counts :
      (job : Option (Job S B)) (running : List Run) → Counts (reloaded cron job none) running
  unfolding reloaded
  dropped-Counts none running = tt
  dropped-Counts (some j) running = tt

  Step-Inv : {l m : Life S B} (s : Step cron l m) → IsSerial s → Inv l → Inv m
  unfolding check
  Step-Inv (Step.checks l j now e n due) q i = i
  Step-Inv (Step.passes l) q i = i
  Step-Inv (Step.starts l j s e f) q (n, a, k, c) =
      start-Inv l j s q (subst (λ o. Counts o []) e (subst (Counts l.job) q c))
  Step-Inv (Step.asks l r before after e) q i = asks-Inv l r before after e i
  Step-Inv (Step.leaves l r before after e f) q i = leaves-Inv l r before after e i
  Step-Inv (Step.finishes l p out attempt cancelled now before after e) q i =
      finish-Inv l p out attempt cancelled now before after e i
  Step-Inv (Step.reloads l prev j e f) q (n, a, k, c) =
      (n, a, k, rw e (reload-Counts prev j l.running q (subst (λ o. Counts o l.running) e c)))
  Step-Inv (Step.dropped l f) q (n, a, k, c) = (n, a, k, dropped-Counts l.job l.running)

  Steps-Inv : {k l : Life S B} (s : Steps cron k l) → AllSerial s → Inv k → Inv l
  Steps-Inv (Steps.done l) q i = i
  Steps-Inv (Steps.then k l m ss s) (qs, q) i = Step-Inv s q (Steps-Inv ss qs i)

  -- From a job at its first attempt on, as long as no run of it starts while another one is on and
  -- reloads keep the retry policy, every run is an attempt between the first and the last that the
  -- policy allows, and the job keeps the policy and counts the attempt that is running, or else one
  -- between these.
  pub Steps-Attempts :
      (j : Job S B) (l : Life S B)
      → j.target.retry ≡ policy
      → j.attempt ≡ 1
      → (s : Steps cron (idle (some j)) l) → AllSerial s
      → All (λ r. IsAttempt policy r.attempt) l.running × Counts l.job l.running
  Steps-Attempts j l p first s q =
      let i = Steps-Inv s q (
        omega arith,
        tt,
        tt,
        (p, (omega (arith, first), omega (arith, first, max_attempts-positive policy)), tt),
      ) in
      (i.1, i.3)
