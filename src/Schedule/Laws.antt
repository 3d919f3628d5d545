-- ===== src/Schedule/Laws.antt =====
-- The jobs that internal/daemon/schedule.go builds, and when they first run.
use wsaw.Prelude.{
  ℕ, ◌+◌, ◌≤◌, ◌<◌, ◌≡◌, refl, ap, ◌∙◌, Bool, false, Option, none, some, List, [], ◌∷◌, ◌++◌, map,
  arith, if◌then◌else◌, ◌==◌, ◌⊎◌, inl, inr, All, All-append,
}
use wsaw.Prelude.Text.{Text}
use wsaw.Prelude.Hash.{fnv32a, fnv32a-bound}
use wsaw.Model.Enums.{ConsentMode}
use wsaw.Schedule.{
  Cron, Target, Job, key, startup_delay, jitter, first_run, seeded, new_job, schedule_of, prepend,
  join, try_job, jobs_of, build_jobs,
}
use wsaw.Schedule.Spread.{spread-lem}

map-append {ℓ} :
    {A C : Type ℓ} (f : A → C) (xs ys : List A) → map f (xs ++ ys) ≡ map f xs ++ map f ys
map-append f [] ys = refl
map-append f (x ∷ xs) ys = ap (λ m. f x ∷ m) (map-append f xs ys)

-- The window of the first runs.
abbrev pub window : Target → ℕ
window t = if t.jitter == 0 then 30000000000 else t.jitter

-- One pair for each target and each of its modes.
abbrev pub pairs_of : Target → List ConsentMode → List (Target × ConsentMode)
pairs_of t [] = []
pairs_of t (m ∷ ms) = (t, m) ∷ pairs_of t ms

abbrev pub pairs : List Target → List (Target × ConsentMode)
pairs [] = []
pairs (t ∷ ts) = pairs_of t t.consent_modes ++ pairs ts

seeded-past :
    (last_scan : Option (Text → ConsentMode → Option ℕ)) (name : Text) (mode : ConsentMode)
    (now : ℕ)
    → seeded last_scan name mode now ≤ now
unfolding seeded
seeded-past none name mode now = omega arith
seeded-past (some last_scan) name mode now = ground arith

module _ {S B : Type 0} (cron : Cron S) where
  startup_delay-window :
      (j : Job S B) → j.target.jitter < 9223372036854775808 → startup_delay cron j < window j.target
  unfolding startup_delay
  startup_delay-window j h =
      (spread-lem (fnv32a (key cron j)) (window j.target) (omega (arith, fnv32a-bound (key cron j)))
        (ground arith) (ground arith)).1

  jitter-window : (j : Job S B) (now : ℕ) → jitter cron j now ≤ j.target.jitter
  unfolding jitter
  jitter-window j now = ground arith

  -- A job without a cron schedule, with a jitter below 2 ^ 63 ns, first runs at the start or later:
  -- within the window of its jitter (30 seconds where it has none), or where it was scanned before,
  -- between one interval and one interval and the jitter after that scan.
  pub first_run-range :
      (j : Job S B) (now : ℕ) (catch_up : Bool)
      → j.schedule ≡ none
      → j.target.jitter < 9223372036854775808
      → (now ≤ first_run cron j now catch_up)
        × ((first_run cron j now catch_up < now + window j.target)
            ⊎ ((0 < j.last_run)
                × (j.last_run + j.interval ≤ first_run cron j now catch_up)
                × (first_run cron j now catch_up ≤ j.last_run + j.interval + j.target.jitter)))
  unfolding first_run
  first_run-range j now catch_up e h =
      ground (arith, startup_delay-window j h, jitter-window j j.last_run)

  -- A job as it is built: its schedule is the target's, it starts with the first attempt, and its
  -- last run is not in the future.
  abbrev pub Fresh : ℕ → Job S B → Type 0
  Fresh now j =
      (j.last_run ≤ now)
      × (j.attempt ≡ 1)
      × (j.retrying ≡ false)
      × (j.interval ≡ j.target.interval)
      × (schedule_of cron j.target ≡ inr j.schedule)

  abbrev pub pair : Job S B → Target × ConsentMode
  pair j = (j.target, j.mode)

  -- A loop that ends well has built one fresh job for each pair.
  abbrev pub Built : ℕ → List (Target × ConsentMode) → Text ⊎ List (Job S B) → Type 0
  Built now expected (inl e) = Unit {0}
  Built now expected (inr jobs) = (map pair jobs ≡ expected) × All (Fresh now) jobs

  abbrev TryBuilt : ℕ → Target → ConsentMode → Text ⊎ Job S B → Type 0
  TryBuilt now t m (inl e) = Unit {0}
  TryBuilt now t m (inr j) = (pair j ≡ (t, m)) × Fresh now j

  prepend-Built :
      (now : ℕ) (t : Target) (m : ConsentMode) (ps : List (Target × ConsentMode))
      (x : Text ⊎ Job S B) (rest : Text ⊎ List (Job S B))
      → TryBuilt now t m x
      → Built now ps rest
      → Built now ((t, m) ∷ ps) (prepend cron x rest)
  prepend-Built now t m ps (inl e) rest h r = tt
  prepend-Built now t m ps (inr j) (inl e) h r = tt
  prepend-Built now t m ps (inr j) (inr jobs) (p, f) (q, fs) = (rw (p, q) refl, (f, fs))

  join-Built :
      (now : ℕ) (ps qs : List (Target × ConsentMode)) (x rest : Text ⊎ List (Job S B))
      → Built now ps x
      → Built now qs rest
      → Built now (ps ++ qs) (join cron x rest)
  join-Built now ps qs (inl e) rest h r = tt
  join-Built now ps qs (inr jobs) (inl e) h r = tt
  join-Built now ps qs (inr jobs) (inr more) (p, f) (q, fs) =
      (map-append pair jobs more ∙ rw (p, q) refl, All-append (Fresh now) jobs more f fs)

module _ {S : Type 0} (B : Type 0) (cron : Cron S) (now : ℕ) (catch_up : Bool)
    (last_scan : Option (Text → ConsentMode → Option ℕ)) where
  try_job-TryBuilt :
      (t : Target) (m : ConsentMode)
      → TryBuilt {B = B} cron now t m (try_job cron t m now catch_up last_scan)
  unfolding try_job new_job
  try_job-TryBuilt t m = made (schedule_of cron t) refl
    where
      made :
          (x : Text ⊎ Option S)
          → schedule_of cron t ≡ x
          → TryBuilt {B = B} cron now t m (elim x [
            | inl e ↦ inl e
            | inr schedule ↦ inr (new_job cron t schedule m now catch_up last_scan)
          ])
      made (inl e) h = tt
      made (inr s) h = (refl, (seeded-past last_scan t.name m now, refl, refl, refl, h))

  jobs_of-Built :
      (t : Target) (modes : List ConsentMode)
      → Built {B = B} cron now (pairs_of t modes) (jobs_of cron t modes now catch_up last_scan)
  unfolding jobs_of
  jobs_of-Built t [] = (refl, tt)
  jobs_of-Built t (m ∷ ms) =
      prepend-Built cron now t m (pairs_of t ms) _ _ (try_job-TryBuilt t m) (jobs_of-Built t ms)

  -- Either a cron schedule does not parse, or there is one job for each target and each of its
  -- modes, in the order of the configuration, each one with the schedule of its target, at its first
  -- attempt, and with no last run in the future.
  pub build_jobs-Built :
      (ts : List Target)
      → Built {B = B} cron now (pairs ts) (build_jobs cron ts now catch_up last_scan)
  unfolding build_jobs
  build_jobs-Built [] = (refl, tt)
  build_jobs-Built (t ∷ ts) =
      join-Built cron now (pairs_of t t.consent_modes) (pairs ts) _ _
        (jobs_of-Built t t.consent_modes) (build_jobs-Built ts)
