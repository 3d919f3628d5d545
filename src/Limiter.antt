-- ===== src/Limiter.antt =====
-- internal/daemon/schedule.go: originLimiter, which bounds how many scans run against one origin.
-- Channels are numbers.
pub mod Laws
use wsaw.Prelude.{
  ℕ, zero, suc, ◌+◌, ◌-◌, Bool, true, false, Option, none, some, List, [], ◌∷◌, if◌then◌else◌, ltb,
  leb, ◌==◌,
}
use wsaw.Prelude.Text.{Text}
use wsaw.Prelude.Assoc

pub record Limiter : Type 0 where
  pub limit : ℕ
  pub in_use : List (Text × ℕ)
  pub waiters : List (Text × List ℕ)

-- `newOriginLimiter`; a limit below 1 is 1.
unfoldable pub new_limiter : ℕ → Limiter
new_limiter limit = record { limit = if ltb limit 1 then 1 else limit; in_use = []; waiters = [] }

-- `l.inUse[origin]`, 0 where there is no entry.
abbrev pub used : Text → Limiter → ℕ
used origin l = elim (Assoc.lookup origin l.in_use) [ none ↦ 0 | some n ↦ n ]

unfoldable pub try_acquire : Limiter → Text → Limiter × Bool
try_acquire l origin =
    if leb l.limit (used origin l)
    then (l, false)
    else (record l { in_use = Assoc.set origin (used origin l + 1) l.in_use }, true)

-- The count of an origin goes down.
unfoldable pub lower : Limiter → Text → Limiter
lower l origin =
    if ltb 0 (used origin l)
    then record l { in_use = Assoc.set origin (used origin l - 1) l.in_use }
    else l

-- An entry of 0 goes.
unfoldable pub sweep : Limiter → Text → Limiter
sweep l origin =
    if used origin l == 0 then record l { in_use = Assoc.delete origin l.in_use } else l

-- The first waiting channel is closed and leaves the queue.
unfoldable pub wake : Limiter → Text → Limiter × Option ℕ
wake l origin = elim (Assoc.lookup origin l.waiters) [
  | none ↦ (l, none)
  | some [] ↦ (l, none)
  | some (c ∷ []) ↦ (record l { waiters = Assoc.delete origin l.waiters }, some c)
  | some (c ∷ queue) ↦ (record l { waiters = Assoc.set origin queue l.waiters }, some c)
]

-- `release`; the closed channel comes second.
unfoldable pub release : Limiter → Text → Limiter × Option ℕ
unfolding lower sweep wake
release l origin = wake (sweep (lower l origin) origin) origin
