-- ===== src/Retry/Laws.antt =====
-- When internal/retry/retry.go attempts a scan again, and how long it waits.
use native.Mathlib.Nat.{mul_assoc}
use wsaw.Prelude.{
  not, ℕ, zero, suc, ◌+◌, ◌-◌, ◌*◌, ◌/◌, ◌^◌, ◌≤◌, ◌<◌, ◌≡◌, ap, sym, ◌∙◌, false, ◌&&◌, ◌||◌, some,
  min, if◌then◌else◌, arith,
}
use wsaw.Prelude.Text.{Text}
use wsaw.Prelude.Int64.{is_positive, signed_lt, add64}
use wsaw.Model.Enums.{is_error, termination_truncated}
use wsaw.Model.Result.{Result, ok, truncated}
use wsaw.Retry.{
  Policy, max_attempts, retryable, retry_jitter, doubled, first_backoff, base_delay, delay,
  total_from, total_delay,
}

-- A result is attempted again exactly when it ended in an error, or was cut short and the policy
-- retries truncated scans. One that produced an asset list and was not cut short never is.
pub retryable-lem :
    (p : Policy) (r : Result)
    → (retryable p (some r) ≡ (is_error r.termination || (p.truncated && truncated r)))
      × ((ok r && (not (truncated r) && retryable p (some r))) ≡ false)
unfolding retryable truncated termination_truncated ok
retryable-lem p r = (ground arith, ground arith)

jitter-bound : (key : Text) (attempt base : ℕ) → retry_jitter key attempt base ≤ base / 10
unfolding retry_jitter
jitter-bound key attempt base = ground arith

-- Both durations are positive and so small that doubling one does not wrap.
abbrev pub InRange : Policy → Type 0
InRange p =
    (first_backoff p < 4611686018427387904)
    × (0 < p.max_backoff)
    × (p.max_backoff < 4611686018427387904)

pow-step : (n b : ℕ) → b * 2 ^ suc n ≡ b * 2 * 2 ^ n
pow-step n b = ap (λ x. b * x) (omega arith) ∙ sym (mul_assoc b 2 (2 ^ n))

le-pow : (n b : ℕ) → b ≤ b * 2 ^ n
le-pow zero b = omega arith
le-pow (suc n) b = omega (arith, pow-step n b, le-pow n (b * 2))

doubled-lem :
    (n most base : ℕ)
    → 0 < most
    → most < 4611686018427387904
    → base < 4611686018427387904
    → min (doubled n most base) most ≡ min (base * 2 ^ n) most
unfolding doubled
doubled-lem zero most base p b c = ground arith
doubled-lem (suc n) most base p b c =
    ground (arith, pow-step n base, le-pow n (base * 2), doubled-lem n most (base * 2))

doubled-bound :
    (n most base : ℕ)
    → 0 < most
    → most < 4611686018427387904
    → base < 4611686018427387904
    → doubled n most base < 4611686018427387904
unfolding doubled
doubled-bound zero most base p b c = c
doubled-bound (suc n) most base p b c = ground (arith, doubled-bound n most (base * 2))

capped :
    (most x : ℕ)
    → 0 < most
    → most < 4611686018427387904
    → x < 4611686018427387904
    → (if is_positive most && signed_lt most x then most else x) ≡ min x most
capped most x p b c = ground arith

-- The base of an attempt's delay is the first one doubled once for each attempt after the second,
-- or the maximum where that is less.
base_delay-lem :
    (p : Policy) (attempt : ℕ)
    → InRange p
    → base_delay p attempt ≡ min (first_backoff p * 2 ^ (attempt - 2)) p.max_backoff
unfolding base_delay
base_delay-lem p attempt (b, pos, m) =
    capped p.max_backoff _ pos m
      (doubled-bound (attempt - 2) p.max_backoff (first_backoff p) pos m b)
    ∙ doubled-lem (attempt - 2) p.max_backoff (first_backoff p) pos m b

-- Where the backoff and a positive maximum are below 2 ^ 62 ns, an attempt after the first waits the
-- backoff doubled once for each attempt after the second, at most the maximum, and up to a tenth of
-- that more; no arithmetic wraps.
pub delay-bounds :
    (p : Policy) (attempt : ℕ) (key : Text)
    → InRange p
    → 2 ≤ attempt
    → let base = min (first_backoff p * 2 ^ (attempt - 2)) p.max_backoff in
      (base ≤ delay p attempt key) × (delay p attempt key ≤ base + base / 10)
unfolding delay
delay-bounds p attempt key r h =
    ground (arith, base_delay-lem p attempt r, jitter-bound key attempt (base_delay p attempt))

delay-range :
    (p : Policy) (attempt : ℕ) (key : Text)
    → InRange p
    → 2 ≤ attempt
    → (min (first_backoff p) p.max_backoff ≤ delay p attempt key)
      × (delay p attempt key ≤ p.max_backoff + p.max_backoff / 10)
delay-range p attempt key r h =
    ground (arith, delay-bounds p attempt key r h, le-pow (attempt - 2) (first_backoff p))

module _ (p : Policy) (key : Text) (r : InRange p) where
  add64-small :
      (total attempt : ℕ)
      → total + delay p attempt key < 9223372036854775808
      → add64 total (delay p attempt key) ≡ total + delay p attempt key
  add64-small total attempt h = omega arith

  abbrev least : ℕ
  least = min (first_backoff p) p.max_backoff

  abbrev most : ℕ
  most = p.max_backoff + p.max_backoff / 10

  total_from-bound :
      (n attempt total : ℕ)
      → 2 ≤ attempt
      → total + n * most < 9223372036854775808
      → (total + n * least ≤ total_from p key n attempt total)
        × (total_from p key n attempt total ≤ total + n * most)
  unfolding total_from
  total_from-bound zero attempt total h b = (omega arith, omega arith)
  total_from-bound (suc n) attempt total h b =
      let range = delay-range p attempt key r h in
      let rest =
        total_from-bound n (suc attempt) (total + delay p attempt key) (omega arith)
          (omega (arith, range)) in
      rw (add64-small total attempt (omega (arith, range)))
        (omega (arith, rest, range), omega (arith, rest, range))

-- Where the backoff and a positive maximum are below 2 ^ 62 ns, all waits of a run together lie
-- between the smallest and the largest wait times the number of retries, if the latter fits into an
-- int64.
pub total_delay-bounds :
    (p : Policy) (key : Text)
    → InRange p
    → (max_attempts p - 1) * (p.max_backoff + p.max_backoff / 10) < 9223372036854775808
    → ((max_attempts p - 1) * min (first_backoff p) p.max_backoff ≤ total_delay p key)
      × (total_delay p key ≤ (max_attempts p - 1) * (p.max_backoff + p.max_backoff / 10))
unfolding total_delay
total_delay-bounds p key r b =
    let t = total_from-bound p key r (max_attempts p - 1) 2 0 (omega arith) (omega (arith, b)) in
    (omega (arith, t), omega (arith, t))
