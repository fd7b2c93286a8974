-- ===== src/Scheduler/Backoff.antt =====
-- The error backoff of the wake loop.
use native.Mathlib.Omega.{arith}
use outbox_dispatcher.Base.{ℕ, zero, suc, ◌+◌, ◌^◌, ◌≤◌, min, ◌≡◌}
use outbox_dispatcher.Schema.{Duration, from_millis}
use outbox_dispatcher.Scheduler.{error_backoff}

-- The multiplier `1 << n.min(6)`.
multiplier_bounds :
    (n : ℕ) → (1 ≤ 2 ^ min n 6) × (2 ^ min n 6 ≤ 64) × (2 ^ min n 6 ≤ 2 ^ min (n + 1) 6)
multiplier_bounds zero = (omega arith, omega arith, omega arith)
multiplier_bounds (suc zero) = (omega arith, omega arith, omega arith)
multiplier_bounds (suc (suc zero)) = (omega arith, omega arith, omega arith)
multiplier_bounds (suc (suc (suc zero))) = (omega arith, omega arith, omega arith)
multiplier_bounds (suc (suc (suc (suc zero)))) = (omega arith, omega arith, omega arith)
multiplier_bounds (suc (suc (suc (suc (suc zero))))) = (omega arith, omega arith, omega arith)
multiplier_bounds (suc (suc (suc (suc (suc (suc n)))))) =
    let top : min (suc (suc (suc (suc (suc (suc n)))))) 6 ≡ 6 = omega arith in
    let next : min (suc (suc (suc (suc (suc (suc n))))) + 1) 6 ≡ 6 = omega arith in
    rw (top, next) (omega arith, omega arith, omega arith)

-- The wait is at least the smaller of 100 ms and the poll interval, never longer than the poll interval nor than 6.4 s,
-- and does not shrink as errors accumulate.
pub error_backoff_bounds :
    (poll_interval : Duration) (n : ℕ)
    → (error_backoff poll_interval n ≤ poll_interval)
      × (error_backoff poll_interval n ≤ from_millis 6400)
      × (min poll_interval (from_millis 100) ≤ error_backoff poll_interval n)
      × (error_backoff poll_interval n ≤ error_backoff poll_interval (n + 1))
unfolding error_backoff
error_backoff_bounds poll_interval n =
    let m = multiplier_bounds n in
    (omega arith, omega (arith, m.1), omega (arith, m.0), omega (arith, m.2))
