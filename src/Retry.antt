-- ===== src/Retry.antt =====
-- Backoff with jitter: crates/core/src/retry.rs. `rand::random::<f64>()` is r / 2^53 for an r below
-- 2^53, which is an argument; `mul_f64` is computed exactly and rounded down.
pub mod Bounds
use outbox_dispatcher.Base.{
  ℕ, ◌+◌, ◌-◌, ◌*◌, ◌/◌, ◌^◌, max, Option, none, some, List, [], ◌∷◌, get_elem?,
}
use outbox_dispatcher.Schema.{Duration, Time, from_secs}

-- `slice::last`.
abbrev pub last : List Duration → Option Duration
last [] = none
last (x ∷ []) = some x
last (x ∷ y ∷ xs) = last (y ∷ xs)

abbrev or_else : Option Duration → Option Duration → Option Duration
or_else none other = other
or_else (some d) other = some d

abbrev unwrap_or : Option Duration → Duration → Duration
unwrap_or none d = d
unwrap_or (some x) d = x

-- The schedule's entry for an attempt: the last one repeats, and an empty schedule gives 60 s.
unfoldable pub base_delay : ℕ → List Duration → Duration
base_delay attempt backoff_schedule =
    let index = max attempt 1 - 1 in
    unwrap_or (or_else (get_elem? backoff_schedule index) (last backoff_schedule)) (from_secs 60)

-- `retry_after` is a floor.
pub floor_delay : Option Duration → Duration → Duration
floor_delay none base = base
floor_delay (some after) base = max after base

-- `delay.mul_f64(1.0 + (random * 0.5 - 0.25))`.
jittered : Duration → ℕ → Duration
jittered delay r = delay * (3 * 2 ^ 53 + 2 * r) / (4 * 2 ^ 53)

pub compute_next_available_at : ℕ → Option Duration → List Duration → (random now : ℕ) → Time
compute_next_available_at attempt retry_after backoff_schedule random now =
    now + jittered (floor_delay retry_after (base_delay attempt backoff_schedule)) random
