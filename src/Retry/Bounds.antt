-- ===== src/Retry/Bounds.antt =====
-- Bounds of the next attempt's time.
use native.Mathlib.Decide.{dec_lt}
use outbox_dispatcher.Base.{
  ℕ, zero, suc, ◌+◌, ◌-◌, ◌*◌, ◌^◌, ◌≤◌, ◌<◌, ◌≡◌, refl, max, min, Option, none, some, List, [],
  ◌∷◌, get_elem?, length, arith,
}
use outbox_dispatcher.Schema.{Duration}
use outbox_dispatcher.Retry.{last, base_delay, floor_delay, jittered, compute_next_available_at}

product_bound : (d r : ℕ) → r < 2 ^ 53 → d * r ≤ d * 2 ^ 53
product_bound d r h = grind arith

-- The jitter keeps the delay within a quarter of it, up to rounding.
jittered_bounds :
    (d r : ℕ) → r < 2 ^ 53 → (3 * d < 4 * (jittered d r + 1)) × (4 * jittered d r ≤ 5 * d)
unfolding jittered
jittered_bounds d r h = omega (arith, product_bound d r h)

last-get_elem? :
    (x : ℕ) (xs : List ℕ)
    → (d : ℕ) × (last (x ∷ xs) ≡ some d) × (get_elem? (x ∷ xs) (length xs) ≡ some d)
last-get_elem? x [] = (x, refl, refl)
last-get_elem? x (y ∷ ys) = last-get_elem? y ys

get_elem?-past : (xs : List ℕ) (i : ℕ) → length xs ≤ i → get_elem? xs i ≡ none
get_elem?-past [] i h = refl
get_elem?-past (x ∷ xs) zero h = elim h [ ]
get_elem?-past (x ∷ xs) (suc i) h = get_elem?-past xs i (omega arith)

get_elem?-within : (xs : List ℕ) (i : ℕ) → i < length xs → (d : ℕ) × (get_elem? xs i ≡ some d)
get_elem?-within [] i h = elim h [ ]
get_elem?-within (x ∷ xs) zero h = (x, refl)
get_elem?-within (x ∷ xs) (suc i) h = get_elem?-within xs i (omega arith)

-- The n-th attempt waits for the n-th entry of the schedule, counted from one, and for the last
-- entry once the schedule is exhausted; attempt zero counts as the first.
pub base_delay-get_elem? :
    (attempt : ℕ) (x : ℕ) (xs : List ℕ)
    → get_elem? (x ∷ xs) (min (max attempt 1 - 1) (length xs)) ≡ some (base_delay attempt (x ∷ xs))
unfolding base_delay
base_delay-get_elem? attempt x xs = elim (dec_lt (max attempt 1 - 1) (length (x ∷ xs))) [
  | yes inside ↦
      let (d, e) = get_elem?-within (x ∷ xs) (max attempt 1 - 1) inside in
      let same : min (max attempt 1 - 1) (length xs) ≡ max attempt 1 - 1 = omega arith in
      rw same (rw e)
  | no past ↦
      let (d, e, e') = last-get_elem? x xs in
      let same : min (max attempt 1 - 1) (length xs) ≡ length xs = omega arith in
      rw same (rw (get_elem?-past (x ∷ xs) (max attempt 1 - 1) (omega arith)) (rw (e, e')))
]

pub compute_next_available_at_bounds :
    (attempt : ℕ) (retry_after : Option Duration) (schedule : List Duration) (random now : ℕ)
    → random < 2 ^ 53
    → let delay = floor_delay retry_after (base_delay attempt schedule) in
      let next = compute_next_available_at attempt retry_after schedule random now in
      (3 * delay < 4 * (next - now + 1)) × (4 * (next - now) ≤ 5 * delay) × (now ≤ next)
unfolding compute_next_available_at
compute_next_available_at_bounds attempt retry_after schedule random now h =
    omega (arith, jittered_bounds (floor_delay retry_after (base_delay attempt schedule)) random h)

-- A `Retry-After` that is longer than the schedule's delay is not a floor for the next attempt: the
-- jitter may shorten it, as it does when the random number is 0.
pub retry_after_undercut :
    (attempt after : ℕ) (schedule : List Duration) (now : ℕ)
    → base_delay attempt schedule ≤ after
    → 0 < after
    → compute_next_available_at attempt (some after) schedule 0 now < now + after
unfolding compute_next_available_at jittered floor_delay
retry_after_undercut attempt after schedule now longer pos = ground arith
