-- ===== src/Weixin/Connection/Backoff.antt =====
-- The delay before a retry: what the loop of CalculateBackoffMs computes.
use native.Mathlib.Nat.{pow-zero, pow-suc, pow-le-pow_right}
use kabot.Base.{ℕ, zero, suc, ◌-◌, ◌*◌, ◌^◌, ◌≤◌, ◌<◌, ◌⊎◌, min, ◌≡◌, arith}
use kabot.Weixin.Connection.{
  ConnectionManager, max_retry_delay_ms, initial_retry_delay_ms, backoff_loop, calculate_backoff_ms,
}

one-le-pow_two : (n : ℕ) → 1 ≤ 2 ^ n
one-le-pow_two zero = omega (arith, pow-zero 2)
one-le-pow_two (suc n) = omega (arith, pow-suc 2 n, one-le-pow_two n)

two_pow_mono : (i j : ℕ) → i ≤ j → 2 ^ i ≤ 2 ^ j
two_pow_mono i j h = pow-le-pow_right {n = 2} (omega arith) h

pow_regroup : (delay n : ℕ) → delay * 2 * 2 ^ n ≡ delay * 2 ^ suc n
pow_regroup delay n = rw (pow-suc 2 n) (omega arith)

capped : (delay n : ℕ) → max_retry_delay_ms ≤ delay → max_retry_delay_ms ≤ delay * 2 ^ n
capped delay n h = grind (arith, one-le-pow_two n)

-- The loop doubles until the cap is reached, so under the cap it agrees with the power of 2.
backoff_loop-pow :
    (rounds delay : ℕ)
    → min (backoff_loop rounds delay) max_retry_delay_ms
      ≡ min (delay * 2 ^ rounds) max_retry_delay_ms
unfolding backoff_loop
backoff_loop-pow zero delay = omega arith
backoff_loop-pow (suc rounds) delay = ground (
  arith,
  backoff_loop-pow rounds (delay * 2),
  pow_regroup delay rounds,
  capped delay (suc rounds),
)

-- The delay is the initial delay doubled once for each earlier attempt, capped at the maximum.
pub calculate_backoff_ms-pow :
    (m : ConnectionManager)
    → calculate_backoff_ms m
      ≡ min (initial_retry_delay_ms * 2 ^ (m.retry_attempt - 1)) max_retry_delay_ms
unfolding calculate_backoff_ms
calculate_backoff_ms-pow m = backoff_loop-pow (m.retry_attempt - 1) initial_retry_delay_ms

-- No delay passes the maximum or falls below the initial one.
pub calculate_backoff_ms_bounds :
    (m : ConnectionManager)
    → (initial_retry_delay_ms ≤ calculate_backoff_ms m)
      × (calculate_backoff_ms m ≤ max_retry_delay_ms)
calculate_backoff_ms_bounds m =
    omega (arith, calculate_backoff_ms-pow m, one-le-pow_two (m.retry_attempt - 1))

-- The more attempts have failed, the longer the delay.
pub calculate_backoff_ms_mono :
    (m n : ConnectionManager)
    → m.retry_attempt ≤ n.retry_attempt
    → calculate_backoff_ms m ≤ calculate_backoff_ms n
calculate_backoff_ms_mono m n h = omega (
  arith,
  calculate_backoff_ms-pow m,
  calculate_backoff_ms-pow n,
  two_pow_mono (m.retry_attempt - 1) (n.retry_attempt - 1) (omega arith),
)

first_two : (r : ℕ) → r < 3 → 0 < r → (r ≡ 1) ⊎ (r ≡ 2)
first_two r h k = ground arith

loop_none :
    (r : ℕ) → r ≡ 1 → min (backoff_loop (r - 1) initial_retry_delay_ms) max_retry_delay_ms ≡ 1000
unfolding backoff_loop
loop_none r h = rw h

loop_one :
    (r : ℕ) → r ≡ 2 → min (backoff_loop (r - 1) initial_retry_delay_ms) max_retry_delay_ms ≡ 2000
unfolding backoff_loop
loop_one r h = rw h

pub early_delay :
    (m : ConnectionManager)
    → m.retry_attempt < 3
    → 0 < m.retry_attempt
    → (calculate_backoff_ms m ≡ 1000) ⊎ (calculate_backoff_ms m ≡ 2000)
unfolding calculate_backoff_ms
early_delay m h k =
    ground (arith, first_two m.retry_attempt, loop_none m.retry_attempt, loop_one m.retry_attempt)
