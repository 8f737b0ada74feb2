-- ===== src/Weixin/Connection/Retry.antt =====
-- The managers that a poll loop can reach, and the retries that they allow.
use kabot.Base.{ℕ, ◌+◌, ◌≤◌, ◌<◌, ◌≡◌, ◌⊎◌, ◌≢◌, ◌↔◌, true, false, arith}
use kabot.Base.Int.{ℤ}
use kabot.Weixin.Connection.Backoff.{early_delay}
use kabot.Weixin.Connection.{
  ConnectionManager, new, reset, record_success, record_failure, is_session_expired,
  max_consecutive_failures,
}

-- One call of an operation that writes the manager; a failure carries its code and its time.
pub data Step : ConnectionManager → ConnectionManager → Type 0 where
  success : (m : ConnectionManager) → Step m (record_success m)
  failure :
      (m : ConnectionManager) (errcode : ℤ) (now : ℕ)
      → Step m ((record_failure m errcode now).manager)
  resetting : (m : ConnectionManager) → Step m (reset m)

pub data Reachable : ConnectionManager → Type 0 where
  start : Reachable new
  step : {m n : ConnectionManager} → Reachable m → Step m n → Reachable n

pub record Inv (m : ConnectionManager) : Type 0 where
  pub attempts_counted : m.retry_attempt ≤ m.consecutive_failures
  pub attempts_capped : m.retry_attempt < max_consecutive_failures
  pub cooldown_earned : m.in_cooldown ≡ true → max_consecutive_failures ≤ m.consecutive_failures
  pub started_in_cooldown : m.cooldown_start_time_ms ≢ 0 → m.in_cooldown ≡ true

failure-Inv :
    (m : ConnectionManager) (errcode : ℤ) (now : ℕ)
    → Inv m
    → Inv ((record_failure m errcode now).manager)
unfolding record_failure
failure-Inv m errcode now v = ground arith

pub Step-Inv : {m n : ConnectionManager} → Step m n → Inv m → Inv n
unfolding record_success reset
Step-Inv (success m) v = ground arith
Step-Inv (failure m errcode now) v = failure-Inv m errcode now v
Step-Inv (resetting m) v = ground arith

pub Reachable-Inv : {m : ConnectionManager} → Reachable m → Inv m
unfolding new
Reachable-Inv start = ground arith
Reachable-Inv (step r s) = Step-Inv s (Reachable-Inv r)

-- A failure is retried exactly when the session has not expired and fewer than the maximum of
-- consecutive failures have been counted, this one included.
pub record_failure-retry :
    (m : ConnectionManager) (errcode : ℤ) (now : ℕ)
    → ((record_failure m errcode now).retry ≡ true) ↔ (
        (is_session_expired errcode ≡ false)
        × (m.consecutive_failures + 1 < max_consecutive_failures))
unfolding record_failure
record_failure-retry m errcode now = (λ h. ground arith, λ h. ground arith)

-- On a reachable manager, a failure that is to be retried is retried after one or two seconds.
pub Reachable-delay :
    (m : ConnectionManager) (errcode : ℤ) (now : ℕ)
    → Reachable m
    → (record_failure m errcode now).retry ≡ true
    → ((record_failure m errcode now).output_delay_ms ≡ 1000)
      ⊎ ((record_failure m errcode now).output_delay_ms ≡ 2000)
unfolding record_failure
Reachable-delay m errcode now r h =
    let v : Inv m = Reachable-Inv r in
    ground (
      arith,
      early_delay (record m {
        consecutive_failures = m.consecutive_failures + 1;
        retry_attempt = m.retry_attempt + 1;
      }),
    )
