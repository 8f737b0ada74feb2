-- ===== src/Weixin/Connection.antt =====
-- src/weixin/monitor/connection_manager.{hpp,cpp} and the session-expiry test of
-- src/weixin/api/api_types.hpp: the failure counters and the reconnection delays of a WeChat poll
-- loop. The clock is an argument of each operation. Counters and times are unbounded; the elapsed
-- time of a clock that runs backwards counts as 0 here and is negative in the source, and both are
-- below every duration that it is compared with.
pub mod Backoff
pub mod Retry
pub mod Pause
mod Examples
use kabot.Base.{
  ℕ, zero, suc, ◌+◌, ◌-◌, ◌*◌, Bool, true, false, not, ◌&&◌, ltb, leb, ◌==◌, if◌then◌else◌, min,
}
use kabot.Base.Int.{ℤ, pos, negsuc}

abbrev pub max_consecutive_failures : ℕ
max_consecutive_failures = 3

abbrev pub initial_retry_delay_ms : ℕ
initial_retry_delay_ms = 1000

abbrev pub max_retry_delay_ms : ℕ
max_retry_delay_ms = 30000

abbrev pub cooldown_period_sec : ℕ
cooldown_period_sec = 30

abbrev pub session_expiration_pause_sec : ℕ
session_expiration_pause_sec = 3600

pub record ConnectionManager : Type 0 where
  pub consecutive_failures : ℕ
  pub retry_attempt : ℕ
  pub in_cooldown : Bool
  pub should_pause : Bool
  pub cooldown_start_time_ms : ℕ

unfoldable pub new : ConnectionManager
new = record {
  consecutive_failures = 0;
  retry_attempt = 0;
  in_cooldown = false;
  should_pause = false;
  cooldown_start_time_ms = 0;
}

-- APIError::IsSessionExpired on the error's code.
unfoldable pub is_session_expired : ℤ → Bool
is_session_expired (negsuc n) = n == 13
is_session_expired (pos n) = false

unfoldable pub record_success : ConnectionManager → ConnectionManager
record_success m = record m {
  consecutive_failures = 0;
  retry_attempt = 0;
  in_cooldown = false;
  should_pause = false;
  cooldown_start_time_ms = 0;
}

unfoldable pub reset : ConnectionManager → ConnectionManager
reset m = record m {
  consecutive_failures = 0;
  retry_attempt = 0;
  in_cooldown = false;
  should_pause = false;
  cooldown_start_time_ms = 0;
}

-- The loop of CalculateBackoffMs, with the rounds `retry_attempt - 1` that the counter `i` leaves.
unfoldable pub backoff_loop : ℕ → ℕ → ℕ
backoff_loop zero delay = delay
backoff_loop (suc rounds) delay =
    let next = backoff_loop rounds (delay * 2) in
    if ltb delay max_retry_delay_ms then next else delay

unfoldable pub calculate_backoff_ms : ConnectionManager → ℕ
calculate_backoff_ms m =
    min (backoff_loop (m.retry_attempt - 1) initial_retry_delay_ms) max_retry_delay_ms

-- What RecordFailure returns, and what it writes to `output_delay_ms`.
pub record FailureOutcome : Type 0 where
  pub manager : ConnectionManager
  pub retry : Bool
  pub output_delay_ms : ℕ

unfoldable pub record_failure : ConnectionManager → ℤ → ℕ → FailureOutcome
unfolding is_session_expired
record_failure m errcode now =
    if is_session_expired errcode
    then record {
      manager = record m { should_pause = true };
      retry = false;
      output_delay_ms = session_expiration_pause_sec * 1000;
    }
    else (if leb max_consecutive_failures counted.consecutive_failures
        then record {
          manager = record counted { in_cooldown = true; cooldown_start_time_ms = now };
          retry = false;
          output_delay_ms = cooldown_period_sec * 1000;
        }
        else record {
          manager = retried;
          retry = true;
          output_delay_ms = calculate_backoff_ms retried;
        })
  where
    counted : ConnectionManager
    counted = record m { consecutive_failures = m.consecutive_failures + 1 }

    retried : ConnectionManager
    retried = record counted { retry_attempt = counted.retry_attempt + 1 }

unfoldable pub is_healthy : ConnectionManager → Bool
is_healthy m = m.consecutive_failures == 0 && not m.in_cooldown && not m.should_pause

unfoldable pub is_cooldown_elapsed : ConnectionManager → ℕ → Bool
is_cooldown_elapsed m now =
    if m.cooldown_start_time_ms == 0
    then true
    else leb
        (if m.in_cooldown then cooldown_period_sec * 1000 else session_expiration_pause_sec * 1000)
        (now - m.cooldown_start_time_ms)

unfoldable pub should_pause : ConnectionManager → ℕ → Bool
unfolding is_cooldown_elapsed
should_pause m now =
    if not m.should_pause then false else if is_cooldown_elapsed m now then false else true
