-- ===== src/Weixin/Connection/Pause.antt =====
-- How long an expired session pauses the poll loop.
use kabot.Base.{ℕ, ◌+◌, ◌*◌, ◌<◌, ◌≡◌, true, false, arith}
use kabot.Base.Int.{ℤ}
use kabot.Weixin.Connection.{
  ConnectionManager, record_failure, should_pause, is_session_expired, cooldown_period_sec,
}
use kabot.Weixin.Connection.Retry.{Inv, Reachable, Reachable-Inv}

-- A reachable manager pauses only within the cooldown period after the start of its last cooldown.
pub Reachable-should_pause :
    (m : ConnectionManager) (now : ℕ)
    → Reachable m
    → should_pause m now ≡ true
    → now < m.cooldown_start_time_ms + cooldown_period_sec * 1000
unfolding should_pause
Reachable-should_pause m now r h = let v : Inv m = Reachable-Inv r in ground arith

-- On a reachable manager that is not in a cooldown, ShouldPause is false at every time after a
-- failure with the code of an expired session.
pub expired-should_pause :
    (m : ConnectionManager) (errcode : ℤ) (now later : ℕ)
    → Reachable m
    → m.in_cooldown ≡ false
    → is_session_expired errcode ≡ true
    → should_pause (record_failure m errcode now).manager later ≡ false
unfolding should_pause record_failure
expired-should_pause m errcode now later r c e = let v : Inv m = Reachable-Inv r in ground arith
