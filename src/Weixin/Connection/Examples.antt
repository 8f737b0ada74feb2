-- ===== src/Weixin/Connection/Examples.antt =====
-- Managers after a few failures, for the theorems of src/weixin/monitor/connection_manager.cpp.
use kabot.Base.{◌≡◌, ◌⊎◌, refl, true, false}
use kabot.Base.Int.{ℤ, negsuc}
use kabot.Weixin.Connection.{
  ConnectionManager, new, record_failure, should_pause, is_session_expired,
}
use kabot.Weixin.Connection.Retry.{Reachable, start, step, failure, Reachable-delay}

abbrev network_error : ℤ
network_error = negsuc 0

abbrev session_expired : ℤ
session_expired = negsuc 13

abbrev failed_once : ConnectionManager
failed_once = (record_failure new network_error 100).manager

abbrev failed_twice : ConnectionManager
failed_twice = (record_failure failed_once network_error 1100).manager

abbrev cooling : ConnectionManager
cooling = (record_failure failed_twice network_error 3100).manager

abbrev expired_cooling : ConnectionManager
expired_cooling = (record_failure cooling session_expired 4000).manager

failed_once-Reachable : Reachable failed_once
failed_once-Reachable = step start (failure new network_error 100)

failed_twice-Reachable : Reachable failed_twice
failed_twice-Reachable = step failed_once-Reachable (failure failed_once network_error 1100)

cooling-Reachable : Reachable cooling
cooling-Reachable = step failed_twice-Reachable (failure failed_twice network_error 3100)

expired_cooling-Reachable : Reachable expired_cooling
expired_cooling-Reachable = step cooling-Reachable (failure cooling session_expired 4000)

failed_once_retries : (record_failure failed_once network_error 1100).retry ≡ true
unfolding record_failure new
failed_once_retries = refl

expired_cooling_pauses : should_pause expired_cooling 5000 ≡ true
unfolding should_pause record_failure new
expired_cooling_pauses = refl

session_expired_code : is_session_expired session_expired ≡ true
unfolding is_session_expired
session_expired_code = refl

failed_once_warm : failed_once.in_cooldown ≡ false
unfolding record_failure new
failed_once_warm = refl

Reachable-delay_example :
    ((record_failure failed_once network_error 1100).output_delay_ms ≡ 1000)
    ⊎ ((record_failure failed_once network_error 1100).output_delay_ms ≡ 2000)
Reachable-delay_example =
    Reachable-delay failed_once network_error 1100 failed_once-Reachable failed_once_retries
