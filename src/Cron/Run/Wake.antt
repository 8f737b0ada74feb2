-- ===== src/Cron/Run/Wake.antt =====
-- GetNextWakeMs against the test of RunDueJobs.
use kabot.Base.{◌≡◌, Bool, false, ◌||◌, Option, none, some, List, [], ◌∷◌, any, arith}
use kabot.Base.Int.{ℤ, leb_ℤ}
use kabot.Cron.Types.{CronJob}
use kabot.Cron.Service.{CronService, wake_step, wake_loop, get_next_wake_ms}
use kabot.Cron.Run.{is_due}

-- A wake-up time that has been reached.
abbrev pub reached : ℤ → Option ℤ → Bool
reached now none = false
reached now (some wake) = leb_ℤ wake now

reached-wake_step :
    (now : ℤ) (next : Option ℤ) (job : CronJob)
    → reached now (wake_step next job) ≡ reached now next || is_due now job
unfolding wake_step is_due
reached-wake_step now next job = ground arith

reached-wake_loop :
    (now : ℤ) (next : Option ℤ) (jobs : List CronJob)
    → reached now (wake_loop next jobs) ≡ reached now next || any (is_due now) jobs
unfolding wake_loop
reached-wake_loop now next [] = ground arith
reached-wake_loop now next (job ∷ jobs) =
    ground (arith, reached-wake_step now next job, reached-wake_loop now (wake_step next job) jobs)

-- The wake-up time is the first time at which a job is due: at any time a job is due exactly if the
-- wake-up time has been reached.
pub reached-get_next_wake_ms :
    (s : CronService) (now : ℤ) → reached now (get_next_wake_ms s) ≡ any (is_due now) s.jobs
unfolding get_next_wake_ms
reached-get_next_wake_ms s now = reached-wake_loop now none s.jobs
