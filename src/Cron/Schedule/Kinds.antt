-- ===== src/Cron/Schedule/Kinds.antt =====
-- The names of the schedule kinds in the job file.
use kabot.Base.{◌≡◌, refl}
use kabot.Cron.Types.{CronScheduleKind, at, every, cron}
use kabot.Cron.Schedule.{schedule_kind_to_string, schedule_kind_from_string}

-- Reading back the name that was written gives the kind.
pub schedule_kind_from_string-to_string :
    (k : CronScheduleKind) → schedule_kind_from_string (schedule_kind_to_string k) ≡ k
unfolding schedule_kind_from_string schedule_kind_to_string
schedule_kind_from_string-to_string at = refl
schedule_kind_from_string-to_string every = refl
schedule_kind_from_string-to_string cron = refl
