-- ===== src/Cron/Service/Examples.antt =====
-- A service with two jobs, for the theorems on src/cron/cron_service.cpp.
use kabot.Base.{refl, true, false, String, Option, none, some, List, [], ◌∷◌}
use kabot.Base.Int.{ℤ, pos}
use kabot.Cron.Types.{CronJob, default_job}
use kabot.Cron.Service.{CronService}
use kabot.Cron.Service.Store.{Call, adds, removes, enables, lists, Synced}

-- An expression library that knows no expression.
abbrev no_cron : String → ℤ → Option ℤ
no_cron expr now = none

abbrev named : String → CronJob
named id = record default_job { id = id }

abbrev service : CronService
service = record {
  running = true;
  loaded = true;
  jobs = named "backup" ∷ named "report" ∷ [];
  saved = some (named "backup" ∷ named "report" ∷ []);
}

abbrev calls : List Call
calls =
    adds (named "clean") "id1" (pos 5)
    ∷ removes "backup"
    ∷ enables "report" false (pos 6) (pos 7)
    ∷ lists true
    ∷ []

service-Synced : Synced service
service-Synced = record { loaded = refl; on_disk = refl }
