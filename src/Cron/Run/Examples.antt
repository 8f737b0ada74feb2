-- ===== src/Cron/Run/Examples.antt =====
-- Services of src/cron/cron_service.cpp with jobs that are due, and a schedule.
use kabot.Base.{
  ℕ, ◌≡◌, refl, true, false, String, Option, none, some, [], ◌∷◌, any, arith, if◌then◌else◌,
}
use kabot.Base.Int.{ℤ, pos, ◌+ℤ◌, ◌≤ℤ◌, +ℤ_parts}
use kabot.Cron.Types.{
  CronJob, CronSchedule, every, cron, default_job, default_schedule, default_state,
}
use kabot.Cron.Schedule.{compute_next_run}
use kabot.Cron.Schedule.Next.{IsAfter}
use kabot.Cron.Service.{CronService, load_store, get_next_wake_ms}
use kabot.Cron.Run.{
  Outcome, returns, RunTimes, is_due, cleared, run_handler, due_step, run_due_jobs,
}
use kabot.Cron.Run.Middle.{Distinct}
use kabot.Cron.Run.Due.{settle, run_due_jobs-settle}
use kabot.Cron.Run.Wake.{reached, reached-get_next_wake_ms}
use kabot.Cron.Run.Removal.{removes_itself, due_step-removes_itself}

-- A cron expression that fires once a minute.
abbrev minutely : String → ℤ → Option ℤ
minutely expr now = some (now +ℤ pos 60000)

minutely-IsAfter : IsAfter minutely
minutely-IsAfter expr now t h = ground (arith, h, +ℤ_parts now (pos 60000))

abbrev hourly : CronSchedule
hourly = record default_schedule { kind = every; every_ms = some (pos 3600000) }

abbrev backup : CronJob
backup = record default_job {
  id = "backup";
  schedule = hourly;
  state = record default_state { next_run_at_ms = some (pos 1000) };
}

abbrev report : CronJob
report = record default_job {
  id = "report";
  schedule = record default_schedule { kind = cron; expr = "* * * * *" };
  state = record default_state { next_run_at_ms = some (pos 9000) };
}

abbrev service : CronService
service = record { running = true; loaded = true; jobs = backup ∷ report ∷ []; saved = none }

abbrev outcome_ok : CronJob → Outcome
outcome_ok job = returns

abbrev at_two_seconds : RunTimes
at_two_seconds = record { start = pos 2000; updated = pos 2001; rescheduled = pos 2002 }

abbrev times : ℕ → RunTimes
times i = at_two_seconds

service-Distinct : Distinct (backup ∷ report ∷ [])
service-Distinct = (refl, refl, (refl, refl, tt))

hourly_next : compute_next_run minutely hourly (pos 2000) ≡ some (pos 3602000)
unfolding compute_next_run ◌+ℤ◌
hourly_next = refl

backup_due : is_due (pos 2000) backup ≡ true
unfolding is_due
backup_due = refl

not_before : (k : ℕ) → pos 2000 ≤ℤ (times k).rescheduled
not_before k = omega arith

abbrev always_ok : CronJob → CronService → CronService × Outcome
always_ok job s = (s, returns)

always_ok-quiet :
    (job : CronJob) (s : CronService) → run_handler (some always_ok) job s ≡ (s, outcome_ok job)
always_ok-quiet job s = refl

run_due_jobs-settle_example :
    run_due_jobs minutely (some always_ok) times (pos 2000) service
    ≡ some (record service {
      jobs = settle minutely outcome_ok (pos 2000) times 0 service.jobs;
      saved =
          if any (is_due (pos 2000)) service.jobs
          then some (settle minutely outcome_ok (pos 2000) times 0 service.jobs)
          else none;
    })
unfolding load_store
run_due_jobs-settle_example =
    run_due_jobs-settle minutely (some always_ok) outcome_ok always_ok-quiet (pos 2000) times
      service refl service-Distinct

reached-get_next_wake_ms_example :
    reached (pos 2000) (get_next_wake_ms service) ≡ any (is_due (pos 2000)) service.jobs
reached-get_next_wake_ms_example = reached-get_next_wake_ms service (pos 2000)

due_step-removes_itself_example :
    due_step minutely
      (some removes_itself)
      at_two_seconds
      (pos 2000)
      0
      (record service { loaded = true; jobs = backup ∷ report ∷ [] }, false)
    ≡ some (
      record service { loaded = true; jobs = cleared report ∷ []; saved = some (report ∷ []) },
      true,
    )
due_step-removes_itself_example =
    due_step-removes_itself minutely at_two_seconds (pos 2000) service false backup report []
      service-Distinct backup_due
