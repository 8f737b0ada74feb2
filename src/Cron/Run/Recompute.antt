-- ===== src/Cron/Run/Recompute.antt =====
-- What is due after a start and after a round of due jobs.
use kabot.Base.{
  ℕ, suc, ◌≡◌, refl, Bool, true, false, not, ◌&&◌, String, Option, none, some, List, [], ◌∷◌, map,
  any, keep, arith, empty,
}
use kabot.Base.Int.{ℤ, ◌<ℤ◌, ◌≤ℤ◌}
use kabot.Cron.Types.{CronJob, CronSchedule}
use kabot.Cron.Schedule.{compute_next_run}
use kabot.Cron.Schedule.Next.{IsAfter, compute_next_run-after}
use kabot.Cron.Service.{CronService, load_store}
use kabot.Cron.Run.{
  is_one_shot, RunTimes, Outcome, is_due, recompute_job, recompute_next_runs, start, record_run,
}
use kabot.Cron.Run.Due.{settle}
use kabot.Cron.Run.Wake.{reached}

any-keep :
    (p q : CronJob → Bool) (jobs : List CronJob) → any p jobs ≡ false → any p (keep q jobs) ≡ false
any-keep p q [] h = refl
any-keep p q (job ∷ jobs) h = ground (arith, any-keep p q jobs)

later_unreached :
    (now later : ℤ) (o : Option ℤ)
    → now ≤ℤ later
    → ((t : ℤ) → o ≡ some t → later <ℤ t)
    → reached now o ≡ false
later_unreached now later none h f = refl
later_unreached now later (some t) h f = ground (arith, f t refl)

module _ (cron_next : String → ℤ → Option ℤ) (after : IsAfter cron_next) where
  unreached :
      (schedule : CronSchedule) (now later : ℤ)
      → now ≤ℤ later
      → reached now (compute_next_run cron_next schedule later) ≡ false
  unreached schedule now later h =
      later_unreached now later (compute_next_run cron_next schedule later) h
        (λ t e. compute_next_run-after cron_next after schedule later t e)

  recompute_job_idle :
      (now : ℤ) (job : CronJob) → is_due now (recompute_job cron_next now job) ≡ false
  unfolding is_due recompute_job
  recompute_job_idle now job = ground (arith, unreached job.schedule now now (omega arith))

  recompute_all_idle :
      (now : ℤ) (jobs : List CronJob)
      → any (is_due now) (map (recompute_job cron_next now) jobs) ≡ false
  recompute_all_idle now [] = refl
  recompute_all_idle now (job ∷ jobs) =
      ground (arith, recompute_job_idle now job, recompute_all_idle now jobs)

  -- If the expression library gives only later times, no job is due after a start: what was missed
  -- while the service was down is rescheduled, or dropped where it was to run once.
  pub start_idle :
      (now : ℤ) (s : CronService) → any (is_due now) (start cron_next now s).jobs ≡ false
  unfolding start recompute_next_runs
  start_idle now s = ground (
    arith,
    recompute_all_idle now (load_store (record s { running = true })).jobs,
    any-keep (is_due now) (λ job. not (empty job.id))
        (map (recompute_job cron_next now) (load_store (record s { running = true })).jobs),
  )

  record_run_idle :
      (now : ℤ) (job : CronJob) (t : RunTimes) (outcome : Outcome)
      → now ≤ℤ t.rescheduled
      → (is_one_shot job.schedule.kind && job.delete_after_run) ≡ false
      → is_due now (record_run cron_next job t outcome job) ≡ false
  unfolding is_due record_run
  record_run_idle now job t outcome h e = ground (arith, unreached job.schedule now t.rescheduled h)

  module _ (outcome_of : CronJob → Outcome) (now : ℤ) where
    -- If the expression library gives only later times and the clock does not go back, no job is
    -- due once the due jobs have run and been settled.
    pub settle_idle_after :
        (times : ℕ → RunTimes) (i : ℕ) (jobs : List CronJob)
        → ((k : ℕ) → now ≤ℤ (times k).rescheduled)
        → any (is_due now) (settle cron_next outcome_of now times i jobs) ≡ false
    unfolding settle
    settle_idle_after times i [] h = refl
    settle_idle_after times i (job ∷ jobs) h = ground (
      arith,
      settle_idle_after times (suc i) jobs h,
      record_run_idle now job (times i) (outcome_of job) (h i),
    )
