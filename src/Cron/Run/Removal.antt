-- ===== src/Cron/Run/Removal.antt =====
-- RunDueJobs where the handler removes the job that it runs, as an agent's turn does that calls the
-- cron tool to remove its own job.
use kabot.Base.{
  ◌≡◌, refl, Bool, true, false, String, Option, some, List, [], ◌∷◌, any, arith, eq_refl,
}
use kabot.Base.Int.{ℤ}
use kabot.Cron.Types.{CronJob}
use kabot.Cron.Service.{CronService, has_id, erase_id, remove_job}
use kabot.Cron.Run.{RunTimes, Outcome, returns, is_due, cleared, after_run, execute_job, due_step}
use kabot.Cron.Run.Middle.{Distinct}

-- A handler that removes the job it is given.
pub removes_itself : CronJob → CronService → CronService × Outcome
removes_itself job s = ((remove_job s job.id).0, returns)

erase_id_absent :
    (k : String) (jobs : List CronJob) → any (has_id k) jobs ≡ false → erase_id k jobs ≡ jobs
unfolding erase_id
erase_id_absent k [] h = refl
erase_id_absent k (job ∷ jobs) h = ground (arith, erase_id_absent k jobs)

erase_id_head :
    (job : CronJob) (jobs : List CronJob)
    → any (has_id job.id) jobs ≡ false
    → erase_id job.id (job ∷ jobs) ≡ jobs
unfolding erase_id
erase_id_head job jobs h = ground (arith, eq_refl job.id, erase_id_absent job.id jobs h)

module _ (cron_next : String → ℤ → Option ℤ) (t : RunTimes) (now : ℤ) where
  -- If the first of several jobs with distinct ids is due and its handler removes it, the round of
  -- RunDueJobs clears the job behind it, which did not run.
  pub due_step-removes_itself :
      (s : CronService) (c : Bool) (job next : CronJob) (rest : List CronJob)
      → Distinct (job ∷ next ∷ rest)
      → is_due now job ≡ true
      → due_step cron_next
          (some removes_itself)
          t
          now
          0
          (record s { loaded = true; jobs = job ∷ next ∷ rest }, c)
        ≡ some (
          record s { loaded = true; jobs = cleared next ∷ rest; saved = some (next ∷ rest) },
          true,
        )
  unfolding due_step execute_job after_run removes_itself remove_job
  due_step-removes_itself s c job next rest d due = ground (arith, erase_id_head job (next ∷ rest))
