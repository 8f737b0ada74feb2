-- ===== src/Cron/Run/Due.antt =====
-- RunDueJobs, where the handler leaves the service alone: the loop over the vector does to each job
-- what a run of that job alone would do.
use kabot.Base.{
  ℕ, suc, ◌≡◌, refl, ap, ◌∙◌, Bool, true, false, ◌&&◌, String, Option, some, List, [], ◌∷◌, empty,
  if◌then◌else◌, any, arith, eq_refl,
}
use kabot.Base.Int.{ℤ}
use kabot.Cron.Types.{CronJob}
use kabot.Cron.Service.{CronService, load_store, CronService}
use kabot.Cron.Run.{
  JobHandler, RunTimes, Outcome, is_due, record_run, is_one_shot, run_handler, run_due_jobs,
  erase_cleared,
}
use kabot.Cron.Run.Middle.{mark, mark_all, due_loop-middle, Distinct, Apart}

empty-cleared : (b : Bool) (k : String) → empty k ≡ false → empty (if b then "" else k) ≡ b
empty-cleared true k h = eq_refl ""
empty-cleared false k h = h

module _ (cron_next : String → ℤ → Option ℤ) (outcome_of : CronJob → Outcome) (now : ℤ) where
  -- The independent description: the jobs that are left, each with what its own run makes of it.
  unfoldable pub settle : (ℕ → RunTimes) → ℕ → List CronJob → List CronJob
  settle times i [] = []
  settle times i (job ∷ jobs) =
      let rest = settle times (suc i) jobs in
      if is_due now job
      then (if is_one_shot job.schedule.kind && job.delete_after_run
          then rest
          else record_run cron_next job (times i) (outcome_of job) job ∷ rest)
      else job ∷ rest

module _ (cron_next : String → ℤ → Option ℤ) (on_job : JobHandler) (outcome_of : CronJob → Outcome)
    (quiet : (job : CronJob) (s : CronService) → run_handler on_job job s ≡ (s, outcome_of job))
    (now : ℤ) where
  removes : CronJob → Bool
  removes job = is_due now job && (is_one_shot job.schedule.kind && job.delete_after_run)

  id-mark :
      (t : RunTimes) (job : CronJob)
      → (mark cron_next outcome_of now t job).id ≡ (if removes job then "" else job.id)
  unfolding mark record_run removes
  id-mark t job = ground arith

  empty-mark :
      (t : RunTimes) (job : CronJob)
      → empty job.id ≡ false
      → empty (mark cron_next outcome_of now t job).id ≡ removes job
  empty-mark t job h = ap empty (id-mark t job) ∙ empty-cleared (removes job) job.id h

  settle_step :
      (times : ℕ → RunTimes) (i : ℕ) (job : CronJob) (jobs : List CronJob)
      → settle cron_next outcome_of now times i (job ∷ jobs) ≡ (
          if removes job
          then settle cron_next outcome_of now times (suc i) jobs
          else mark cron_next outcome_of now (times i) job
            ∷ settle cron_next outcome_of now times (suc i) jobs)
  unfolding mark settle removes
  settle_step times i job jobs = ground arith

  keep-mark_all :
      (times : ℕ → RunTimes) (i : ℕ) (jobs : List CronJob)
      → Distinct jobs
      → erase_cleared (mark_all cron_next outcome_of now times i jobs)
        ≡ settle cron_next outcome_of now times i jobs
  unfolding mark_all
  keep-mark_all times i [] d = unfold settle in refl
  keep-mark_all times i (job ∷ jobs) d = ground (
    arith,
    keep-mark_all times (suc i) jobs d.2,
    settle_step times i job jobs,
    empty-mark (times i) job d.0,
  )

  settle_idle :
      (times : ℕ → RunTimes) (i : ℕ) (jobs : List CronJob)
      → any (is_due now) jobs ≡ false
      → settle cron_next outcome_of now times i jobs ≡ jobs
  unfolding settle
  settle_idle times i [] h = refl
  settle_idle times i (job ∷ jobs) h = ground (arith, settle_idle times (suc i) jobs)

  mark_all_idle :
      (times : ℕ → RunTimes) (i : ℕ) (jobs : List CronJob)
      → any (is_due now) jobs ≡ false
      → mark_all cron_next outcome_of now times i jobs ≡ jobs
  unfolding mark_all mark
  mark_all_idle times i [] h = refl
  mark_all_idle times i (job ∷ jobs) h = ground (arith, mark_all_idle times (suc i) jobs)

  Apart-nil : (jobs : List CronJob) → Apart [] jobs
  Apart-nil [] = tt
  Apart-nil (job ∷ jobs) = (refl, Apart-nil jobs)

  -- A running service whose jobs have distinct ids, with a handler that leaves the service alone,
  -- meets no undefined behaviour: each due job is rescheduled, disabled or removed as a run of that
  -- job alone says, every other job stays as it is, in its place, and the store file is written
  -- exactly if a job was due.
  pub run_due_jobs-settle :
      (times : ℕ → RunTimes) (s : CronService)
      → s.running ≡ true
      → Distinct (load_store s).jobs
      → run_due_jobs cron_next on_job times now s
        ≡ some (record (load_store s) {
          jobs = settle cron_next outcome_of now times 0 (load_store s).jobs;
          saved =
              if any (is_due now) (load_store s).jobs
              then some (settle cron_next outcome_of now times 0 (load_store s).jobs)
              else (load_store s).saved;
        })
  unfolding run_due_jobs
  run_due_jobs-settle times s r d = ground (
    arith,
    due_loop-middle cron_next on_job outcome_of quiet now times (load_store s) false []
        (load_store s).jobs 0 refl d (Apart-nil _),
    keep-mark_all times 0 (load_store s).jobs d,
    settle_idle times 0 (load_store s).jobs,
    mark_all_idle times 0 (load_store s).jobs,
  )
