-- ===== src/Cron/Run.antt =====
-- src/cron/cron_service.cpp: running the jobs of the service (ExecuteJob, RunJob, RunDueJobs) and
-- its start (RecomputeNextRuns, Start). Readings of the clock and the job handler are arguments. The
-- handler may change the service while a job runs, since an agent's turn can call the cron tool.
pub mod Middle
pub mod Due
pub mod Wake
pub mod Removal
pub mod Recompute
mod Examples
use kabot.Base.{
  ℕ, zero, suc, ◌+◌, Bool, true, false, not, ◌&&◌, ◌||◌, String, Option, none, some, List, [], ◌∷◌,
  ◌++◌, map, length, ltb, str_eq, empty, if◌then◌else◌, keep, get_elem?, set, is_some, find_first,
  any,
}
use kabot.Base.Int.{ℤ, leb_ℤ}
use kabot.Cron.Types.{CronScheduleKind, at, every, cron, CronJob}
use kabot.Cron.Schedule.{compute_next_run}
use kabot.Cron.Service.{CronService, load_store, save_store, has_id, update_first}

-- What on_job_ does: return, throw a std::exception, or throw something else.
pub data Outcome : Type 0 where
  returns : Outcome
  throws : String → Outcome
  throws_unknown : Outcome

-- on_job_ with its effect on the service, and `none` for an empty std::function.
abbrev pub JobHandler : Type 0
JobHandler = Option (CronJob → CronService → CronService × Outcome)

-- The three readings of the clock that one run of a job takes, in their order.
pub record RunTimes : Type 0 where
  pub start : ℤ
  pub updated : ℤ
  pub rescheduled : ℤ

-- A job that is due at a time.
unfoldable pub is_due : ℤ → CronJob → Bool
is_due now job =
    job.enabled && elim job.state.next_run_at_ms [ none ↦ false | some next ↦ leb_ℤ next now ]

abbrev pub is_one_shot : CronScheduleKind → Bool
is_one_shot at = true
is_one_shot every = false
is_one_shot cron = false

abbrev pub status_of : Outcome → String
status_of returns = "ok"
status_of (throws what) = "error"
status_of throws_unknown = "error"

abbrev pub error_of : Outcome → String
error_of returns = ""
error_of (throws what) = what
error_of throws_unknown = "unknown error"

abbrev pub run_handler : JobHandler → CronJob → CronService → CronService × Outcome
run_handler none job s = (s, returns)
run_handler (some on_job) job s = on_job job s

abbrev pub cleared : CronJob → CronJob
cleared job = record job { enabled = false; id = "" }

-- After a run: where the job is to be removed, the reference of the loop, which is the place `i`
-- of the vector, is cleared. `none` is undefined behaviour: the vector has grown under the loop,
-- or the place is gone.
unfoldable pub after_run : ℕ → ℕ → CronService × Bool → Option CronService
after_run size i (s, remove) =
    if ltb size (length s.jobs)
    then none
    else if not remove
    then some s
    else elim (get_elem? s.jobs i) [
      | none ↦ none
      | some job ↦ some (record s { jobs = set s.jobs i (cleared job) })
    ]

abbrev pub erase_cleared : List CronJob → List CronJob
erase_cleared jobs = keep (λ job. not (empty job.id)) jobs

abbrev pub finish : CronService × Bool → CronService
finish (s, changed) =
    if changed
    then record s { jobs = erase_cleared s.jobs; saved = some (erase_cleared s.jobs) }
    else s

module _ (cron_next : String → ℤ → Option ℤ) where
  -- What ExecuteJob writes to the job that it finds again after the handler ran. `snapshot` is the
  -- job as it was before.
  unfoldable pub record_run : CronJob → RunTimes → Outcome → CronJob → CronJob
  record_run snapshot t outcome job =
      if is_one_shot snapshot.schedule.kind
      then (if snapshot.delete_after_run then noted else record noted {
        enabled = false;
        state = record (noted.state) { next_run_at_ms = none };
      })
      else record noted {
        state = record (noted.state) {
          next_run_at_ms = compute_next_run cron_next snapshot.schedule t.rescheduled;
        };
      }
    where
      noted : CronJob
      noted = record job {
        state = record (job.state) {
          last_status = status_of outcome;
          last_error = error_of outcome;
          last_run_at_ms = some t.start;
        };
        updated_at_ms = t.updated;
      }

  -- The result says whether the caller is to remove the job.
  unfoldable pub execute_job : JobHandler → RunTimes → CronJob → CronService → CronService × Bool
  unfolding update_first record_run
  execute_job on_job t snapshot s =
      let (s', outcome) = run_handler on_job snapshot s in
      if any (has_id snapshot.id) s'.jobs
      then (
        record s' { jobs = update_first snapshot.id (record_run snapshot t outcome) s'.jobs },
        is_one_shot snapshot.schedule.kind && snapshot.delete_after_run,
      )
      else (s', true)

  unfoldable pub run_job : JobHandler → RunTimes → CronService → String → Bool → CronService × Bool
  unfolding load_store save_store execute_job
  run_job on_job t s job_id force = elim (find_first (has_id job_id) (load_store s).jobs) [
    | none ↦ (load_store s, false)
    | some job ↦
        if not force && not job.enabled
        then (load_store s, false)
        else (save_store (execute_job on_job t job (load_store s)).0, true)
  ]

  -- One round of the loop of RunDueJobs, at the place `i` of the vector.
  unfoldable pub due_step :
      JobHandler → RunTimes → ℤ → ℕ → CronService × Bool → Option (CronService × Bool)
  due_step on_job t now i (s, changed) = elim (get_elem? s.jobs i) [
    | none ↦ none
    | some job ↦
        if is_due now job
        then elim (after_run (length s.jobs) i (execute_job on_job t job s)) [
          | none ↦ none
          | some s' ↦ some (s', true)
        ]
        else some (s, changed)
  ]

  -- The loop over the places that the vector had at its start; `times i` are the readings of the
  -- round at the place `i`.
  unfoldable pub due_loop :
      JobHandler → (ℕ → RunTimes) → ℤ → ℕ → ℕ → CronService × Bool → Option (CronService × Bool)
  due_loop on_job times now zero i state = some state
  due_loop on_job times now (suc rounds) i state = elim (due_step on_job (times i) now i state) [
    | none ↦ none
    | some state' ↦ due_loop on_job times now rounds (suc i) state'
  ]

  unfoldable pub run_due_jobs : JobHandler → (ℕ → RunTimes) → ℤ → CronService → Option CronService
  unfolding load_store
  run_due_jobs on_job times now s =
      if not s.running
      then some s
      else elim (due_loop on_job times now (length (load_store s).jobs) 0 (load_store s, false)) [
        | none ↦ none
        | some state ↦ some (finish state)
      ]

  recomputed : ℤ → CronJob → CronJob
  recomputed now job = record job {
    state = record (job.state) { next_run_at_ms = compute_next_run cron_next job.schedule now };
  }

  -- The test of RecomputeNextRuns for an enabled one-shot job whose time has passed.
  is_expired : ℤ → CronJob → Bool
  is_expired now job =
      job.enabled
      && not (is_some (compute_next_run cron_next job.schedule now))
      && is_one_shot job.schedule.kind
      && elim job.schedule.at_ms [ none ↦ false | some at_ms ↦ leb_ℤ at_ms now ]

  -- One round of the loop of RecomputeNextRuns.
  unfoldable pub recompute_job : ℤ → CronJob → CronJob
  unfolding recomputed is_expired
  recompute_job now job =
      if is_expired now job
      then cleared (recomputed now job)
      else if job.enabled
      then recomputed now job
      else job

  unfoldable pub recompute_next_runs : ℤ → CronService → CronService
  unfolding recompute_job is_expired
  recompute_next_runs now s = record s {
    jobs =
        let jobs' = map (recompute_job now) s.jobs in
        if any (is_expired now) s.jobs then erase_cleared jobs' else jobs';
  }

  unfoldable pub start : ℤ → CronService → CronService
  unfolding load_store save_store recompute_next_runs
  start now s = save_store (recompute_next_runs now (load_store (record s { running = true })))
