-- ===== src/Cron/Run/Middle.antt =====
-- The loop of RunDueJobs in src/cron/cron_service.cpp, from any place in the vector, where the handler leaves the
-- service alone.
use kabot.Base.{
  ℕ, suc, ◌≡◌, ◌⊎◌, Bool, true, false, ◌&&◌, ◌||◌, String, Option, some, List, [], ◌∷◌, ◌++◌,
  length, empty, if◌then◌else◌, any, arith, eq_iff, eq_refl, any-append, any-middle, set-middle,
  get_elem?-middle, length-append, append_assoc,
}
use kabot.Base.Int.{ℤ}
use kabot.Cron.Types.{CronJob}
use kabot.Cron.Service.{CronService, has_id, update_first, CronService}
use kabot.Cron.Run.{
  JobHandler, RunTimes, Outcome, is_due, record_run, is_one_shot, cleared, after_run, execute_job,
  run_handler, due_step, due_loop,
}

update_first-middle :
    (k : String) (f : CronJob → CronJob) (done : List CronJob) (job : CronJob) (todo : List CronJob)
    → any (has_id k) done ≡ false
    → has_id k job ≡ true
    → update_first k f (done ++ job ∷ todo) ≡ done ++ f job ∷ todo
unfolding update_first
update_first-middle k f [] job todo h e = ground arith
update_first-middle k f (d ∷ done) job todo h e =
    ground (arith, update_first-middle k f done job todo)

-- No two jobs share an id, and none is empty.
abbrev pub Distinct : List CronJob → Type 0
Distinct [] = Unit {0}
Distinct (job ∷ jobs) = (empty job.id ≡ false) × (any (has_id job.id) jobs ≡ false) × Distinct jobs

-- No job of the second list has the id of one of the first.
abbrev pub Apart : List CronJob → List CronJob → Type 0
Apart done [] = Unit {0}
Apart done (job ∷ jobs) = (any (has_id job.id) done ≡ false) × Apart done jobs

module _ (cron_next : String → ℤ → Option ℤ) (outcome_of : CronJob → Outcome) (now : ℤ) where
  -- What the run of one job makes of it; a job that is to be removed is cleared.
  unfoldable pub mark : RunTimes → CronJob → CronJob
  mark t job =
      let ran = record_run cron_next job t (outcome_of job) job in
      if is_due now job
      then (if is_one_shot job.schedule.kind && job.delete_after_run then cleared ran else ran)
      else job

  unfoldable pub mark_all : (ℕ → RunTimes) → ℕ → List CronJob → List CronJob
  mark_all times i [] = []
  mark_all times i (job ∷ jobs) = mark (times i) job ∷ mark_all times (suc i) jobs

module _ (cron_next : String → ℤ → Option ℤ) (on_job : JobHandler) (outcome_of : CronJob → Outcome)
    (quiet : (job : CronJob) (s : CronService) → run_handler on_job job s ≡ (s, outcome_of job))
    (now : ℤ) where
  abbrev with_jobs : CronService → List CronJob → CronService
  with_jobs s jobs = record s { jobs = jobs }

  execute_job-middle :
      (t : RunTimes) (s : CronService) (done : List CronJob) (job : CronJob) (todo : List CronJob)
      → any (has_id job.id) done ≡ false
      → execute_job cron_next on_job t job (with_jobs s (done ++ job ∷ todo)) ≡ (
        with_jobs s (done ++ record_run cron_next job t (outcome_of job) job ∷ todo),
        is_one_shot job.schedule.kind && job.delete_after_run,
      )
  unfolding execute_job
  execute_job-middle t s done job todo h = rw (
    quiet job (record s { jobs = done ++ job ∷ todo }),
    any-middle (has_id job.id) done job todo (eq_refl job.id),
    update_first-middle job.id (record_run cron_next job t (outcome_of job)) done job todo h
        (eq_refl job.id),
  )

  after_run-middle :
      (s : CronService) (done : List CronJob) (job ran : CronJob) (todo : List CronJob) (b : Bool)
      → after_run (length (done ++ job ∷ todo)) (length done) (with_jobs s (done ++ ran ∷ todo), b)
        ≡ some (with_jobs s (done ++ (if b then cleared ran else ran) ∷ todo))
  unfolding after_run
  after_run-middle s done job ran todo b = ground (
    arith,
    length-append done (job ∷ todo),
    length-append done (ran ∷ todo),
    get_elem?-middle done ran todo,
    set-middle done ran (cleared ran) todo,
  )

  due_step-middle :
      (t : RunTimes) (s : CronService) (c : Bool) (done : List CronJob) (job : CronJob)
      (todo : List CronJob)
      → any (has_id job.id) done ≡ false
      → due_step cron_next on_job t now (length done) (with_jobs s (done ++ job ∷ todo), c)
        ≡ some
            (with_jobs s (done ++ mark cron_next outcome_of now t job ∷ todo), c || is_due now job)
  unfolding due_step mark
  due_step-middle t s c done job todo h = ground (
    arith,
    get_elem?-middle done job todo,
    execute_job-middle t s done job todo h,
    after_run-middle s done job (record_run cron_next job t (outcome_of job) job) todo
        (is_one_shot job.schedule.kind && job.delete_after_run),
  )

  mark-id :
      (t : RunTimes) (job : CronJob)
      → ((mark cron_next outcome_of now t job).id ≡ job.id)
        ⊎ ((mark cron_next outcome_of now t job).id ≡ "")
  unfolding mark record_run
  mark-id t job = ground arith

  Apart-extend :
      (job m : CronJob) (done todo : List CronJob)
      → (m.id ≡ job.id) ⊎ (m.id ≡ "")
      → any (has_id job.id) todo ≡ false
      → Distinct todo
      → Apart done todo
      → Apart (done ++ m ∷ []) todo
  Apart-extend job m done [] h e d a = tt
  Apart-extend job m done (j ∷ todo) h e d a = (
    ground (
      arith,
      any-append (has_id j.id) done (m ∷ []),
      eq_iff m.id j.id,
      eq_iff job.id j.id,
      eq_iff j.id job.id,
      eq_iff j.id "",
    ),
    Apart-extend job m done todo h (ground arith) d.2 a.1,
  )

  pub due_loop-middle :
      (times : ℕ → RunTimes) (s : CronService) (c : Bool) (done todo : List CronJob) (i : ℕ)
      → i ≡ length done
      → Distinct todo
      → Apart done todo
      → due_loop cron_next on_job times now (length todo) i (with_jobs s (done ++ todo), c)
        ≡ some (
          with_jobs s (done ++ mark_all cron_next outcome_of now times i todo),
          c || any (is_due now) todo,
        )
  unfolding due_loop mark_all
  due_loop-middle times s c done [] i e d a = ground arith
  due_loop-middle times s c done (job ∷ todo) i e d a = ground (
    arith,
    due_step-middle (times i) s c done job todo a.0,
    append_assoc done (mark cron_next outcome_of now (times i) job ∷ []) todo,
    append_assoc done (mark cron_next outcome_of now (times i) job ∷ [])
        (mark_all cron_next outcome_of now times (suc i) todo),
    due_loop-middle times s (c || is_due now job)
        (done ++ mark cron_next outcome_of now (times i) job ∷ []) todo (suc i)
        (omega (arith, e, length-append done (mark cron_next outcome_of now (times i) job ∷ [])))
        d.2
        (Apart-extend job (mark cron_next outcome_of now (times i) job) done todo
          (mark-id (times i) job) d.1 d.2 a.1),
  )
