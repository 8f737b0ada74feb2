-- ===== src/Cron/Service/Store.antt =====
-- Adding, removing and enabling jobs: what changes, what stays, and what the store file holds.
use kabot.Base.{
  ◌≡◌, ◌≢◌, refl, Bool, true, false, not, String, Option, none, some, List, [], ◌∷◌, length, ltb,
  if◌then◌else◌, keep, any, arith, find_first, eq_iff, length-keep-le,
}
use kabot.Base.Int.{ℤ}
use kabot.Cron.Types.{CronJob}
use kabot.Cron.Schedule.{compute_next_run}
use kabot.Cron.Service.{
  CronService, has_id, erase_id, update_first, load_store, remove_job, add_job, enable_job,
  set_enabled, list_jobs,
}

any-erase_id : (k : String) (jobs : List CronJob) → any (has_id k) (erase_id k jobs) ≡ false
unfolding erase_id
any-erase_id k [] = refl
any-erase_id k (job ∷ jobs) = ground (arith, any-erase_id k jobs)

keep-erase_id :
    (k j : String) (jobs : List CronJob)
    → k ≢ j
    → keep (has_id j) (erase_id k jobs) ≡ keep (has_id j) jobs
unfolding erase_id
keep-erase_id k j [] h = refl
keep-erase_id k j (job ∷ jobs) h =
    ground (arith, keep-erase_id k j jobs h, eq_iff job.id k, eq_iff job.id j)

-- Some job goes exactly if the id is there.
ltb-erase_id :
    (k : String) (jobs : List CronJob)
    → ltb (length (erase_id k jobs)) (length jobs) ≡ any (has_id k) jobs
unfolding erase_id
ltb-erase_id k [] = refl
ltb-erase_id k (job ∷ jobs) =
    ground (arith, ltb-erase_id k jobs, length-keep-le (λ x. not (has_id k x)) jobs)

-- RemoveJob reports whether a job had the id; afterwards none has it, and the jobs with any other id
-- are the same, in the same order.
pub remove_job_lem :
    (s : CronService) (k : String)
    → ((remove_job s k).1 ≡ any (has_id k) (load_store s).jobs)
      × (any (has_id k) (remove_job s k).0.jobs ≡ false)
      × ((j : String)
          → k ≢ j
          → keep (has_id j) (remove_job s k).0.jobs ≡ keep (has_id j) (load_store s).jobs)
unfolding remove_job
remove_job_lem s k = (
  ground (arith, ltb-erase_id k (load_store s).jobs),
  ground (arith, any-erase_id k (load_store s).jobs),
  λ j h. ground (arith, keep-erase_id k j (load_store s).jobs h),
)

-- The calls of the service between two runs of jobs, with the clock readings and the id that they
-- take from outside.
pub data Call : Type 0 where
  adds : CronJob → String → ℤ → Call
  removes : String → Call
  enables : String → Bool → ℤ → ℤ → Call
  lists : Bool → Call

-- What LoadStore would read now is what is in memory.
pub record Synced (s : CronService) : Type 0 where
  pub loaded : s.loaded ≡ true
  pub on_disk : s.saved ≡ some s.jobs

module _ (cron_next : String → ℤ → Option ℤ) where
  pub step : CronService → Call → CronService
  step s (adds job generated now) = (add_job cron_next s job generated now).0
  step s (removes k) = (remove_job s k).0
  step s (enables k enabled now₁ now₂) = (enable_job cron_next s k enabled now₁ now₂).0
  step s (lists include_disabled) = (list_jobs s include_disabled).0

  pub run : CronService → List Call → CronService
  run s [] = s
  run s (c ∷ cs) = run (step s c) cs

  erase_id_none :
      (k : String) (jobs : List CronJob)
      → ltb (length (erase_id k jobs)) (length jobs) ≡ false
      → erase_id k jobs ≡ jobs
  unfolding erase_id
  erase_id_none k [] h = refl
  erase_id_none k (job ∷ jobs) h =
      ground (arith, erase_id_none k jobs, length-keep-le (λ x. not (has_id k x)) jobs)

  step-Synced : (s : CronService) (c : Call) → Synced s → Synced (step s c)
  unfolding step add_job remove_job enable_job list_jobs
  step-Synced s (adds job generated now) v = ground arith
  step-Synced s (removes k) v = ground (arith, erase_id_none k s.jobs)
  step-Synced s (enables k enabled now₁ now₂) v = ground arith
  step-Synced s (lists include_disabled) v = ground arith

  -- After any calls, a new service that reads the store file has exactly the jobs of this one.
  pub run-load_store :
      (s : CronService) (cs : List Call) (fresh : CronService)
      → Synced s
      → fresh.loaded ≡ false
      → fresh.saved ≡ (run s cs).saved
      → (load_store fresh).jobs ≡ (run s cs).jobs
  unfolding run load_store
  run-load_store s [] fresh v h e = ground arith
  run-load_store s (c ∷ cs) fresh v h e = run-load_store (step s c) cs fresh (step-Synced s c v) h e

  find-update :
      (k : String) (f : CronJob → CronJob) (jobs : List CronJob)
      → ((job : CronJob) → (f job).id ≡ job.id)
      → find_first (has_id k) (update_first k f jobs)
        ≡ elim (find_first (has_id k) jobs) [ none ↦ none | some job ↦ some (f job) ]
  unfolding update_first
  find-update k f [] h = refl
  find-update k f (job ∷ jobs) h = ground (arith, find-update k f jobs h, h job)

  keep-update :
      (k j : String) (f : CronJob → CronJob) (jobs : List CronJob)
      → ((job : CronJob) → (f job).id ≡ job.id)
      → k ≢ j
      → keep (has_id j) (update_first k f jobs) ≡ keep (has_id j) jobs
  unfolding update_first
  keep-update k j f [] h ne = refl
  keep-update k j f (job ∷ jobs) h ne =
      ground (arith, keep-update k j f jobs h ne, h job, eq_iff job.id k, eq_iff job.id j)

  -- EnableJob returns the job as the service now keeps it, with its next run recomputed or cleared,
  -- or nothing if no job has the id; the jobs with any other id are the same, in the same order.
  pub enable_job_lem :
      (s : CronService) (k : String) (enabled : Bool) (now₁ now₂ : ℤ)
      → ((enable_job cron_next s k enabled now₁ now₂).1
          ≡ find_first (has_id k) (enable_job cron_next s k enabled now₁ now₂).0.jobs)
        × ((enable_job cron_next s k enabled now₁ now₂).1
            ≡ elim (find_first (has_id k) (load_store s).jobs) [
              | none ↦ none
              | some job ↦ some (record job {
                enabled = enabled;
                updated_at_ms = now₁;
                state = record (job.state) {
                  next_run_at_ms =
                      if enabled then compute_next_run cron_next job.schedule now₂ else none;
                };
              })
            ])
        × ((j : String)
            → k ≢ j
            → keep (has_id j) (enable_job cron_next s k enabled now₁ now₂).0.jobs
              ≡ keep (has_id j) (load_store s).jobs)
  unfolding enable_job
  enable_job_lem s k enabled now₁ now₂ = (
    ground (
      arith,
      find-update k (set_enabled cron_next enabled now₁ now₂) (load_store s).jobs (λ job. refl),
    ),
    ground arith,
    λ j ne. ground (
      arith,
      keep-update k j (set_enabled cron_next enabled now₁ now₂) (load_store s).jobs (λ job. refl)
          ne,
    ),
  )
