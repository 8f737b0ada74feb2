-- ===== src/Cron/Service.antt =====
-- src/cron/cron_service.cpp: the service that keeps the jobs. The store file is seen as the jobs
-- that reading it gives (`saved`; `none` where there is no usable file): the JSON text itself is not
-- modelled. Readings of the clock and generated ids are arguments.
pub mod Store
mod Examples
use kabot.Base.{
  ℕ, zero, suc, ◌+◌, Bool, true, false, not, ◌&&◌, ◌||◌, String, Option, none, some, List, [], ◌∷◌,
  ◌++◌, length, ltb, str_eq, empty, if◌then◌else◌, keep, get_elem?, set, is_some, find_first, any,
}
use kabot.Base.Int.{ℤ, pos, ltb_ℤ, leb_ℤ}
use kabot.Cron.Types.{CronScheduleKind, at, every, cron, CronSchedule, CronJob, CronJobState}
use kabot.Cron.Schedule.{compute_next_run}

pub record CronService : Type 0 where
  pub running : Bool
  pub loaded : Bool
  pub jobs : List CronJob
  pub saved : Option (List CronJob)

-- The lines up to the parse: a file is read once, and replaces the jobs.
unfoldable pub load_store : CronService → CronService
load_store s = if s.loaded then s else elim s.saved [
  | none ↦ record s { loaded = true }
  | some stored ↦ record s { loaded = true; jobs = stored }
]

unfoldable pub save_store : CronService → CronService
save_store s = record s { saved = some s.jobs }

abbrev pub has_id : String → CronJob → Bool
has_id job_id job = str_eq job.id job_id

-- remove_if and erase on an id.
unfoldable pub erase_id : String → List CronJob → List CronJob
erase_id job_id jobs = keep (λ job. not (has_id job_id job)) jobs

-- A change of the first job with an id, as find_if and the loops with an early return make it.
unfoldable pub update_first : String → (CronJob → CronJob) → List CronJob → List CronJob
update_first job_id f [] = []
update_first job_id f (job ∷ jobs) =
    let rest = update_first job_id f jobs in if has_id job_id job then f job ∷ jobs else job ∷ rest

unfoldable pub remove_job : CronService → String → CronService × Bool
unfolding load_store save_store erase_id
remove_job s job_id =
    if ltb (length kept) (length (load_store s).jobs)
    then (save_store (record (load_store s) { jobs = kept }), true)
    else (record (load_store s) { jobs = kept }, false)
  where
    kept : List CronJob
    kept = erase_id job_id (load_store s).jobs

unfoldable pub stop : CronService → CronService
stop s = record s { running = false }

-- ListJobs before the sort.
unfoldable pub select_jobs : Bool → List CronJob → List CronJob
select_jobs include_disabled jobs = keep (λ job. include_disabled || job.enabled) jobs

abbrev pub last_ms : ℤ
last_ms = pos 9223372036854775807

abbrev pub sort_key : CronJob → ℤ
sort_key job = elim job.state.next_run_at_ms [ none ↦ last_ms | some next ↦ next ]

-- std::sort by the next run, as an insertion sort.
unfoldable pub insert_sorted : CronJob → List CronJob → List CronJob
insert_sorted job [] = job ∷ []
insert_sorted job (other ∷ rest) =
    let later = insert_sorted job rest in
    if ltb_ℤ (sort_key other) (sort_key job) then other ∷ later else job ∷ other ∷ rest

unfoldable pub sort_jobs : List CronJob → List CronJob
unfolding insert_sorted
sort_jobs [] = []
sort_jobs (job ∷ jobs) = insert_sorted job (sort_jobs jobs)

unfoldable pub list_jobs : CronService → Bool → CronService × List CronJob
unfolding load_store select_jobs sort_jobs
list_jobs s include_disabled =
    (load_store s, sort_jobs (select_jobs include_disabled (load_store s).jobs))

abbrev earlier : Option ℤ → ℤ → Option ℤ
earlier none t = some t
earlier (some next) t = if ltb_ℤ t next then some t else some next

-- One round of the loop of GetNextWakeMs.
unfoldable pub wake_step : Option ℤ → CronJob → Option ℤ
wake_step next job =
    if not job.enabled
    then next
    else elim job.state.next_run_at_ms [ none ↦ next | some t ↦ earlier next t ]

unfoldable pub wake_loop : Option ℤ → List CronJob → Option ℤ
unfolding wake_step
wake_loop next [] = next
wake_loop next (job ∷ jobs) = wake_loop (wake_step next job) jobs

unfoldable pub get_next_wake_ms : CronService → Option ℤ
unfolding wake_loop
get_next_wake_ms s = wake_loop none s.jobs

pub record Status : Type 0 where
  pub enabled : Bool
  pub jobs : ℕ
  pub next_wake_at_ms : Option ℤ

unfoldable pub get_status : CronService → Status
get_status s = record {
  enabled = s.running;
  jobs = length s.jobs;
  next_wake_at_ms = get_next_wake_ms s;
}

module _ (cron_next : String → ℤ → Option ℤ) where
  -- `generated` is what GenerateId would return, and `now` the reading of the clock.
  unfoldable pub add_job : CronService → CronJob → String → ℤ → CronService × Option CronJob
  unfolding load_store save_store
  add_job s job generated now = elim (compute_next_run cron_next job.schedule now) [
    | none ↦ (load_store s, none)
    | some next ↦
        let added : CronJob = record job {
          id = if empty job.id then generated else job.id;
          created_at_ms = now;
          updated_at_ms = now;
          state = record (job.state) { next_run_at_ms = some next };
        } in
        (
          save_store (record (load_store s) { jobs = (load_store s).jobs ++ added ∷ [] }),
          some added,
        )
  ]

  -- EnableJob on the job that it finds; the clock is read twice.
  unfoldable pub set_enabled : Bool → ℤ → ℤ → CronJob → CronJob
  set_enabled enabled now₁ now₂ job = record job {
    enabled = enabled;
    updated_at_ms = now₁;
    state = record (job.state) {
      next_run_at_ms = if enabled then compute_next_run cron_next job.schedule now₂ else none;
    };
  }

  unfoldable pub enable_job : CronService → String → Bool → ℤ → ℤ → CronService × Option CronJob
  unfolding load_store save_store update_first set_enabled
  enable_job s job_id enabled now₁ now₂ = elim (find_first (has_id job_id) (load_store s).jobs) [
    | none ↦ (load_store s, none)
    | some job ↦ (
      save_store (record (load_store s) {
        jobs = update_first job_id (set_enabled enabled now₁ now₂) (load_store s).jobs;
      }),
      some (set_enabled enabled now₁ now₂ job),
    )
  ]
