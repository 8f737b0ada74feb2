-- ===== src/Tasks/Summary/Examples.antt =====
-- A day on which the first upload fails, for the theorem on daily summaries.
use kabot.Base.{◌≤◌, ◌≡◌, refl, Bool, true, false, [], ◌∷◌}
use kabot.Tasks.State.{TaskRuntime}
use kabot.Tasks.Summary.{Day, handle_daily_summary_cron}
use kabot.Tasks.Summary.Once.{alone, succeeded, uploads, uploads-le}

abbrev idle : TaskRuntime
idle = record {
  enabled = true;
  daily_summary_records = [];
  waiting_tasks = [];
  active_tasks = [];
  claimed_task_ids = [];
}

abbrev call : Bool → Day
call success = record {
  managed = true;
  configured = true;
  memory = "notes";
  today = "2026-01-01";
  now = "2026-01-01T22:00:00Z";
  upload = record { success = success; message = "" };
}

-- A whole call that runs while another one uploads: both upload with success.
overlapping_twice :
    (succeeded (alone idle "main" (call true)).uploaded ≡ 1)
    × (succeeded
          (handle_daily_summary_cron
            (λ r. (alone r "main" (call true)).runtime)
            idle
            "main"
            (call true)).uploaded
        ≡ 1)
unfolding handle_daily_summary_cron kabot.Base.Dict.lookup
overlapping_twice = (refl, refl)

uploads-le_example : uploads idle "main" (call false ∷ call true ∷ call true ∷ []) ≤ 1
uploads-le_example =
    uploads-le idle "main" "2026-01-01" (call false ∷ call true ∷ call true ∷ []) refl
