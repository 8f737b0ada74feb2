-- ===== src/Tasks/Execution/Examples.antt =====
-- Tasks for src/task/task_runtime.cpp: one that the agent answers, and one that is abandoned before the
-- agent answers.
use kabot.Base.{ℕ, suc, true, false, none, some, [], ◌∷◌, ◌≡◌, refl}
use kabot.Base.Dict.{lookup}
use kabot.Tasks.State.{TaskRuntime}
use kabot.Tasks.Verification.{RelayTask}
use kabot.Tasks.Execution.{Machine, Execution, answered}
use kabot.Tasks.Execution.Course.{settle, execute_claimed_task}
use kabot.Tasks.Execution.Finals.{finals}
use kabot.Tasks.Execution.Final.{Closes, execute_claimed_task-Closes}
use kabot.Tasks.Execution.Watchdog.{abandon, mark_next, settle-abandoned}

abbrev task : RelayTask
task = record {
  task_id = "t1";
  title = "Tidy up";
  instruction = "Tidy up the notes.";
  session_key = "";
  project_id = "";
  project_name = "";
  project_git_url = "";
  channel = "cli";
  channel_instance = "";
  chat_id = "1";
  reply_to = "";
  depends_on_task_ids = [];
  blocked_by_task_ids = [];
  waiting_user = false;
  merge_request = "";
}

abbrev machine : Machine ℕ
machine = record {
  query_git_url = λ project n. (n, none);
  create_directories = λ path n. (n, true);
  run_command = λ command n. (n, "");
  has_git = λ path n. false;
  read_file = λ path n. "";
  append_file = λ path text n. (n, true);
  process_direct = λ instruction key target n. (suc n, [], answered "Done.");
  verifier = λ prompt key n. (n, some "VERIFIED");
  session_messages = λ key n. some [];
  is_cancelled = λ n. false;
  what = λ n. "";
  to_string = λ n. "n";
  now = "t";
}

abbrev runtime : TaskRuntime
runtime = record {
  enabled = true;
  daily_summary_records = [];
  waiting_tasks = [];
  active_tasks =
      (
        "main",
        record {
          task_id = "t1";
          session_key = "task:main:t1";
          project_name = "";
          project_git_url = "";
        },
      )
      ∷ [];
  claimed_task_ids = "t1" ∷ [];
}

abbrev before : Execution ℕ
before = record { runtime = runtime; reports = []; memory = []; rest = 0 }

execute_claimed_task-Closes_example :
    Closes "main" task machine "/work" before
      (execute_claimed_task "main" task machine "/work" before)
execute_claimed_task-Closes_example =
    execute_claimed_task-Closes "main" task machine "/work" before (λ n. refl)

settle-abandoned_example :
    (finals
        (settle "main" task machine "/work" false none
          (answered "Done.")
          (mark_next "main" task "t2" "task:main:t2" (abandon "main" task false before))).reports
      ≡ suc (suc (finals before.reports)))
    × (lookup "main"
          (settle "main" task machine "/work" false none (answered "Done.") (
            mark_next "main" task "t2" "task:main:t2"
              (abandon "main" task false before))).runtime.active_tasks
        ≡ none)
settle-abandoned_example =
    settle-abandoned "main" task machine "/work" false none (answered "Done.") "t2" "task:main:t2"
      before
