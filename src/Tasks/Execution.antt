-- ===== src/Tasks/Execution.antt =====
-- ExecuteClaimedTask of src/task/task_runtime.cpp. The shell, the files, the relay server's answers,
-- the agents and their sessions are the argument `Machine`, which acts on a state `S`; what the task
-- reports to the server and writes to the memory is in the state here. The thread that watches the
-- time is in Tasks.Execution.Watchdog.
pub mod Repository
pub mod Course
pub mod Finals
pub mod Final
pub mod Watchdog
mod Examples
use Prim.Native.String
use Prim.Native.String.{len, slice}
use kabot.Base.{
  ℕ, ◌+◌, Bool, true, false, not, ◌&&◌, ◌||◌, String, Option, none, some, List, [], ◌∷◌, ◌++◌, ltb,
  str_eq, empty, find?, is_some, if◌then◌else◌,
}
use kabot.Base.Int.{ℤ, pos, negsuc}
use kabot.Base.Dict.{Dict, lookup, insert, erase}
use kabot.Bus.{OutboundMessage, ◌<+>◌, or_else}
use kabot.Session.Types.{SessionMessage}
use kabot.Agents.Context.{ToolCallRequest}
use kabot.Agents.Memory.{trim}
use kabot.Agents.Loop.{Phase, phase_summary, calling_tools, received, processing, replying}
use kabot.Agents.Loop.Process.{DirectExecutionTarget, is_blank}
use kabot.Tasks.State.{TaskRuntime, ActiveTask, WaitingTask, build_waiting_key, clear_active_task}
use kabot.Tasks.Questions.{should_wait_for_user}
use kabot.Tasks.Verification.{
  RelayTask, build_context_summary, task_memory, execution_log, verify_task_completion, leading,
}

-- RelayTaskStatusUpdate with its task; `waiting_user` and `merge_request` as the code fills them.
pub record Report : Type 0 where
  pub task_id : String
  pub status : String
  pub message : String
  pub progress : ℤ
  pub session_key : String
  pub result : String
  pub error : String
  pub merge_request : Option (String × String)

-- What the agent lets the runtime observe while it works.
pub data Observed : Type 0 where
  phase_changed : Phase → Observed
  sent : OutboundMessage → Observed

-- How ProcessDirect ends; an exception that is no std::exception has no text.
pub data Ended : Type 0 where
  answered : String → Ended
  threw : Option String → Ended

-- `create_directories` answers false where it throws.
pub record Machine (S : Type 0) : Type 0 where
  pub query_git_url : String → S → S × Option String
  pub create_directories : String → S → S × Bool
  pub run_command : String → S → S × String
  pub has_git : String → S → Bool
  pub read_file : String → S → String
  pub append_file : String → String → S → S × Bool
  pub process_direct : String → String → DirectExecutionTarget → S → S × List Observed × Ended
  pub verifier : String → String → S → S × Option String
  pub session_messages : String → S → Option (List (SessionMessage ToolCallRequest))
  pub is_cancelled : S → Bool
  pub what : S → String
  pub to_string : ℕ → String
  pub now : String

-- The runtime, the reports so far and the lines of the memory, with the rest.
pub record Execution (S : Type 0) : Type 0 where
  pub runtime : TaskRuntime
  pub reports : List Report
  pub memory : List String
  pub rest : S

abbrev pub minus_one : ℤ
minus_one = negsuc 0

abbrev pub execution_key : String → RelayTask → String
execution_key local_agent task =
    or_else task.session_key ("task:" <+> local_agent <+> ":" <+> task.task_id)

abbrev pub project_of : RelayTask → String
project_of task = or_else task.project_name task.project_id

abbrev pub branch_of : RelayTask → String
branch_of task = "kabot-task-" <+> task.task_id

abbrev pub final_statuses : List String
final_statuses = "completed" ∷ "failed" ∷ "waiting_user" ∷ []

abbrev pub with_url : RelayTask → String → ActiveTask → ActiveTask
with_url task url active = record active { project_name = project_of task; project_git_url = url }

abbrev pub in_project : RelayTask → String → String → String
in_project task word url =
    if empty (project_of task)
    then ""
    else word <+> project_of task <+> (if empty url then "" else " (git: " <+> url <+> ")")

-- A command of the shell in a directory.
abbrev pub in_dir : String → String → String
in_dir dir command = "cd \"" <+> dir <+> "\" && " <+> command

module _ {S : Type 0} (local_agent : String) (task : RelayTask) where
  unfoldable pub report : String → String → ℤ → String → String → Execution S → Execution S
  report status message progress result error e = record e {
    reports =
        e.reports
        ++ record {
          task_id = task.task_id;
          status = status;
          message = message;
          progress = progress;
          session_key = execution_key local_agent task;
          result = result;
          error = error;
          merge_request = none;
        }
          ∷ [];
  }

  unfoldable pub write_memory : String → String → String → Execution S → Execution S
  write_memory state goal result e = record e {
    memory = e.memory ++ task_memory task.task_id (project_of task) state goal result ∷ [];
  }

  unfoldable pub clear : Execution S → Execution S
  clear e = record e { runtime = clear_active_task e.runtime local_agent }

  -- The project of the active task.
  abbrev pub name_project : String → Execution S → Execution S
  name_project url e = record e {
    runtime = record e.runtime {
      active_tasks = elim (lookup local_agent e.runtime.active_tasks) [
        | none ↦ e.runtime.active_tasks
        | some active ↦ insert local_agent (with_url task url active) e.runtime.active_tasks
      ];
    };
  }

  -- Steps 1 and 2: the task is reported as claimed and as running.
  unfoldable pub announce : String → Execution S → Execution S
  unfolding report write_memory build_context_summary
  announce url e = write_memory "running" ("Started execution: " <+> task.title) "" (
      report "running"
        ("Executing task "
          <+> task.task_id
          <+> in_project task " in project " url
          <+> ": "
          <+> task.title)
        (pos 5) "" ""
        (write_memory "claimed" ("Preparing execution context: " <+> build_context_summary task) ""
          (report "claimed"
            ("Claimed task "
              <+> task.task_id
              <+> in_project task " for project " url
              <+> " and preparing context")
            (pos 0) "" "" (name_project url e))))
