-- ===== src/Agents/Subagents.antt =====
-- src/agent/subagent/subagent_tool_filter.cpp and subagent_task.{hpp,cpp}: the tools that a sub-agent
-- is given, and the records of the sub-agents' tasks. Each operation on the records holds the mutex,
-- so it is one step. Clock readings are numbers and arguments, and so is std::to_string.
pub mod Tools
pub mod Records
mod Examples
use kabot.Base.{
  ℕ, ◌+◌, Bool, true, false, not, ◌&&◌, ◌||◌, String, Option, none, some, List, [], ◌∷◌, map, keep,
  member, find_first, str_eq, if◌then◌else◌,
}
use kabot.Base.Dict.{Dict, lookup, insert}
use kabot.Bus.{◌<+>◌}

-- AgentDefinition, as far as the filter reads it.
pub record AgentDefinition : Type 0 where
  pub agent_type : String
  pub tools : List String
  pub disallowed_tools : List String

pub record ToolDefinition : Type 0 where
  pub name : String
  pub description : String

abbrev pub no_names : List String → Bool
no_names [] = true
no_names (x ∷ xs) = false

abbrev pub async_whitelist : List String
async_whitelist =
    "read_file" ∷ "list_dir" ∷ "glob" ∷ "grep" ∷ "web_search" ∷ "web_fetch" ∷ "bash" ∷ []

abbrev pub system_tools : List String
system_tools = "read_file" ∷ "write_file" ∷ "edit_file" ∷ "list_dir" ∷ "bash" ∷ []

-- Whether the round of the loop for a tool reaches its end.
unfoldable pub keeps_tool : AgentDefinition → Bool → List String → String → Bool
keeps_tool agent is_async allowed_tools name =
    if not (no_names agent.disallowed_tools) && member name agent.disallowed_tools
    then false
    else if not (no_names agent.tools)
        && not (member "*" agent.tools)
        && not (member name agent.tools)
    then false
    else if is_async
        && (not (member name system_tools) && not (member name async_whitelist))
        && (no_names agent.tools || not (member name agent.tools))
    then false
    else if not (no_names allowed_tools) && not (member name allowed_tools)
    then false
    else true

unfoldable pub resolve_agent_tools :
    List ToolDefinition → AgentDefinition → Bool → List String → List ToolDefinition
resolve_agent_tools base_pool agent is_async allowed_tools =
    keep (λ (tool : ToolDefinition). keeps_tool agent is_async allowed_tools tool.name) base_pool

pub data SubagentStatus : Type 0 where
  idle spawning running_foreground backgrounded completed failed aborted resumed_running :
      SubagentStatus

abbrev pub is_terminal_status : SubagentStatus → Bool
is_terminal_status idle = false
is_terminal_status spawning = false
is_terminal_status running_foreground = false
is_terminal_status backgrounded = false
is_terminal_status completed = true
is_terminal_status failed = true
is_terminal_status aborted = true
is_terminal_status resumed_running = false

pub record Progress : Type 0 where
  pub message : String
  pub last_tool_name : String
  pub tokens : ℕ
  pub turns : ℕ

pub record ErrorInfo : Type 0 where
  pub code : String
  pub message : String
  pub retryable : Bool

pub record AgentTaskRecord : Type 0 where
  pub task_id : String
  pub agent_id : String
  pub parent_session_id : String
  pub description : String
  pub status : SubagentStatus
  pub started_at : ℕ
  pub finished_at : Option ℕ
  pub output_file : String
  pub total_tokens : ℕ
  pub progress : Progress
  pub error : ErrorInfo

pub record SubagentTaskManager : Type 0 where
  pub tasks : Dict AgentTaskRecord
  pub task_counter : ℕ

unfoldable pub register_task :
    (ℕ → String) → SubagentTaskManager → String → String → String → ℕ → SubagentTaskManager × String
register_task to_string m agent_id description parent_session_id now =
    let task_id = "subagent_task_" <+> to_string (m.task_counter + 1) in
    (
      record m {
        tasks =
            insert task_id
              (record {
                task_id = task_id;
                agent_id = agent_id;
                parent_session_id = parent_session_id;
                description = description;
                status = idle;
                started_at = now;
                finished_at = none;
                output_file = "";
                total_tokens = 0;
                progress = record { message = ""; last_tool_name = ""; tokens = 0; turns = 0 };
                error = record { code = ""; message = ""; retryable = false };
              })
              m.tasks;
        task_counter = m.task_counter + 1;
      },
      task_id,
    )

unfoldable pub get_task : SubagentTaskManager → String → Option AgentTaskRecord
get_task m task_id = lookup task_id m.tasks

-- A change of the record of a task, where `tasks_.find` finds one.
unfoldable pub change_task :
    SubagentTaskManager → String → (AgentTaskRecord → AgentTaskRecord) → SubagentTaskManager × Bool
change_task m task_id f = elim (lookup task_id m.tasks) [
  | none ↦ (m, false)
  | some task ↦ (record m { tasks = insert task_id (f task) m.tasks }, true)
]

-- What each operation writes to the record.
pub data Change : Type 0 where
  updates_status : SubagentStatus → Change
  updates_progress : Progress → Change
  marks_completed : String → ℕ → Change
  marks_failed : ErrorInfo → Change
  marks_aborted : Change

abbrev pub written : Change → ℕ → AgentTaskRecord → AgentTaskRecord
written (updates_status status) now task = record task {
  status = status;
  finished_at = if is_terminal_status status then some now else task.finished_at;
}
written (updates_progress progress) now task = record task { progress = progress }
written (marks_completed output total_tokens) now task = record task {
  status = completed;
  finished_at = some now;
  output_file = output;
  total_tokens = total_tokens;
}
written (marks_failed error) now task = record task {
  status = failed;
  finished_at = some now;
  error = error;
}
written marks_aborted now task = record task { status = aborted; finished_at = some now }

-- UpdateStatus, UpdateProgress, MarkCompleted, MarkFailed and MarkAborted.
unfoldable pub perform : SubagentTaskManager → String → Change → ℕ → SubagentTaskManager × Bool
unfolding change_task
perform m task_id change now = change_task m task_id (written change now)

unfoldable pub list_tasks : SubagentTaskManager → List AgentTaskRecord
list_tasks m = map (λ (entry : String × AgentTaskRecord). entry.1) m.tasks

unfoldable pub list_active_tasks : SubagentTaskManager → List AgentTaskRecord
unfolding list_tasks
list_active_tasks m =
    keep (λ (task : AgentTaskRecord). not (is_terminal_status task.status)) (list_tasks m)
