-- ===== src/Tasks/Verification.antt =====
-- The texts of src/task/task_runtime.cpp on a task: the summary of its context, the lines of its
-- memory, the log of its execution, and what VerifyTaskCompletion reads from the verifier's answer.
-- std::to_string is the argument `to_string`; a size is in bytes.
use Prim.Native.String.{len, slice}
use text.Mathlib.Text.{starts_with}
use kabot.Base.{
  ℕ, suc, Bool, true, false, ◌||◌, String, Option, none, some, List, [], ◌∷◌, ltb, min, str_eq,
  empty, find?, is_some, if◌then◌else◌,
}
use kabot.Bus.{◌<+>◌, or_else}
use kabot.Session.Types.{SessionMessage}
use kabot.Agents.Context.{ToolCallRequest}
use kabot.Agents.Memory.{trim}

pub record RelayTask : Type 0 where
  pub task_id : String
  pub title : String
  pub instruction : String
  pub session_key : String
  pub project_id : String
  pub project_name : String
  pub project_git_url : String
  pub channel : String
  pub channel_instance : String
  pub chat_id : String
  pub reply_to : String
  pub depends_on_task_ids : List String
  pub blocked_by_task_ids : List String
  pub waiting_user : Bool
  pub merge_request : String

abbrev pub join : String → List String → String
join separator [] = ""
join separator (x ∷ []) = x
join separator (x ∷ y ∷ xs) = x <+> separator <+> join separator (y ∷ xs)

abbrev pub bracketed : String → List String → String
bracketed title [] = ""
bracketed title (id ∷ ids) = title <+> join ", " (id ∷ ids) <+> "]"

unfoldable pub format_dependency_info : RelayTask → String
format_dependency_info task =
    bracketed " depends on [" task.depends_on_task_ids
    <+> bracketed " blocked by [" task.blocked_by_task_ids

-- The text behind its prefix and in front of its suffix, if there is one.
abbrev pub unless_empty : String → String → String → String
unless_empty prefix text suffix = if empty text then "" else prefix <+> text <+> suffix

unfoldable pub build_context_summary : RelayTask → String
unfolding format_dependency_info
build_context_summary task =
    "Task: "
    <+> task.task_id
    <+> unless_empty " (" task.title ")"
    <+> unless_empty " | Project: " (or_else task.project_name task.project_id) ""
    <+> unless_empty " |" (format_dependency_info task) ""
    <+> (if task.waiting_user then " | Waiting for user input" else "")
    <+> unless_empty " | MR: " task.merge_request ""

-- The line that WriteTaskMemory appends to the memory of the day.
unfoldable pub task_memory : String → String → String → String → String → String
task_memory task_id project_name state goal result =
    "- ["
    <+> task_id
    <+> "]"
    <+> unless_empty " [" project_name "]"
    <+> " State: "
    <+> state
    <+> unless_empty " | Goal: " goal ""
    <+> unless_empty " | Result: " result ""
    <+> "\n"

-- value.substr(0, max_len)
abbrev pub leading : ℕ → String → String
leading max_len text = slice text 0 (min max_len (len text))

abbrev pub cut : ℕ → String → String
cut max_len text =
    leading max_len text <+> (if ltb max_len (len text) then "... (truncated)" else "")

abbrev pub call_names : List ToolCallRequest → List String
call_names [] = []
call_names (call ∷ calls) = call.name ∷ call_names calls

abbrev pub agent_step : SessionMessage ToolCallRequest → String
agent_step m = elim m.tool_calls [
  | [] ↦ cut 500 m.content <+> "\n"
  | call ∷ calls ↦ "Called tools: " <+> join ", " (call_names (call ∷ calls)) <+> "\n"
]

-- BuildExecutionLogFromSession, from a step on.
unfoldable pub execution_log : (ℕ → String) → ℕ → List (SessionMessage ToolCallRequest) → String
execution_log to_string step [] = ""
execution_log to_string step (m ∷ messages) = elim (str_eq m.role "assistant") [
  | true ↦
      "Step "
      <+> to_string step
      <+> " [Agent]: "
      <+> agent_step m
      <+> execution_log to_string (suc step) messages
  | false ↦
      (if str_eq m.role "tool"
        then "  [Tool Result - " <+> m.name <+> "]: " <+> cut 300 m.content <+> "\n"
        else "")
      <+> execution_log to_string step messages
]

-- Whether the verifier's answer lets the task complete, with the reason.
unfoldable pub read_verdict : String → Bool × String
unfolding trim
read_verdict verification_result =
    let trimmed = trim verification_result in
    if starts_with trimmed "INCOMPLETE" || is_some (find? trimmed "incomplete")
    then (false, trimmed)
    else (true, trimmed)

unfoldable pub verification_prompt : String → String → String → String
verification_prompt instruction result log =
    "You are a task completion verifier. Your job is to check whether the agent truly completed the task based on its execution history.\n\n"
    <+> "Original Task Instruction:\n"
    <+> instruction
    <+> "\n\n"
    <+> "Agent Final Result:\n"
    <+> leading 1000 result
    <+> "\n\n"
    <+> "Execution History:\n"
    <+> log
    <+> "\n\n"
    <+> "Analyze whether the task is COMPLETE. Consider:\n"
    <+> "1. Did the agent actually perform the required actions (file reads, edits, commands, etc.)?\n"
    <+> "2. Does the final result match the task requirements?\n"
    <+> "3. Did the agent claim completion without doing anything?\n"
    <+> "4. Are there any obvious errors or missing steps?\n\n"
    <+> "Respond with exactly one of:\n"
    <+> "- \"VERIFIED: <brief reason>\" if the task is truly complete\n"
    <+> "- \"INCOMPLETE: <brief reason>\" if the task is not truly complete\n"

-- VerifyTaskCompletion; the verifier is an agent run on a text and a session, `none` an exception.
unfoldable pub verify_task_completion :
    {S : Type 0}
    → (String → String → S → S × Option String)
    → String
    → String
    → String
    → String
    → S
    → S × Option (Bool × String)
unfolding read_verdict verification_prompt
verify_task_completion verifier session_key instruction result log s =
    if empty log
    then (s, some (true, "No execution log available, skipping verification"))
    else let (s', answer) =
        verifier (verification_prompt instruction result log) (session_key <+> ":verify") s in
      (s', elim answer [ none ↦ none | some text ↦ some (read_verdict text) ])
