-- ===== src/Agents/Loop.antt =====
-- The loop of AgentLoop in src/agent/agent_loop.cpp: calls of the provider and of the tools until the
-- provider answers. ProcessDirect, ProcessMessage and ProcessSystemMessage hold this loop with the
-- same body; only ProcessDirect looks at the cancel token, and ProcessSystemMessage reports no phases.
-- The provider, the tools and the cancel token are arguments that act on a state `S` of the rest of
-- the program; `none` is an exception. The clock is one argument, since nothing depends on it.
pub mod Calls
pub mod Edits
pub mod Bounds
pub mod Results
pub mod Sessions
pub mod Process
mod Examples
use Prim.Native.String
use text.Mathlib.Text.{starts_with}
use kabot.Base.{
  ℕ, zero, suc, Bool, true, false, not, ◌&&◌, ◌||◌, String, Option, none, some, List, [], ◌∷◌, ◌++◌,
  str_eq, empty, if◌then◌else◌,
}
use kabot.Base.Dict.{Dict, lookup}
use kabot.Base.Int.{ℤ}
use kabot.Bus.{◌<+>◌}
use kabot.Session.Types.{Session, add_message, add_tool_message, record_file_read, has_read_file}
use kabot.Agents.Context.{
  Message, ToolCallRequest, add_assistant_message, add_tool_result, project_messages,
}
use kabot.Agents.Guardrail.{append_guardrail_user_message, append_post_tool_reminder}
use kabot.Agents.Memory.{trim}

pub record LlmResponse : Type 0 where
  pub content : String
  pub tool_calls : List ToolCallRequest
  pub usage : Dict ℤ

pub data Phase : Type 0 where
  received processing calling_tools replying : Phase

abbrev pub phase_summary : Phase → String
phase_summary received = "Received message"
phase_summary processing = "Processing message"
phase_summary calling_tools = "Calling tools"
phase_summary replying = "Preparing reply"

abbrev pub same_phase : Phase → Phase → Bool
same_phase received received = true
same_phase processing processing = true
same_phase calling_tools calling_tools = true
same_phase replying replying = true
same_phase p q = false

-- The variables of the loop; `phases` are those that the observer was told.
pub record Turn : Type 0 where
  pub messages : List Message
  pub session : Session ToolCallRequest
  pub final_content : String
  pub message_sent : Bool
  pub tool_called : Bool
  pub guardrail_retry_used : Bool
  pub post_tool_reminder_used : Bool
  pub last_phase : Phase
  pub phases : List Phase

unfoldable pub notify_phase : Phase → Turn → Turn
notify_phase phase t =
    if same_phase phase t.last_phase
    then t
    else record t { last_phase = phase; phases = t.phases ++ phase ∷ [] }

-- What the loop calls.
pub record World (S : Type 0) : Type 0 where
  pub chat : List Message → S → S × Option LlmResponse
  pub set_session_key : String → S → S
  pub execute : ToolCallRequest → S → S × Option String
  pub is_cancelled : S → Bool
  pub to_string : ℕ → String
  pub dump_usage : Dict ℤ → String
  pub now : String

-- The answer of ExecuteToolWithGuardrails to an edit that may not run.
unfoldable pub edit_refusal : Session ToolCallRequest → ToolCallRequest → Option String
edit_refusal session call =
    if str_eq call.name "edit_file"
    then elim (lookup "path" call.arguments) [
      | none ↦ some "Error: edit_file requires a path parameter"
      | some path ↦
          if empty path
          then some "Error: edit_file requires a path parameter"
          else if has_read_file ToolCallRequest session path
          then none
          else some (
              "Error: file must be read using read_file before editing with edit_file. Path: "
              <+> path)
    ]
    else none

-- What a successful read leaves in the session.
unfoldable pub after_tool :
    Session ToolCallRequest → ToolCallRequest → String → Session ToolCallRequest
after_tool session call result =
    if str_eq call.name "read_file"
    then elim (lookup "path" call.arguments) [
      | none ↦ session
      | some path ↦
          if not (empty result) && not (starts_with result "Error:")
          then record_file_read ToolCallRequest session path
          else session
    ]
    else session

-- How a round goes on.
pub data Next : Type 0 where
  again : Turn → Next
  finished : Turn → Next
  thrown : Next

unfoldable pub after_calls : Option (Turn × Bool) → Next
after_calls none = thrown
after_calls (some (t, true)) = finished (notify_phase processing t)
after_calls (some (t, false)) = again (notify_phase processing t)

-- An answer without tool calls.
unfoldable pub answer : Bool → String → Turn → LlmResponse → Next
answer guarded request t response =
    if guarded && not t.tool_called && not t.guardrail_retry_used
    then again (record t {
      guardrail_retry_used = true;
      messages = append_guardrail_user_message t.messages request;
    })
    else if t.tool_called && empty (trim response.content) && not t.post_tool_reminder_used
    then again (record t {
      post_tool_reminder_used = true;
      messages = append_post_tool_reminder t.messages;
    })
    else finished (record (notify_phase replying t) { final_content = response.content })

abbrev pub has_tool_calls : LlmResponse → Bool
has_tool_calls response = elim response.tool_calls [ [] ↦ false | _ ∷ _ ↦ true ]

module _ {S : Type 0} (w : World S) where
  unfoldable pub execute_tool_with_guardrails :
      Session ToolCallRequest → ToolCallRequest → S → S × Option (Session ToolCallRequest × String)
  execute_tool_with_guardrails session call s = elim (edit_refusal session call) [
    | some refusal ↦ (s, some (session, refusal))
    | none ↦
        let (s', result) =
          w.execute call
            (if str_eq call.name "agent" then w.set_session_key session.key s else s) in
        (s', elim result [ none ↦ none | some text ↦ some (after_tool session call text, text) ])
  ]

  -- A tool call with its result, entered into the turn.
  unfoldable pub enter_result : Turn → ToolCallRequest → Session ToolCallRequest × String → Turn
  enter_result t call (session, result) = record t {
    messages = add_tool_result t.messages call.id call.name result;
    session = add_tool_message ToolCallRequest session call.id call.name result w.now w.now;
    final_content = if str_eq call.name "plan_work" then result else t.final_content;
    message_sent = t.message_sent || str_eq call.name "send_message";
  }

  -- `for (const auto& call : response.tool_calls)`, with whether a plan was made.
  unfoldable pub run_calls : List ToolCallRequest → Turn → Bool → S → S × Option (Turn × Bool)
  unfolding execute_tool_with_guardrails enter_result
  run_calls [] t planned s = (s, some (t, planned))
  run_calls (call ∷ calls) t planned s = elim (w.is_cancelled s) [
    | true ↦ (s, none)
    | false ↦
        let (s', outcome) = execute_tool_with_guardrails t.session call s in
        elim outcome [
          | none ↦ (s', none)
          | some result ↦
              run_calls calls (enter_result t call result) (planned || str_eq call.name "plan_work")
                s'
        ]
  ]

  -- The assistant message with its tool calls.
  unfoldable pub enter_request : Turn → LlmResponse → Turn
  enter_request t response = record (notify_phase calling_tools (record t { tool_called = true })) {
    messages = add_assistant_message t.messages response.content response.tool_calls response.usage;
    session =
        add_message ToolCallRequest t.session "assistant" response.content response.tool_calls
          (w.dump_usage response.usage) w.now w.now;
  }

  unfoldable pub respond : Bool → String → Turn → LlmResponse → S → S × Next
  unfolding run_calls enter_request answer after_calls
  respond guarded request t response s = elim (has_tool_calls response) [
    | true ↦
        let (s', outcome) = run_calls response.tool_calls (enter_request t response) false s in
        (s', after_calls outcome)
    | false ↦ (s, answer guarded request t response)
  ]

  -- A round of `while (iteration < config_.max_iterations)`.
  unfoldable pub round : Bool → String → Turn → S → S × Next
  unfolding respond
  round guarded request t s = elim (w.is_cancelled s) [
    | true ↦ (s, thrown)
    | false ↦
        let (s', outcome) = w.chat (project_messages w.to_string t.messages) s in
        elim outcome [ none ↦ (s', thrown) | some response ↦ respond guarded request t response s' ]
  ]

  -- The loop with the iterations left; `none` is an exception.
  unfoldable pub loop : ℕ → Bool → String → Turn → S → S × Option Turn
  unfolding round
  loop zero guarded request t s = (s, some t)
  loop (suc left) guarded request t s =
      let (s', next) = round guarded request t s in
      elim next [
        | again t' ↦ loop left guarded request t' s'
        | finished t' ↦ (s', some t')
        | thrown ↦ (s', none)
      ]
