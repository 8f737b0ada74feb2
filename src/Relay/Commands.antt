-- ===== src/Relay/Commands.antt =====
-- The messages of the websocket in src/relay/relay_manager.cpp: the payloads, SendJson, HandleMessage, the reports on
-- inbound messages and the queue of the outbound writer. The agent's run, ProcessDirect, is an argument that is given the
-- observer; the time of a report is `now`, and std::to_string is `to_string`.
pub mod Finals
pub mod Answered
mod Examples
use kabot.Base.{
  ℕ, Bool, true, false, not, ◌&&◌, ◌||◌, String, Option, none, some, List, [], ◌∷◌, ◌++◌, str_eq,
  empty, if◌then◌else◌,
}
use kabot.Base.Json.{Json, number, text, object_of, field, member_of}
use kabot.Bus.{◌<+>◌, or_else}
use kabot.Agents.Loop.{Phase, received, processing, calling_tools, replying, phase_summary}
use kabot.Config.Types.{RelayManagedAgentConfig}
use kabot.Relay.Http.{Outcome, returned, thrown, what_or}
use kabot.Relay.Calls.{text_value}

unfoldable pub build_activity_payload : String → String → String → String → Json
build_activity_payload now status summary command_id = object_of (
    ("type", text "activity.update")
    ∷ ("activityStatus", text status)
    ∷ ("activitySummary", text summary)
    ∷ ("reportedAt", text now)
    ∷ (if empty command_id then [] else ("currentCommandId", text command_id) ∷ []))

unfoldable pub phase_activity_summary : Phase → String
phase_activity_summary received = "Received relay command"
phase_activity_summary processing = "Processing relay command"
phase_activity_summary calling_tools = "Calling tools"
phase_activity_summary replying = "Preparing reply"

unfoldable pub build_ack_payload : String → Json
build_ack_payload command_id =
    object_of (("type", text "command.ack") ∷ ("commandId", text command_id) ∷ [])

abbrev pub named_member : String → String → List (String × Json)
named_member name value = if empty name then [] else (name, text value) ∷ []

abbrev pub progress_member : Option String → List (String × Json)
progress_member none = []
progress_member (some n) = ("progress", number n) ∷ []

unfoldable pub build_result_payload : String → String → String → String → Option String → Json
build_result_payload command_id status field_name field_value progress = object_of (
    ("type", text "command.result") ∷ ("commandId", text command_id) ∷ ("status", text status) ∷ []
    ++ named_member field_name field_value
    ++ progress_member progress)

-- BuildSessionKey.
abbrev pub command_session_key : RelayManagedAgentConfig → String → String
command_session_key config command_id = "relay:" <+> config.name <+> ":" <+> command_id

-- A step of the program that may throw.
abbrev pub M : Type 0 → Type 0 → Type 0
M S A = S → S × Outcome A

infixl 5 ◌>>=◌ ◌>>◌
abbrev pub ◌>>=◌ : {S A B : Type 0} → M S A → (A → M S B) → M S B
◌>>=◌ m f s =
    let (s', outcome) = m s in
    elim outcome [ returned a ↦ f a s' | thrown what ↦ (s', thrown what) ]

abbrev pub ◌>>◌ : {S A B : Type 0} → M S A → M S B → M S B
m >> k = m >>= λ a. k

abbrev pub done : {S : Type 0} → M S Bool
done s = (s, returned true)

-- try { m } catch { handler }
abbrev pub try_or : {S : Type 0} → M S Bool → (Option String → M S Bool) → M S Bool
try_or m handler s =
    let (s', outcome) = m s in
    elim outcome [ returned a ↦ (s', returned a) | thrown what ↦ handler what s' ]

-- A read that may throw.
abbrev pub read : {S : Type 0} → String → Option String → M S String
read type_error none s = (s, thrown (some type_error))
read type_error (some value) s = (s, returned value)

-- What the worker is given: SendJson, ProcessDirect with the observer, the time and the text of an nlohmann::json error.
pub record Worker (S : Type 0) : Type 0 where
  pub config : RelayManagedAgentConfig
  pub send_json : Json → M S Bool
  pub process_direct : String → String → String → (Phase → M S Bool) → M S String
  pub now : String
  pub type_error : String

module _ {S : Type 0} (w : Worker S) where
  abbrev pub activity : String → String → String → M S Bool
  activity status summary command_id =
      w.send_json (build_activity_payload w.now status summary command_id)

  -- The try block of a dispatch.
  unfoldable pub run_command : String → String → M S Bool
  unfolding build_activity_payload phase_activity_summary build_result_payload
  run_command command_id payload = do
    result ←
        w.process_direct w.config.local_agent payload (command_session_key w.config command_id)
          (λ phase. activity "busy" (phase_activity_summary phase) command_id)
    w.send_json (build_result_payload command_id "completed" "result" result (some "100"))
    activity "idle" "Idle" ""

  unfoldable pub report_failure : String → Option String → M S Bool
  unfolding build_activity_payload build_result_payload
  report_failure command_id what = do
    w.send_json (
        build_result_payload command_id "failed" "error"
          (what_or "unknown relay execution error" what) none)
    activity "error" (what_or "unknown relay execution error" what) command_id

  unfoldable pub dispatch : String → String → M S Bool
  unfolding build_activity_payload build_ack_payload build_result_payload run_command report_failure
  dispatch command_id payload = do
    w.send_json (build_ack_payload command_id)
    activity "busy" "Executing relay command" command_id
    w.send_json (build_result_payload command_id "running" "" "" (some "0"))
    try_or (run_command command_id payload) (report_failure command_id)

  -- What HandleMessage does with a message of the type "command.dispatch".
  unfoldable pub handle_dispatch : Json → M S Bool
  unfolding text_value dispatch
  handle_dispatch json = do
    command_id ← read w.type_error (text_value "commandId" json)
    agent_id ← read w.type_error (text_value "agentId" json)
    payload ← read w.type_error (text_value "payload" json)
    (if empty command_id || (not (empty agent_id) && not (str_eq agent_id w.config.agent_id))
        then done
        else dispatch command_id payload)

  unfoldable pub handle_message : Json → M S Bool
  unfolding text_value handle_dispatch
  handle_message json = do
    type ← read w.type_error (text_value "type" json)
    (if str_eq type "command.dispatch" then handle_dispatch json else done)

-- The queue of the outbound writer. Whatever goes wrong is logged.
pub record Writer : Type 0 where
  pub running : Bool
  pub queue : List Json

unfoldable pub enqueue_json : Json → Writer → Writer
enqueue_json payload q = if q.running then record q { queue = q.queue ++ payload ∷ [] } else q

unfoldable pub report_inbound_phase : String → Phase → Writer → Writer
unfolding build_activity_payload enqueue_json
report_inbound_phase now phase =
    enqueue_json (build_activity_payload now "busy" (phase_summary phase) "")

unfoldable pub report_inbound_completion : String → Bool → String → Writer → Writer
unfolding build_activity_payload enqueue_json
report_inbound_completion now success summary =
    if success
    then enqueue_json (build_activity_payload now "idle" "Idle" "")
    else enqueue_json
        (build_activity_payload now "error" (or_else summary "channel execution failed") "")

-- The reporter that the constructor of RelayManager gives the registry, for an agent with a worker.
unfoldable pub report_inbound : String → Phase → Bool → String → Writer → Writer
unfolding report_inbound_phase report_inbound_completion
report_inbound now phase success summary =
    if empty summary && not success
    then report_inbound_phase now phase
    else report_inbound_completion now success summary

-- What the writer's thread does with the queue that it took: a message that cannot be sent is dropped.
unfoldable pub write_out : {S : Type 0} → (Json → M S Bool) → List Json → S → S
write_out send_json [] s = s
write_out send_json (payload ∷ rest) s = write_out send_json rest (send_json payload s).0
