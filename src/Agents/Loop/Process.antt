-- ===== src/Agents/Loop/Process.antt =====
-- HandleInbound, ProcessMessage, ProcessSystemMessage and ProcessDirect of src/agent/agent_loop.cpp around
-- the loop. The three tools whose context is set are those of RegisterDefaultTools; an observer stays
-- outside. `world` acts on the whole state, since tools and other threads may change the sessions while
-- the loop runs. A turn that throws leaves the state that the loop left; its session is dropped.
pub mod Entries
pub mod Notifications
pub mod Failures
mod Examples
use Prim.Native.String
use Prim.Native.Char.{Char, code}
use Prim.Native.String.{slice, len}
use text.Mathlib.Text.{starts_with}
use kabot.Base.{
  ℕ, suc, ◌+◌, Bool, true, false, not, ◌&&◌, ◌||◌, find?, ◌==◌, String, Option, none, some, List,
  [], ◌∷◌, ◌++◌, map, str_eq, empty, if◌then◌else◌,
}
use kabot.Base.Dict.{Dict}
use kabot.Base.Int.{ℤ}
use kabot.Bus.{InboundMessage, OutboundMessage, ◌<+>◌, or_else, session_key}
use kabot.Session.Types.{Session, add_message, take_pending_notifications}
use kabot.Session.History.{get_history}
use kabot.Session.Manager.{Database, SessionManager, get_or_create, save, delete}
use kabot.Agents.Context.{Message, ToolCallRequest, ContentPart, plain, build_messages}
use kabot.Agents.Guardrail.{requires_tool_guardrail}
use kabot.Agents.Memory.{extract_memory_block, strip_memory_block, memory_entry}
use kabot.Agents.Loop.{World, Turn, received, processing, notify_phase, loop}

-- The contexts of send_message, cron and plan_work.
pub record Contexts : Type 0 where
  pub message_channel : String
  pub message_chat_id : String
  pub cron_agent : String
  pub cron_channel : String
  pub cron_to : String
  pub plan_channel : String
  pub plan_channel_instance : String
  pub plan_chat_id : String
  pub plan_agent : String

pub record AgentState (database : Database ToolCallRequest) (S : Type 0) : Type 0 where
  pub sessions : SessionManager database
  pub contexts : Contexts
  pub today : List String
  pub published : List OutboundMessage
  pub rest : S

pub record DirectExecutionTarget : Type 0 where
  pub channel : String
  pub channel_instance : String
  pub chat_id : String
  pub working_directory : String
  pub upstream_merge_request : String

-- The default of Session::GetHistory.
abbrev pub default_history_messages : ℕ
default_history_messages = 50

pub record Settings : Type 0 where
  pub max_iterations : ℕ
  pub max_history_messages : ℕ
  pub system_prompt : String → String
  pub user_content : String → List String → List ContentPart
  pub parse_usage : String → Dict ℤ

abbrev pub reply_to : InboundMessage → String → OutboundMessage
reply_to msg content = record {
  channel = msg.channel;
  channel_instance = msg.channel_instance;
  agent_name = msg.agent_name;
  chat_id = msg.chat_id;
  content = content;
  reply_to = "";
  media = [];
  metadata = [];
}

-- An OutboundMessage{}.
abbrev pub no_reply : OutboundMessage
no_reply = record {
  channel = "";
  channel_instance = "";
  agent_name = "";
  chat_id = "";
  content = "";
  reply_to = "";
  media = [];
  metadata = [];
}

abbrev pub is_blank : Char → Bool
is_blank c = code c == 32 || code c == 9 || code c == 13 || code c == 10

unfoldable pub skip_blanks : String → String
skip_blanks String.[] = ""
skip_blanks (String.◌∷◌ c s) =
    let rest = skip_blanks s in if is_blank c then rest else String.◌∷◌ c s

-- The content, and whether it asks for a new session.
unfoldable pub read_new : String → String × Bool
unfolding skip_blanks
read_new content =
    if starts_with content "/new"
    then (skip_blanks (slice content 4 (len content)), true)
    else (content, false)

-- A notification of the session, as a message.
abbrev pub notification_message : String → Message
notification_message notif =
    record (plain "user" (
      "[System notification] " <+> notif
      <+> "\n\n(This is an automated notification, not a user message. Do not respond to it directly.)")) {
        is_virtual = true;
      }

abbrev pub from_history : kabot.Session.History.Message ToolCallRequest (Dict ℤ) → Message
from_history m = record {
  role = m.role;
  content = m.content;
  name = m.name;
  tool_call_id = m.tool_call_id;
  tool_calls = m.tool_calls;
  content_parts = [];
  usage = m.usage;
  is_virtual = false;
}

-- The variables in front of the loop.
unfoldable pub start_turn : List Message → Session ToolCallRequest → Turn
start_turn messages session = record {
  messages = messages;
  session = session;
  final_content = "";
  message_sent = false;
  tool_called = false;
  guardrail_retry_used = false;
  post_tool_reminder_used = false;
  last_phase = received;
  phases = received ∷ [];
}

-- StripMemoryBlock, whose loops always end.
unfoldable pub stripped : String → String
stripped content = elim (strip_memory_block content) [ none ↦ content | some text ↦ text ]

module _ {S : Type 0} {database : Database ToolCallRequest} (settings : Settings)
    (world : World (AgentState database S)) where
  abbrev pub history : ℕ → Session ToolCallRequest → List Message
  history max_messages session =
      map from_history (get_history [] settings.parse_usage max_messages session.messages)

  -- The turn of a request: the history and the request, then the pending notifications.
  unfoldable pub request_turn : ℕ → String → String → List String → Session ToolCallRequest → Turn
  unfolding start_turn
  request_turn max_messages content entered media session =
      let (session', pending) =
        take_pending_notifications ToolCallRequest
          (add_message ToolCallRequest session "user" entered [] "" world.now world.now) in
      start_turn
        (build_messages (settings.system_prompt content) (history max_messages session) content
            (settings.user_content content media)
          ++ map notification_message pending)
        session'

  -- Behind the loop: what was answered, saved and remembered.
  unfoldable pub finish :
      String → String → Turn → AgentState database S → AgentState database S × String
  unfolding stripped
  finish default_content key t st =
      let answered = or_else t.final_content default_content in
      let final_content = stripped answered in
      let session =
        add_message ToolCallRequest t.session "assistant" final_content [] "" world.now world.now in
      (
        record st {
          sessions = save database st.sessions session;
          today = elim (memory_entry key (extract_memory_block answered)) [
            | none ↦ st.today
            | some entry ↦ st.today ++ entry ∷ []
          ];
        },
        final_content,
      )

  -- Only ProcessDirect has a cancel token.
  abbrev pub token : Bool → World (AgentState database S)
  token cancellable = record world { is_cancelled = λ st. cancellable && world.is_cancelled st }

  -- The loop from a turn, and what is behind it; `none` is an exception.
  unfoldable pub run_turn :
      Bool
      → Bool
      → String
      → String
      → String
      → Turn
      → AgentState database S
      → AgentState database S × Option (Bool × String)
  unfolding finish
  run_turn cancellable guarded request default_content key t st =
      let (st', outcome) = loop (token cancellable) settings.max_iterations guarded request t st in
      elim outcome [
        | none ↦ (st', none)
        | some t' ↦
            let (st'', final_content) = finish default_content key t' st' in
            (st'', some (t'.message_sent, final_content))
      ]
