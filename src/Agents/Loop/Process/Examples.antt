-- ===== src/Agents/Loop/Process/Examples.antt =====
-- A message for src/agent/agent_loop.cpp while whose provider works a sub-agent leaves a notification in
-- the session, as the callback of AgentLoop's constructor does.
use kabot.Base.{ℕ, false, none, some, [], ◌∷◌, ◌≡◌, refl}
use kabot.Base.Dict.{Dict, lookup, insert, erase, lookup-insert, lookup-erase}
use kabot.Bus.{InboundMessage, session_key}
use kabot.Session.Types.{Session, add_pending_notification, new_session}
use kabot.Session.Manager.{Database, get_or_create, save}
use kabot.Agents.Context.{ToolCallRequest}
use kabot.Agents.Loop.{World}
use kabot.Agents.Loop.Process.{AgentState, Contexts, Settings}
use kabot.Agents.Loop.Process.Entries.{answer_message}
use kabot.Agents.Loop.Process.Notifications.{answer_message-notifications}

abbrev table : Database ToolCallRequest
table = record {
  Db = Dict (Session ToolCallRequest);
  save_rows = λ db s. insert s.key s db;
  delete_rows = λ db key. erase key db;
  load_rows = λ db key. lookup key db;
  persisted = λ s. s;
  load-save = λ db s k. lookup-insert s.key k s db;
  load-delete = λ db k j. lookup-erase k j db;
}

abbrev State : Type 0
State = AgentState table ℕ

abbrev chat : Session ToolCallRequest
chat = new_session ToolCallRequest "cli:default:1" "t"

-- The sub-agent's notification, saved in the session.
abbrev notified : State → State
notified st = record st {
  sessions =
      save table st.sessions (add_pending_notification ToolCallRequest chat "sub-agent 1 is done");
}

abbrev world : World State
world = record {
  chat = λ messages st.
      (notified st, some (record { content = "Hello."; tool_calls = []; usage = [] }));
  set_session_key = λ key st. st;
  execute = λ tool st. (st, some "ok");
  is_cancelled = λ st. false;
  to_string = λ n. "n";
  dump_usage = λ usage. "";
  now = "t";
}

abbrev settings : Settings
settings = record {
  max_iterations = 2;
  max_history_messages = 50;
  system_prompt = λ request. "You are kabot.";
  user_content = λ request media. [];
  parse_usage = λ json. [];
}

abbrev greeting : InboundMessage
greeting = record {
  channel = "cli";
  channel_instance = "";
  agent_name = "";
  sender_id = "me";
  chat_id = "1";
  content = "Hi";
  media = [];
  metadata = [];
  timestamp = 0;
}

abbrev no_contexts : Contexts
no_contexts = record {
  message_channel = "";
  message_chat_id = "";
  cron_agent = "";
  cron_channel = "";
  cron_to = "";
  plan_channel = "";
  plan_channel_instance = "";
  plan_chat_id = "";
  plan_agent = "";
}

abbrev state : State
state = record {
  sessions = record { cache = ("cli:default:1", chat) ∷ []; db = some [] };
  contexts = no_contexts;
  today = [];
  published = [];
  rest = 0;
}

answer_message-notifications_example :
    (x : Session ToolCallRequest) × (lookup
        (session_key greeting)
        (answer_message settings world greeting "Hi" state).0.sessions.cache
      ≡ some x)
    × (x.notifications ≡ none)
unfolding session_key get_or_create lookup new_session answer_message kabot.Agents.Loop.loop
    kabot.Agents.Guardrail.requires_tool_guardrail kabot.Tasks.Questions.to_lower
    kabot.Agents.Loop.notify_phase save
answer_message-notifications_example =
    answer_message-notifications settings world greeting "Hi" state refl refl refl
