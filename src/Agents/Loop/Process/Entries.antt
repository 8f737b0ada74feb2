-- ===== src/Agents/Loop/Process/Entries.antt =====
-- The entries of a turn in src/agent/agent_loop.cpp: ProcessMessage, ProcessSystemMessage, HandleInbound and
-- ProcessDirect, with the contexts of the tools that they set.
use Prim.Native.String.{slice, len}
use kabot.Base.{
  ◌+◌, Bool, true, false, ◌&&◌, find?, String, Option, none, some, List, [], ◌∷◌, ◌++◌, str_eq,
  empty, if◌then◌else◌,
}
use kabot.Bus.{InboundMessage, OutboundMessage, ◌<+>◌, or_else, session_key}
use kabot.Session.Manager.{Database, get_or_create, delete}
use kabot.Agents.Context.{Message, ToolCallRequest, plain}
use kabot.Agents.Guardrail.{requires_tool_guardrail}
use kabot.Agents.Loop.{World, processing, notify_phase}
use kabot.Agents.Loop.Process.{
  AgentState, DirectExecutionTarget, Settings, default_history_messages, reply_to, no_reply,
  read_new, request_turn, run_turn,
}

module _ {S : Type 0} {database : Database ToolCallRequest} (settings : Settings)
    (world : World (AgentState database S)) where
  abbrev pub set_contexts : String → String → String → AgentState database S → AgentState database S
  set_contexts agent channel chat_id st = record st {
    contexts = record st.contexts {
      message_channel = channel;
      message_chat_id = chat_id;
      cron_agent = agent;
      cron_channel = channel;
      cron_to = chat_id;
    };
  }

  abbrev pub typing : InboundMessage → AgentState database S → AgentState database S
  typing msg st =
      if str_eq msg.channel "telegram"
      then record st {
        published =
            st.published ++ record (reply_to msg "") { metadata = ("action", "typing") ∷ [] } ∷ [];
      }
      else st

  -- The contexts that a message of a channel sets.
  abbrev pub message_contexts : InboundMessage → AgentState database S → AgentState database S
  message_contexts msg st = record st {
    contexts = record {
      message_channel = msg.channel;
      message_chat_id = msg.chat_id;
      cron_agent = msg.agent_name;
      cron_channel = or_else msg.channel_instance msg.channel;
      cron_to = msg.chat_id;
      plan_channel = msg.channel;
      plan_channel_instance = msg.channel_instance;
      plan_chat_id = msg.chat_id;
      plan_agent = msg.agent_name;
    };
  }

  -- What a turn answers to a channel: nothing once send_message was called.
  abbrev pub outbound_of : OutboundMessage → Bool × String → OutboundMessage
  outbound_of out (true, final_content) = no_reply
  outbound_of out (false, final_content) = record out { content = final_content }

  unfoldable pub answer_message :
      InboundMessage
      → String
      → AgentState database S
      → AgentState database S × Option OutboundMessage
  unfolding request_turn run_turn
  answer_message msg content st =
      let (sessions, session) = get_or_create database st.sessions (session_key msg) world.now in
      let (st', outcome) =
        run_turn settings world false (requires_tool_guardrail content) content
          "I've completed processing but have no response to give." (session_key msg)
          (notify_phase processing (
            request_turn settings world settings.max_history_messages content content msg.media
              session))
          (record st { sessions = sessions }) in
      (st', elim outcome [ none ↦ none | some r ↦ some (outbound_of (reply_to msg "") r) ])

  -- Behind the test for "/new": the content, and whether it was asked for.
  unfoldable pub after_command :
      InboundMessage
      → String × Bool
      → AgentState database S
      → AgentState database S × Option OutboundMessage
  unfolding answer_message
  after_command msg (content, reset_session) st =
      let cleared : AgentState database S = record st {
        sessions =
            if reset_session
            then (delete database st.sessions (session_key msg)).0
            else st.sessions;
      } in
      if reset_session && empty content
      then (cleared, some (reply_to msg "已创建新会话，请发送新的问题。"))
      else answer_message msg content cleared

  unfoldable pub process_message :
      InboundMessage → AgentState database S → AgentState database S × Option OutboundMessage
  unfolding after_command read_new
  process_message msg st =
      after_command msg (read_new msg.content) (message_contexts msg (typing msg st))

  -- The channel and the chat that a system message comes from.
  unfoldable pub origin : String → String × String
  origin chat_id = elim (find? chat_id ":") [
    | none ↦ ("cli", chat_id)
    | some i ↦ (slice chat_id 0 i, slice chat_id (i + 1) (len chat_id))
  ]

  unfoldable pub process_system_message :
      InboundMessage → AgentState database S → AgentState database S × Option OutboundMessage
  unfolding request_turn run_turn origin
  process_system_message msg st =
      let (origin_channel, origin_chat_id) = origin msg.chat_id in
      let key = origin_channel <+> ":" <+> origin_chat_id in
      let st' = set_contexts msg.agent_name origin_channel origin_chat_id st in
      let (sessions, session) = get_or_create database st'.sessions key world.now in
      let (st'', outcome) =
        run_turn settings world false (requires_tool_guardrail msg.content) msg.content
          "Background task completed." key
          (request_turn settings world default_history_messages msg.content
            ("[System] " <+> msg.content) [] session)
          (record st' { sessions = sessions }) in
      (
        st'',
        elim outcome [
          | none ↦ none
          | some r ↦ some (
              outbound_of (record no_reply { channel = origin_channel; chat_id = origin_chat_id })
                r)
        ],
      )

  -- HandleInbound; the text of an exception is the argument `what`.
  unfoldable pub handle_inbound :
      String → InboundMessage → AgentState database S → AgentState database S × OutboundMessage
  unfolding process_message process_system_message
  handle_inbound what msg st =
      let (st', outcome) =
        if str_eq msg.channel "system"
        then process_system_message msg st
        else process_message msg st in
      (st', elim outcome [ none ↦ reply_to msg ("Error: " <+> what) | some out ↦ out ])

  -- A message of ProcessDirect about its target, behind the system message.
  abbrev pub insert_context : String → List Message → List Message
  insert_context content [] = []
  insert_context content (m ∷ messages) =
      m ∷ record (plain "user" content) { is_virtual = true } ∷ messages

  abbrev pub target_messages : DirectExecutionTarget → List Message → List Message
  target_messages target messages =
      let placed =
        if empty target.working_directory
        then messages
        else insert_context
            ("[System context] You are working inside a cloned git repository at: "
              <+> target.working_directory
              <+> "\nAll file operations and shell commands should be relative to this directory unless explicitly directed otherwise."
              <+> "\nCommit your changes when done.")
            messages in
      if empty target.upstream_merge_request
      then placed
      else insert_context
          ("[Upstream context] This task depends on a previously created merge request: "
            <+> target.upstream_merge_request
            <+> "\nPlease review the MR and ensure your work is consistent with it.")
          placed

  unfoldable pub process_direct :
      String
      → String
      → DirectExecutionTarget
      → AgentState database S
      → AgentState database S × Option String
  unfolding request_turn run_turn
  process_direct content key target st =
      let target_channel = or_else target.channel_instance target.channel in
      let contexts = (set_contexts "" target_channel target.chat_id st).contexts in
      let (sessions, session) = get_or_create database st.sessions key world.now in
      let t =
        request_turn settings world settings.max_history_messages content content [] session in
      let (st', outcome) =
        run_turn settings world true (requires_tool_guardrail content) content
          "Background task completed." key
          (notify_phase processing (record t { messages = target_messages target t.messages }))
          (record st {
            sessions = sessions;
            contexts = record contexts {
              plan_channel = target.channel;
              plan_channel_instance = target.channel_instance;
              plan_chat_id = target.chat_id;
              plan_agent = "";
            };
          }) in
      (st', elim outcome [ none ↦ none | some r ↦ some r.1 ])
