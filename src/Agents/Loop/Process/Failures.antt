-- ===== src/Agents/Loop/Process/Failures.antt =====
-- A message whose provider fails, in HandleInbound of src/agent/agent_loop.cpp.
use kabot.Base.{
  ℕ, suc, Bool, false, String, Option, none, some, inl, inr, Bool-cases, List, ◌≡◌, refl, str_eq,
  ap, ◌∙◌,
}
use kabot.Bus.{InboundMessage, OutboundMessage, session_key, ◌<+>◌}
use kabot.Session.Manager.{Database, get_or_create}
use kabot.Agents.Context.{Message, ToolCallRequest, project_messages}
use kabot.Agents.Loop.{
  World, Turn, LlmResponse, Next, again, finished, thrown, respond, round, loop,
}
use kabot.Agents.Loop.Process.{AgentState, Settings, read_new, reply_to, run_turn, finish, token}
use kabot.Agents.Loop.Process.Entries.{
  outbound_of, message_contexts, typing, answer_message, after_command, process_message,
  handle_inbound,
}

module _ {S : Type 0} {database : Database ToolCallRequest} (settings : Settings)
    (world : World (AgentState database S)) where
  module _
      (fails : (messages : List Message) (st : AgentState database S)
        → world.chat messages st ≡ (st, none))
      (n : ℕ) (bounded : settings.max_iterations ≡ suc n) where
    abbrev quiet : World (AgentState database S)
    quiet = token settings world false

    round-fails :
        (guarded : Bool) (request : String) (t : Turn) (st : AgentState database S)
        → round quiet guarded request t st ≡ (st, thrown)
    unfolding round
    round-fails guarded request t st =
        ap
          (λ (p : AgentState database S × Option LlmResponse).
            elim p.1 as (λ x. AgentState database S × Next) [
              | none ↦ (p.0, thrown)
              | some response ↦ respond quiet guarded request t response p.0
            ])
          (fails (project_messages world.to_string t.messages) st)

    loop-fails :
        (guarded : Bool) (request : String) (t : Turn) (st : AgentState database S)
        → loop quiet settings.max_iterations guarded request t st ≡ (st, none)
    unfolding loop
    loop-fails guarded request t st =
        ap (λ k. loop quiet k guarded request t st) bounded
        ∙ ap
            (λ (p : AgentState database S × Next).
              elim p.1 as (λ x. AgentState database S × Option Turn) [
                | again t' ↦ loop quiet n guarded request t' p.0
                | finished t' ↦ (p.0, some t')
                | thrown ↦ (p.0, none)
              ])
            (round-fails guarded request t st)

    run_turn-fails :
        (guarded : Bool) (request default_content key : String) (t : Turn)
        (st : AgentState database S)
        → run_turn settings world false guarded request default_content key t st ≡ (st, none)
    unfolding run_turn
    run_turn-fails guarded request default_content key t st =
        ap
          (λ (p : AgentState database S × Option Turn).
            elim p.1 as (λ x. AgentState database S × Option (Bool × String)) [
              | none ↦ (p.0, none)
              | some t' ↦ (
                (finish settings world default_content key t' p.0).0,
                some (t'.message_sent, (finish settings world default_content key t' p.0).1),
              )
            ])
          (loop-fails guarded request t st)

    answer_message-fails :
        (msg : InboundMessage) (content : String) (st : AgentState database S)
        → answer_message settings world msg content st ≡ (
          record st {
            sessions = (get_or_create database st.sessions (session_key msg) world.now).0;
          },
          none,
        )
    unfolding answer_message
    answer_message-fails msg content st =
        ap
          (λ (p : AgentState database S × Option (Bool × String)). (
            p.0,
            elim p.1 as (λ x. Option OutboundMessage) [
              | none ↦ none
              | some r ↦ some (outbound_of settings world (reply_to msg "") r)
            ],
          ))
          (run_turn-fails _ _ _ _ _ _)

  typing-sessions :
      (msg : InboundMessage) (st : AgentState database S)
      → (message_contexts settings world msg (typing settings world msg st)).sessions ≡ st.sessions
  typing-sessions msg st = elim (Bool-cases (str_eq msg.channel "telegram")) [
    | inl e ↦ rw e refl
    | inr e ↦ rw e refl
  ]

  process_message-old :
      (msg : InboundMessage) (st : AgentState database S)
      → read_new msg.content ≡ (msg.content, false)
      → process_message settings world msg st
        ≡ answer_message settings world msg msg.content
            (message_contexts settings world msg (typing settings world msg st))
  unfolding process_message after_command
  process_message-old msg st old =
      ap
        (λ p.
          after_command settings world msg p
            (message_contexts settings world msg (typing settings world msg st)))
        old

  handle_inbound-other :
      (what : String) (msg : InboundMessage) (st : AgentState database S)
      → str_eq msg.channel "system" ≡ false
      → handle_inbound settings world what msg st ≡ (
        (process_message settings world msg st).0,
        elim (process_message settings world msg st).1 as (λ x. OutboundMessage) [
          | none ↦ reply_to msg ("Error: " <+> what)
          | some out ↦ out
        ],
      )
  unfolding handle_inbound
  handle_inbound-other what msg st channel = rw (handle_inbound, channel) refl

  -- When the provider throws at every call and leaves the state as it is, at least one iteration is allowed, and the
  -- message is of a channel other than "system" and asks for no new session, the reply is the error, addressed as the
  -- message is, and the sessions are as if the session had only been looked up.
  pub handle_inbound-fails :
      (what : String) (msg : InboundMessage) (st : AgentState database S) (n : ℕ)
      → ((messages : List Message) (st' : AgentState database S)
          → world.chat messages st' ≡ (st', none))
      → settings.max_iterations ≡ suc n
      → str_eq msg.channel "system" ≡ false
      → read_new msg.content ≡ (msg.content, false)
      → ((handle_inbound settings world what msg st).1 ≡ reply_to msg ("Error: " <+> what))
        × ((handle_inbound settings world what msg st).0.sessions
            ≡ (get_or_create database st.sessions (session_key msg) world.now).0)
  handle_inbound-fails what msg st n fails bounded channel old =
      let st' = message_contexts settings world msg (typing settings world msg st) in
      let e =
        handle_inbound-other what msg st channel
        ∙ ap
            (λ (p : AgentState database S × Option OutboundMessage). (
              p.0,
              elim p.1 as (λ x. OutboundMessage) [
                | none ↦ reply_to msg ("Error: " <+> what)
                | some out ↦ out
              ],
            ))
            (process_message-old msg st old
              ∙ answer_message-fails fails n bounded msg msg.content st') in
      (
        ap (λ (p : AgentState database S × OutboundMessage). p.1) e,
        ap (λ (p : AgentState database S × OutboundMessage). p.0.sessions) e
            ∙ ap (λ m. (get_or_create database m (session_key msg) world.now).0)
                (typing-sessions msg st),
      )
