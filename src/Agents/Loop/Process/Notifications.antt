-- ===== src/Agents/Loop/Process/Notifications.antt =====
-- Pending notifications of a session while src/agent/agent_loop.cpp works on a message.
use mathlib.Core.Bool.{false≢true}
use kabot.Base.{
  ℕ, Bool, true, false, String, Option, none, some, List, [], ◌≡◌, refl, subst, sym, ◌∙◌, arith,
  inl, inr, Option-cases, Bool-cases, member, is_some, eq_iff,
}
use kabot.Base.Dict.{lookup, lookup-insert}
use kabot.Bus.{or_else, InboundMessage, session_key}
use kabot.Session.Types.{
  Session, add_message, add_tool_message, record_file_read, take_pending_notifications,
}
use kabot.Session.Manager.{Database, SessionManager, get_or_create, save}
use kabot.Agents.Context.{ToolCallRequest}
use kabot.Agents.Loop.{World, Turn, processing, loop, notify_phase}
use kabot.Agents.Guardrail.{requires_tool_guardrail}
use kabot.Agents.Loop.Edits.Rounds.{notify_phase-session}
use kabot.Agents.Loop.Sessions.{Closed, loop-Good}
use kabot.Agents.Loop.Process.{
  reply_to, start_turn, stripped, AgentState, Settings, run_turn, finish, request_turn, token,
}
use kabot.Agents.Loop.Process.Entries.{outbound_of, answer_message}

-- The session has no pending notification, and the key `key`.
abbrev pub Quiet : String → Session ToolCallRequest → Type 0
Quiet key x = (x.notifications ≡ none) × (x.key ≡ key)

Quiet-Closed : (key : String) → Closed (Quiet key)
unfolding add_message add_tool_message record_file_read
Quiet-Closed key = record {
  message = λ x role content calls usage stamp now h. h;
  tool = λ x id name content stamp now h. h;
  read = λ x path. elim (Bool-cases (member path x.read_file_paths)) [
    | inl e ↦ rw e (λ h. h)
    | inr e ↦ rw e (λ h. h)
  ];
}

no_database :
    {database : Database ToolCallRequest} (m : SessionManager database)
    (x : Session ToolCallRequest)
    → m.db ≡ none
    → is_some (save database m x).db ≡ false
unfolding save
no_database m x o = rw (save, o, o) refl

save-cached :
    {database : Database ToolCallRequest} (m : SessionManager database)
    (x : Session ToolCallRequest) (key : String)
    → x.key ≡ key
    → is_some (save database m x).db ≡ true
    → lookup key (save database m x).cache ≡ some x
unfolding save
save-cached m x key k e = elim (Option-cases m.db) [
  | inl o ↦ absurd (false≢true (sym (no_database m x o) ∙ e))
  | inr (db, o) ↦
      rw (save, o) (ground (arith, lookup-insert x.key key x m.cache, eq_iff x.key key, k))
]

module _ {S : Type 0} {database : Database ToolCallRequest} (settings : Settings)
    (world : World (AgentState database S)) where
  finish-saved :
      (default_content key : String) (t : Turn) (st : AgentState database S)
      → Quiet key t.session
      → is_some (finish settings world default_content key t st).0.sessions.db ≡ true
      → (x : Session ToolCallRequest) × (lookup key
            (finish settings world default_content key t st).0.sessions.cache
          ≡ some x)
        × (x.notifications ≡ none)
  unfolding finish add_message
  finish-saved default_content key t st h e =
      let x =
        add_message ToolCallRequest t.session "assistant"
          (stripped (or_else t.final_content default_content)) [] "" world.now world.now in
      (x, save-cached st.sessions x key h.1 e, h.0)

  run_turn-saved :
      (cancellable guarded : Bool) (request default_content key : String) (t : Turn)
      (st : AgentState database S)
      → Quiet key t.session
      → is_some (run_turn settings world cancellable guarded request default_content key t st).1
        ≡ true
      → is_some
          (run_turn settings world cancellable guarded request default_content key t
            st).0.sessions.db
        ≡ true
      → (x : Session ToolCallRequest) × (lookup key
            (run_turn settings world cancellable guarded request default_content key t
              st).0.sessions.cache
          ≡ some x)
        × (x.notifications ≡ none)
  unfolding run_turn
  run_turn-saved cancellable guarded request default_content key t st h e d =
      go (loop (token settings world cancellable) settings.max_iterations guarded request t st)
        (λ t'.
          loop-Good (token settings world cancellable) (Quiet key) (Quiet-Closed key)
            settings.max_iterations guarded request t t' st h)
        e d
    where
      go :
          (r : AgentState database S × Option Turn)
          → ((t' : Turn) → r.1 ≡ some t' → Quiet key t'.session)
          → is_some
              (elim r.1 as (λ x. AgentState database S × Option (Bool × String)) [
                | none ↦ (r.0, none)
                | some t' ↦ (
                  (finish settings world default_content key t' r.0).0,
                  some (t'.message_sent, (finish settings world default_content key t' r.0).1),
                )
              ]).1
            ≡ true
          → is_some
              (elim r.1 as (λ x. AgentState database S × Option (Bool × String)) [
                | none ↦ (r.0, none)
                | some t' ↦ (
                  (finish settings world default_content key t' r.0).0,
                  some (t'.message_sent, (finish settings world default_content key t' r.0).1),
                )
              ]).0.sessions.db
            ≡ true
          → (x : Session ToolCallRequest) × (lookup key
                (elim r.1 as (λ x. AgentState database S × Option (Bool × String)) [
                  | none ↦ (r.0, none)
                  | some t' ↦ (
                    (finish settings world default_content key t' r.0).0,
                    some (t'.message_sent, (finish settings world default_content key t' r.0).1),
                  )
                ]).0.sessions.cache
              ≡ some x)
            × (x.notifications ≡ none)
      go (st', none) q e' d' = absurd (false≢true e')
      go (st', some t') q e' d' = finish-saved default_content key t' st' (q t' refl) d'

  take-Quiet :
      (x : Session ToolCallRequest) → Quiet x.key (take_pending_notifications ToolCallRequest x).0
  unfolding take_pending_notifications
  take-Quiet x = elim (Option-cases x.notifications) [
    | inl o ↦ rw (take_pending_notifications, o) (o, refl)
    | inr (pending, o) ↦ rw (take_pending_notifications, o) (refl, refl)
  ]

  request_turn-Quiet :
      (max_messages : ℕ) (content entered : String) (media : List String)
      (x : Session ToolCallRequest)
      → Quiet x.key (request_turn settings world max_messages content entered media x).session
  unfolding request_turn start_turn add_message
  request_turn-Quiet max_messages content entered media x =
      take-Quiet (add_message ToolCallRequest x "user" entered [] "" world.now world.now)

  some_outcome :
      {A B : Type 0} (f : A → B) (o : Option A)
      → is_some (elim o as (λ x. Option B) [ none ↦ none | some a ↦ some (f a) ]) ≡ true
      → is_some o ≡ true
  some_outcome f none h = h
  some_outcome f (some a) h = refl

  -- When a message has been answered and the database is open, the session of the message has no pending
  -- notification, whatever `world` did to the sessions while the loop ran.
  pub answer_message-notifications :
      (msg : InboundMessage) (content : String) (st : AgentState database S)
      → (get_or_create database st.sessions (session_key msg) world.now).1.key ≡ session_key msg
      → is_some (answer_message settings world msg content st).1 ≡ true
      → is_some (answer_message settings world msg content st).0.sessions.db ≡ true
      → (x : Session ToolCallRequest) × (lookup
            (session_key msg)
            (answer_message settings world msg content st).0.sessions.cache
          ≡ some x)
        × (x.notifications ≡ none)
  unfolding answer_message
  answer_message-notifications msg content st k e d =
      let opened = get_or_create database st.sessions (session_key msg) world.now in
      let t =
        request_turn settings world settings.max_history_messages content content msg.media
          opened.1 in
      let state : AgentState database S = record st { sessions = opened.0 } in
      let quiet : Quiet (session_key msg) t.session =
        subst (λ key. Quiet key t.session) k
          (request_turn-Quiet settings.max_history_messages content content msg.media opened.1) in
      run_turn-saved false (requires_tool_guardrail content) content
        "I've completed processing but have no response to give." (session_key msg)
        (notify_phase processing t) state
        (subst (Quiet (session_key msg)) (sym (notify_phase-session processing t)) quiet)
        (some_outcome (outbound_of settings world (reply_to msg ""))
          (run_turn settings world false (requires_tool_guardrail content) content
            "I've completed processing but have no response to give." (session_key msg)
            (notify_phase processing t) state).1
          e)
        d
