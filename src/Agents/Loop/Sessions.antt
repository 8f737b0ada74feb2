-- ===== src/Agents/Loop/Sessions.antt =====
-- The session through the loop of src/agent/agent_loop.cpp: what holds of it and is kept by AddMessage,
-- AddToolMessage and RecordFileRead holds at the end.
use text.Mathlib.Text.{starts_with}
use kabot.Base.{
  ℕ, zero, suc, Bool, true, false, not, ◌&&◌, String, Option, none, some, List, ◌≡◌, refl, inl, inr,
  Bool-cases, Option-cases, subst, str_eq, empty, if◌then◌else◌,
}
use kabot.Base.Dict.{lookup}
use kabot.Session.Types.{Session, add_message, add_tool_message, record_file_read}
use kabot.Agents.Context.{ToolCallRequest, project_messages}
use kabot.Agents.Memory.{trim}
use kabot.Agents.Loop.{
  World, Turn, LlmResponse, Next, again, finished, thrown, Phase, replying, processing,
  edit_refusal, after_tool, execute_tool_with_guardrails, notify_phase, run_calls, enter_request,
  has_tool_calls, respond, answer, after_calls, round, loop,
}
use kabot.Agents.Loop.Edits.Rounds.{notify_phase-session}
use kabot.Agents.Loop.Calls.{HoldsRun, HoldsCalls, run_calls-HoldsCalls}

-- The operations that the loop applies to its session keep `Good`.
pub record Closed (Good : Session ToolCallRequest → Type 0) : Type 0 where
  pub message :
      (x : Session ToolCallRequest) (role content : String) (calls : List ToolCallRequest)
      (usage stamp now : String)
      → Good x
      → Good (add_message ToolCallRequest x role content calls usage stamp now)
  pub tool :
      (x : Session ToolCallRequest) (id name content stamp now : String)
      → Good x
      → Good (add_tool_message ToolCallRequest x id name content stamp now)
  pub read :
      (x : Session ToolCallRequest) (path : String)
      → Good x
      → Good (record_file_read ToolCallRequest x path)

module _ {S : Type 0} (w : World S) (Good : Session ToolCallRequest → Type 0)
    (closed : Closed Good) where
  After : Session ToolCallRequest → S → Type 0
  After x s = Good x

  Always : S → Type 0
  Always s = true ≡ true

  after_tool-Good :
      (x : Session ToolCallRequest) (call : ToolCallRequest) (text : String)
      → Good x
      → Good (after_tool x call text)
  unfolding after_tool
  after_tool-Good x call text h = elim (Bool-cases (str_eq call.name "read_file")) [
    | inr e ↦ rw (after_tool, e) h
    | inl e ↦ elim (Option-cases (lookup "path" call.arguments)) [
      | inl o ↦ rw (after_tool, e, o) h
      | inr (path, o) ↦ elim (Bool-cases (not (empty text) && not (starts_with text "Error:"))) [
        | inl r ↦ rw (after_tool, e, o, r) (closed.read x path h)
        | inr r ↦ rw (after_tool, e, o, r) h
      ]
    ]
  ]

  runs-Good :
      (x : Session ToolCallRequest) (s : S) (call : ToolCallRequest)
      → Good x
      → HoldsRun w After Always (execute_tool_with_guardrails w x call s)
  unfolding HoldsRun After Always execute_tool_with_guardrails
  runs-Good x s call h = elim (Option-cases (edit_refusal x call)) [
    | inr (refusal, e) ↦ rw (HoldsRun, execute_tool_with_guardrails, e) h
    | inl e ↦
        rw (execute_tool_with_guardrails, e)
          (ran_good
            (w.execute call (if str_eq call.name "agent" then w.set_session_key x.key s else s)))
  ]
    where
      ran_good :
          (r : S × Option String)
          → HoldsRun w After Always
              (r.0, elim r.1 [ none ↦ none | some text ↦ some (after_tool x call text, text) ])
      ran_good (s', none) = refl
      ran_good (s', some text) = after_tool-Good x call text h

  GoodNext : Next → Type 0
  GoodNext (again t) = Good t.session
  GoodNext (finished t) = Good t.session
  GoodNext thrown = true ≡ true

  notify_phase-Good :
      (phase : Phase) (t : Turn) → Good t.session → Good (notify_phase phase t).session
  notify_phase-Good phase t h = rw (notify_phase-session phase t) h

  answer-GoodNext :
      (guarded : Bool) (request : String) (t : Turn) (response : LlmResponse)
      → Good t.session
      → GoodNext (answer guarded request t response)
  unfolding GoodNext answer
  answer-GoodNext guarded request t response h =
      elim (Bool-cases (guarded && not t.tool_called && not t.guardrail_retry_used)) [
        | inl e ↦ rw (GoodNext, answer, e) h
        | inr e ↦
            elim (Bool-cases
              (t.tool_called && empty (trim response.content) && not t.post_tool_reminder_used)) [
                | inl f ↦ rw (GoodNext, answer, e, f) h
                | inr f ↦ rw (GoodNext, answer, e, f) (notify_phase-Good replying t h)
              ]
      ]

  after_calls-GoodNext :
      (r : S × Option (Turn × Bool)) → HoldsCalls w After Always r → GoodNext (after_calls r.1)
  unfolding GoodNext HoldsCalls after_calls After
  after_calls-GoodNext (s, none) h = refl
  after_calls-GoodNext (s, some (t, true)) h = notify_phase-Good processing t h
  after_calls-GoodNext (s, some (t, false)) h = notify_phase-Good processing t h

  request-Good :
      (t : Turn) (response : LlmResponse)
      → Good t.session
      → Good (enter_request w t response).session
  unfolding enter_request
  request-Good t response h =
      closed.message t.session "assistant" response.content response.tool_calls
        (w.dump_usage response.usage) w.now w.now h

  respond-GoodNext :
      (guarded : Bool) (request : String) (t : Turn) (response : LlmResponse) (s : S)
      → Good t.session
      → GoodNext (respond w guarded request t response s).1
  unfolding respond After Always
  respond-GoodNext guarded request t response s h = elim (Bool-cases (has_tool_calls response)) [
    | inl e ↦
        rw (respond, e)
          (after_calls-GoodNext
            (run_calls w response.tool_calls (enter_request w t response) false s)
            (run_calls-HoldsCalls w After Always (λ x s' p. refl)
              (λ x s' id name text. closed.tool x id name text w.now w.now) runs-Good
              response.tool_calls (enter_request w t response) false s (request-Good t response h)))
    | inr e ↦ rw (respond, e) (answer-GoodNext guarded request t response h)
  ]

  after_chat :
      (guarded : Bool) (request : String) (t : Turn) (r : S × Option LlmResponse)
      → Good t.session
      → GoodNext
          (elim r.1 as (λ x. S × Next) [
            | none ↦ (r.0, thrown)
            | some response ↦ respond w guarded request t response r.0
          ]).1
  unfolding GoodNext
  after_chat guarded request t (s, none) h = refl
  after_chat guarded request t (s, some response) h =
      respond-GoodNext guarded request t response s h

  round-GoodNext :
      (guarded : Bool) (request : String) (t : Turn) (s : S)
      → Good t.session
      → GoodNext (round w guarded request t s).1
  unfolding round GoodNext
  round-GoodNext guarded request t s h = elim (Bool-cases (w.is_cancelled s)) [
    | inl e ↦ rw (round, e) refl
    | inr e ↦
        rw (round, e)
          (after_chat guarded request t (w.chat (project_messages w.to_string t.messages) s) h)
  ]

  GoodEnd : Option Turn → Type 0
  GoodEnd none = true ≡ true
  GoodEnd (some t) = Good t.session

  after_round :
      (left : ℕ) (guarded : Bool) (request : String) (r : S × Next)
      → ((t : Turn) (s : S) → Good t.session → GoodEnd (loop w left guarded request t s).1)
      → GoodNext r.1
      → GoodEnd
          (elim r.1 as (λ x. S × Option Turn) [
            | again t' ↦ loop w left guarded request t' r.0
            | finished t' ↦ (r.0, some t')
            | thrown ↦ (r.0, none)
          ]).1
  unfolding GoodNext GoodEnd
  after_round left guarded request (s, again t) rest h = rest t s h
  after_round left guarded request (s, finished t) rest h = h
  after_round left guarded request (s, thrown) rest h = refl

  loop-GoodEnd :
      (left : ℕ) (guarded : Bool) (request : String) (t : Turn) (s : S)
      → Good t.session
      → GoodEnd (loop w left guarded request t s).1
  unfolding loop GoodEnd
  loop-GoodEnd zero guarded request t s h = h
  loop-GoodEnd (suc left) guarded request t s h =
      after_round left guarded request (round w guarded request t s)
        (loop-GoodEnd left guarded request) (round-GoodNext guarded request t s h)

  pub loop-Good :
      (left : ℕ) (guarded : Bool) (request : String) (t t' : Turn) (s : S)
      → Good t.session
      → (loop w left guarded request t s).1 ≡ some t'
      → Good t'.session
  unfolding GoodEnd
  loop-Good left guarded request t t' s h e =
      subst GoodEnd e (loop-GoodEnd left guarded request t s h)
