-- ===== src/Agents/Loop/Calls.antt =====
-- The calls that the loop of src/agent/agent_loop.cpp makes: a world that writes them down, and how a
-- property of a session and of the rest of the program goes through the tool calls of a response.
use kabot.Base.{
  ◌≡◌, refl, if◌then◌else◌, Bool, String, Option, none, some, List, [], ◌∷◌, inl, inr, ◌||◌, str_eq,
  Bool-cases,
}
use kabot.Session.Types.{Session, add_tool_message}
use kabot.Agents.Context.{Message, ToolCallRequest}
use kabot.Agents.Loop.{
  World, Turn, edit_refusal, after_tool, execute_tool_with_guardrails, enter_result, run_calls,
}

pub data Event : Type 0 where
  chatted : List Message → Event
  ran : ToolCallRequest → Option String → Event

-- The world with what was called, the last call first.
unfoldable pub logged : {S : Type 0} → World S → World (S × List Event)
logged w = record {
  chat = λ messages st.
      let (s, log) = st in
      let (s', outcome) = w.chat messages s in ((s', chatted messages ∷ log), outcome);
  set_session_key = λ key st. let (s, log) = st in (w.set_session_key key s, log);
  execute = λ call st.
      let (s, log) = st in
      let (s', outcome) = w.execute call s in ((s', ran call outcome ∷ log), outcome);
  is_cancelled = λ st. w.is_cancelled st.0;
  to_string = w.to_string;
  dump_usage = w.dump_usage;
  now = w.now;
}

module _ {S : Type 0} (w : World S) where
  abbrev pub keyed : Session ToolCallRequest → ToolCallRequest → S → S
  keyed x call s = if str_eq call.name "agent" then w.set_session_key x.key s else s

  abbrev pub outcome_of :
      Session ToolCallRequest
      → ToolCallRequest
      → List Event
      → S × Option String
      → (S × List Event) × Option (Session ToolCallRequest × String)
  outcome_of x call log r = (
    (r.0, ran call r.1 ∷ log),
    elim r.1 [ none ↦ none | some text ↦ some (after_tool x call text, text) ],
  )

  pub execute-allowed :
      (x : Session ToolCallRequest) (s : S) (log : List Event) (call : ToolCallRequest)
      → edit_refusal x call ≡ none
      → execute_tool_with_guardrails (logged w) x call (s, log)
        ≡ outcome_of x call log (w.execute call (keyed x call s))
  unfolding execute_tool_with_guardrails logged
  execute-allowed x s log call e = elim (Bool-cases (str_eq call.name "agent")) [
    | inl a ↦ rw (execute_tool_with_guardrails, e, a) refl
    | inr a ↦ rw (execute_tool_with_guardrails, e, a) refl
  ]

  pub execute-refused :
      (x : Session ToolCallRequest) (st : S × List Event) (call : ToolCallRequest)
      (refusal : String)
      → edit_refusal x call ≡ some refusal
      → execute_tool_with_guardrails (logged w) x call st ≡ (st, some (x, refusal))
  unfolding execute_tool_with_guardrails
  execute-refused x st call refusal e = rw (execute_tool_with_guardrails, e) refl

module _ {S : Type 0} (w : World S) (P : Session ToolCallRequest → S → Type 0)
    (Q : S → Type 0) where
  -- What holds when a tool has run: of the session with its text, or of the rest when it threw.
  unfoldable pub HoldsRun : S × Option (Session ToolCallRequest × String) → Type 0
  HoldsRun (s, none) = Q s
  HoldsRun (s, some (session, text)) = P session s

  unfoldable pub HoldsCalls : S × Option (Turn × Bool) → Type 0
  HoldsCalls (s, none) = Q s
  HoldsCalls (s, some (t, planned)) = P t.session s

  module _ (weaken : (x : Session ToolCallRequest) (s : S) → P x s → Q s)
      (entered : (x : Session ToolCallRequest) (s : S) (id name text : String)
        → P x s
        → P (add_tool_message ToolCallRequest x id name text w.now w.now) s)
      (runs : (x : Session ToolCallRequest) (s : S) (call : ToolCallRequest)
        → P x s
        → HoldsRun (execute_tool_with_guardrails w x call s)) where
    after_run :
        (calls : List ToolCallRequest) (call : ToolCallRequest) (t : Turn) (planned : Bool)
        (r : S × Option (Session ToolCallRequest × String))
        → ((t' : Turn) (planned' : Bool) (s' : S)
            → P t'.session s'
            → HoldsCalls (run_calls w calls t' planned' s'))
        → HoldsRun r
        → HoldsCalls (
            let (s', outcome) = r in
            elim outcome [
              | none ↦ (s', none)
              | some result ↦
                  run_calls w calls
                    (enter_result w t call result)
                    (planned || str_eq call.name "plan_work")
                    s'
            ])
    unfolding enter_result HoldsRun HoldsCalls
    after_run calls call t planned (s', none) rest h = h
    after_run calls call t planned (s', some (x, text)) rest h =
        rest (enter_result w t call (x, text)) (planned || str_eq call.name "plan_work") s'
          (entered x s' call.id call.name text h)

    pub run_calls-HoldsCalls :
        (calls : List ToolCallRequest) (t : Turn) (planned : Bool) (s : S)
        → P t.session s
        → HoldsCalls (run_calls w calls t planned s)
    unfolding run_calls HoldsCalls
    run_calls-HoldsCalls [] t planned s h = h
    run_calls-HoldsCalls (call ∷ calls) t planned s h = elim (Bool-cases (w.is_cancelled s)) [
      | inl c ↦ rw (c, run_calls) (weaken t.session s h)
      | inr c ↦
          rw (c, run_calls)
            (after_run calls call t planned (execute_tool_with_guardrails w t.session call s)
              (run_calls-HoldsCalls calls) (runs t.session s call h))
    ]
