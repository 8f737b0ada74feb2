-- ===== src/Agents/Loop/Results.antt =====
-- What the tool calls of a response leave in the messages and in the session of src/agent/agent_loop.cpp.
use kabot.Base.{
  Option-cases, if◌then◌else◌, Bool, true, ◌||◌, String, Option, none, some, List, [], ◌∷◌, ◌++◌,
  ◌≡◌, refl, map, arith, inl, inr, Bool-cases, str_eq, any, append_assoc, append-nil, subst, sym,
  ap, ◌∙◌,
}
use kabot.Session.Types.{Session, SessionMessage, add_tool_message, record_file_read}
use kabot.Base.Dict.{lookup}
use kabot.Agents.Context.{Message, ToolCallRequest, plain, add_tool_result}
use kabot.Agents.Loop.{
  World, Turn, execute_tool_with_guardrails, after_tool, edit_refusal, enter_result, run_calls,
}

-- The calls with their results, as messages for the provider.
unfoldable pub tool_results : List (ToolCallRequest × String) → List Message
tool_results [] = []
tool_results ((call, result) ∷ done) =
    record (plain "tool" result) { tool_call_id = call.id; name = call.name } ∷ tool_results done

-- The calls with their results, as messages of the session.
unfoldable pub session_results :
    String → List (ToolCallRequest × String) → List (SessionMessage ToolCallRequest)
session_results now [] = []
session_results now ((call, result) ∷ done) =
    record {
      role = "tool";
      content = result;
      timestamp = now;
      name = call.name;
      tool_call_id = call.id;
      tool_calls = [];
      usage_json = "";
    }
    ∷ session_results now done

module _ {S : Type 0} (w : World S) where
  -- `done` holds each call with its result, and the turn has them in the messages and in the session.
  pub record Entered (calls : List ToolCallRequest) (t t' : Turn) : Type 0 where
    pub done : List (ToolCallRequest × String)
    pub calls_done : map (λ (entry : ToolCallRequest × String). entry.0) done ≡ calls
    pub messages_done : t'.messages ≡ t.messages ++ tool_results done
    pub session_done : t'.session.messages ≡ t.session.messages ++ session_results w.now done
    pub sent_done : t'.message_sent ≡ (
        t.message_sent || any (λ (call : ToolCallRequest). str_eq call.name "send_message") calls)

  Returned : List ToolCallRequest → Turn → Option (Turn × Bool) → Type 0
  Returned calls t none = true ≡ true
  Returned calls t (some (t', planned)) = Entered calls t t'

  Keeps : Session ToolCallRequest → Option (Session ToolCallRequest × String) → Type 0
  Keeps session none = true ≡ true
  Keeps session (some (x, text)) = x.messages ≡ session.messages

  Entered-step :
      (call : ToolCallRequest) (calls : List ToolCallRequest) (t t' : Turn)
      (x : Session ToolCallRequest) (text : String)
      → x.messages ≡ t.session.messages
      → Entered calls (enter_result w t call (x, text)) t'
      → Entered (call ∷ calls) t t'
  unfolding enter_result tool_results session_results add_tool_result add_tool_message
  Entered-step call calls t t' x text e h = record {
    done = (call, text) ∷ h.done;
    calls_done = ap (λ xs. call ∷ xs) h.calls_done;
    messages_done =
        h.messages_done
        ∙ append_assoc t.messages (tool_results ((call, text) ∷ [])) (tool_results h.done);
    session_done =
        h.session_done
        ∙ ap
            (λ ms.
              (ms ++ session_results w.now ((call, text) ∷ [])) ++ session_results w.now h.done)
            e
        ∙ append_assoc t.session.messages (session_results w.now ((call, text) ∷ []))
            (session_results w.now h.done);
    sent_done = ground (arith, h.sent_done);
  }

  Entered-Returned :
      (call : ToolCallRequest) (calls : List ToolCallRequest) (t : Turn)
      (x : Session ToolCallRequest) (text : String) (o : Option (Turn × Bool))
      → x.messages ≡ t.session.messages
      → Returned calls (enter_result w t call (x, text)) o
      → Returned (call ∷ calls) t o
  unfolding Returned
  Entered-Returned call calls t x text none e h = refl
  Entered-Returned call calls t x text (some (t', planned)) e h =
      Entered-step call calls t t' x text e h

  after_tool-messages :
      (session : Session ToolCallRequest) (call : ToolCallRequest) (text : String)
      → (after_tool session call text).messages ≡ session.messages
  unfolding after_tool record_file_read
  after_tool-messages session call text = elim (Option-cases (lookup "path" call.arguments)) [
    | inl e ↦ ground arith
    | inr (path, e) ↦ ground arith
  ]

  execute-Keeps :
      (session : Session ToolCallRequest) (call : ToolCallRequest) (s : S)
      → Keeps session (execute_tool_with_guardrails w session call s).1
  unfolding Keeps execute_tool_with_guardrails
  execute-Keeps session call s = elim (Option-cases (edit_refusal session call)) [
    | inr (refusal, e) ↦ rw (Keeps, execute_tool_with_guardrails, e) refl
    | inl e ↦
        rw (execute_tool_with_guardrails, e)
          (kept
            (w.execute call
              (if str_eq call.name "agent" then w.set_session_key session.key s else s)).1)
  ]
    where
      kept :
          (o : Option String)
          → Keeps session
              (elim o [ none ↦ none | some text ↦ some (after_tool session call text, text) ])
      kept none = refl
      kept (some text) = after_tool-messages session call text

  after_run :
      (call : ToolCallRequest) (calls : List ToolCallRequest) (t : Turn) (planned : Bool)
      (r : S × Option (Session ToolCallRequest × String))
      → ((t' : Turn) (planned' : Bool) (s' : S)
          → Returned calls t' (run_calls w calls t' planned' s').1)
      → Keeps t.session r.1
      → Returned
          (call ∷ calls)
          t
          (elim r.1 as (λ x. S × Option (Turn × Bool)) [
            | none ↦ (r.0, none)
            | some result ↦
                run_calls w calls
                  (enter_result w t call result)
                  (planned || str_eq call.name "plan_work")
                  r.0
          ]).1
  unfolding Returned Keeps
  after_run call calls t planned (s, none) rest h = refl
  after_run call calls t planned (s, some (x, text)) rest h =
      Entered-Returned call calls t x text
        (run_calls w calls (enter_result w t call (x, text))
          (planned || str_eq call.name "plan_work") s).1
        h (rest (enter_result w t call (x, text)) (planned || str_eq call.name "plan_work") s)

  run_calls-Returned :
      (calls : List ToolCallRequest) (t : Turn) (planned : Bool) (s : S)
      → Returned calls t (run_calls w calls t planned s).1
  unfolding Returned run_calls tool_results session_results
  run_calls-Returned [] t planned s = record {
    done = [];
    calls_done = refl;
    messages_done = sym (append-nil t.messages);
    session_done = sym (append-nil t.session.messages);
    sent_done = ground arith;
  }
  run_calls-Returned (call ∷ calls) t planned s = elim (Bool-cases (w.is_cancelled s)) [
    | inl e ↦ rw (Returned, run_calls, e) refl
    | inr e ↦
        rw (run_calls, e)
          (after_run call calls t planned (execute_tool_with_guardrails w t.session call s)
            (run_calls-Returned calls) (execute-Keeps t.session call s))
  ]

  -- When the tool calls of a response have all run, the messages for the provider and those of the
  -- session have each grown by exactly one tool message per call, in the order of the calls, with the
  -- call's id and name and the same text in both; message_sent says whether send_message was among them.
  pub run_calls-Entered :
      (calls : List ToolCallRequest) (t t' : Turn) (planned planned' : Bool) (s s' : S)
      → run_calls w calls t planned s ≡ (s', some (t', planned'))
      → Entered calls t t'
  unfolding Returned
  run_calls-Entered calls t t' planned planned' s s' e =
      subst (λ (r : S × Option (Turn × Bool)). Returned calls t r.1) e
        (run_calls-Returned calls t planned s)
