-- ===== src/Agents/Loop/Bounds.antt =====
-- How often the loop of src/agent/agent_loop.cpp calls the provider.
use kabot.Base.{
  ℕ, zero, suc, ◌+◌, ◌≤◌, Bool, false, String, Option, none, some, List, [], ◌∷◌, ◌≡◌, refl, arith,
  inl, inr, Bool-cases, subst, sym, Option-cases,
}
use kabot.Session.Types.{Session}
use kabot.Agents.Context.{Message, ToolCallRequest, project_messages}
use kabot.Agents.Loop.{
  World, Turn, LlmResponse, Next, again, finished, thrown, edit_refusal,
  execute_tool_with_guardrails, run_calls, enter_request, has_tool_calls, respond, round, loop,
}
use kabot.Agents.Loop.Calls.{
  Event, chatted, ran, logged, HoldsRun, HoldsCalls, run_calls-HoldsCalls, keyed, outcome_of,
  execute-allowed, execute-refused,
}

-- The calls of the provider in a log.
unfoldable pub chats : List Event → ℕ
chats [] = 0
chats (chatted messages ∷ log) = suc (chats log)
chats (ran call outcome ∷ log) = chats log

module _ {S : Type 0} (w : World S) (n : ℕ) where
  Counted : Session ToolCallRequest → S × List Event → Type 0
  Counted x st = chats st.1 ≡ n

  Count : S × List Event → Type 0
  Count st = chats st.1 ≡ n

  outcome_of-Counted :
      (x : Session ToolCallRequest) (log : List Event) (call : ToolCallRequest)
      (r : S × Option String)
      → chats log ≡ n
      → HoldsRun (logged w) Counted Count (outcome_of w x call log r)
  unfolding HoldsRun Counted Count chats
  outcome_of-Counted x log call (s, none) h = h
  outcome_of-Counted x log call (s, some text) h = h

  runs-Counted :
      (x : Session ToolCallRequest) (st : S × List Event) (call : ToolCallRequest)
      → chats st.1 ≡ n
      → HoldsRun (logged w) Counted Count (execute_tool_with_guardrails (logged w) x call st)
  unfolding HoldsRun Counted
  runs-Counted x (s, log) call h = elim (Option-cases (edit_refusal x call)) [
    | inr (refusal, e) ↦
        subst (HoldsRun (logged w) Counted Count)
          (sym (execute-refused w x (s, log) call refusal e)) h
    | inl e ↦
        subst (HoldsRun (logged w) Counted Count) (sym (execute-allowed w x s log call e))
          (outcome_of-Counted x log call (w.execute call (keyed w x call s)) h)
  ]

  run_calls-chats :
      (r : (S × List Event) × Option (Turn × Bool))
      → HoldsCalls (logged w) Counted Count r
      → chats r.0.1 ≡ n
  unfolding HoldsCalls Counted Count
  run_calls-chats (st, none) h = h
  run_calls-chats (st, some (t, planned)) h = h

  respond-count :
      (guarded : Bool) (request : String) (t : Turn) (response : LlmResponse) (st : S × List Event)
      → chats st.1 ≡ n
      → chats (respond (logged w) guarded request t response st).0.1 ≡ n
  unfolding respond Counted Count
  respond-count guarded request t response st h = elim (Bool-cases (has_tool_calls response)) [
    | inl e ↦
        rw (respond, e)
          (run_calls-chats
            (run_calls (logged w) response.tool_calls (enter_request (logged w) t response) false
              st)
            (run_calls-HoldsCalls (logged w) Counted Count (λ x s p. p) (λ x s id name text p. p)
              runs-Counted response.tool_calls (enter_request (logged w) t response) false st h))
    | inr e ↦ rw (respond, e) h
  ]

module _ {S : Type 0} (w : World S) where
  after_chat :
      (guarded : Bool) (request : String) (t : Turn) (messages : List Message) (log : List Event)
      (r : S × Option LlmResponse)
      → chats
          (elim r.1 as (λ x. (S × List Event) × Next) [
            | none ↦ ((r.0, chatted messages ∷ log), thrown)
            | some response ↦
                respond (logged w) guarded request t response (r.0, chatted messages ∷ log)
          ]).0.1
        ≤ suc (chats log)
  unfolding chats
  after_chat guarded request t messages log (s', none) = omega arith
  after_chat guarded request t messages log (s', some response) =
      rw
        (respond-count w (suc (chats log)) guarded request t response (s', chatted messages ∷ log)
          refl)
        (omega arith)

  round-count :
      (guarded : Bool) (request : String) (t : Turn) (s : S) (log : List Event)
      → chats (round (logged w) guarded request t (s, log)).0.1 ≤ suc (chats log)
  unfolding round logged chats
  round-count guarded request t s log = elim (Bool-cases (w.is_cancelled s)) [
    | inl e ↦ rw (round, e) (omega arith)
    | inr e ↦
        rw (round, e)
          (after_chat guarded request t (project_messages w.to_string t.messages) log
            (w.chat (project_messages w.to_string t.messages) s))
  ]

  after_round :
      (left : ℕ) (guarded : Bool) (request : String) (bound : ℕ) (r : (S × List Event) × Next)
      → ((t : Turn) (s : S) (log : List Event)
          → chats (loop (logged w) left guarded request t (s, log)).0.1 ≤ left + chats log)
      → chats r.0.1 ≤ suc bound
      → chats
          (elim r.1 as (λ x. (S × List Event) × Option Turn) [
            | again t' ↦ loop (logged w) left guarded request t' r.0
            | finished t' ↦ (r.0, some t')
            | thrown ↦ (r.0, none)
          ]).0.1
        ≤ suc left + bound
  after_round left guarded request bound ((s, log), again t) rest h = ground (arith, rest t s log)
  after_round left guarded request bound (st, finished t) rest h = omega arith
  after_round left guarded request bound (st, thrown) rest h = omega arith

  -- The loop calls the provider at most max_iterations times, whatever the provider and the tools answer.
  pub loop-chats :
      (max_iterations : ℕ) (guarded : Bool) (request : String) (t : Turn) (s : S) (log : List Event)
      → chats (loop (logged w) max_iterations guarded request t (s, log)).0.1
        ≤ max_iterations + chats log
  unfolding loop
  loop-chats zero guarded request t s log = omega arith
  loop-chats (suc left) guarded request t s log =
      after_round left guarded request (chats log) (round (logged w) guarded request t (s, log))
        (loop-chats left guarded request) (round-count guarded request t s log)
