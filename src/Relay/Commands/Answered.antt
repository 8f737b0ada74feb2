-- ===== src/Relay/Commands/Answered.antt =====
-- What HandleMessage of src/relay/relay_manager.cpp sends for a command, while the connection is up.
use kabot.Base.{
  suc, Bool, true, false, ◌||◌, String, none, some, List, ◌≡◌, refl, ◌∙◌, ap, str_eq, empty, arith,
}
use kabot.Base.Json.{Json}
use kabot.Agents.Loop.{Phase}
use kabot.Relay.Http.{Outcome, returned, thrown, what_or}
use kabot.Relay.Calls.{text_value}
use kabot.Relay.Commands.{
  Worker, M, ◌>>◌, try_or, build_activity_payload, build_result_payload, phase_activity_summary,
  command_session_key, activity, run_command, report_failure, dispatch, handle_dispatch,
  handle_message,
}
use kabot.Relay.Commands.Finals.{
  sent_one, started, dispatch-started, finals-started, ended, try_returned, try_thrown,
  bind_returned, bind_thrown, activity-is_final, finals, IsUp,
}

-- A run sends nothing but through its observer: it ends as many commands as the observer does, if that ends none.
pub record IsQuiet {S : Type 0} (w : Worker S) (sent : S → List Json) : Type 0 where
  pub only_observes :
      (agent payload key command_id : String) (observer : Phase → M S Bool)
      → ((phase : Phase) (s : S)
          → finals command_id (sent (observer phase s).0) ≡ finals command_id (sent s))
      → (s : S)
      → finals command_id (sent (w.process_direct agent payload key observer s).0)
        ≡ finals command_id (sent s)

module _ {S : Type 0} (w : Worker S) (sent : S → List Json) (up : IsUp w sent)
    (quiet : IsQuiet w sent) where
  abbrev observer : String → Phase → M S Bool
  observer command_id phase = activity w "busy" (phase_activity_summary phase) command_id

  abbrev run : String → String → M S String
  run command_id payload =
      w.process_direct w.config.local_agent payload (command_session_key w.config command_id)
        (observer command_id)

  finals-run :
      (command_id payload : String) (s : S)
      → finals command_id (sent (run command_id payload s).0) ≡ finals command_id (sent s)
  finals-run command_id payload s =
      quiet.only_observes w.config.local_agent payload (command_session_key w.config command_id)
        command_id (observer command_id)
        (λ phase s'.
          sent_one w sent up command_id
            (build_activity_payload w.now "busy" (phase_activity_summary phase) command_id) s' false
            (activity-is_final command_id w.now "busy" (phase_activity_summary phase) command_id)
          ∙ omega arith)
        s

  abbrev guarded : String → String → M S Bool
  guarded command_id payload =
      try_or (run_command w command_id payload) (report_failure w command_id)

  guarded-ended :
      (command_id payload : String) (s : S) (outcome : Outcome String)
      → (run command_id payload s).1 ≡ outcome
      → ((guarded command_id payload s).1 ≡ returned true)
        × (finals command_id (sent (guarded command_id payload s).0)
            ≡ suc (finals command_id (sent s)))
  unfolding run_command report_failure
  guarded-ended command_id payload s (returned result) e =
      let s' : S = (run command_id payload s).0 in
      let finish : String → M S Bool = λ r.
        w.send_json (build_result_payload command_id "completed" "result" r (some "100"))
        >> activity w "idle" "Idle" "" in
      let step : run_command w command_id payload s ≡ finish result s' =
        bind_returned (run command_id payload) finish s result e in
      let (passed, once) =
        ended w sent up command_id "completed" "result" result "idle" "Idle" "" (some "100") s'
          refl in
      let tried : guarded command_id payload s
          ≡ ((run_command w command_id payload s).0, returned true) =
        try_returned (run_command w command_id payload) (report_failure w command_id) s true
          (ap (λ (p : S × Outcome Bool). p.1) step ∙ passed) in
      (
        ap (λ (p : S × Outcome Bool). p.1) tried,
        ap (λ (p : S × Outcome Bool). finals command_id (sent p.0)) tried
            ∙ ap (λ (p : S × Outcome Bool). finals command_id (sent p.0)) step
            ∙ once
            ∙ ap suc (finals-run command_id payload s),
      )
  guarded-ended command_id payload s (thrown what) e =
      let s' : S = (run command_id payload s).0 in
      let finish : String → M S Bool = λ r.
        w.send_json (build_result_payload command_id "completed" "result" r (some "100"))
        >> activity w "idle" "Idle" "" in
      let text : String = what_or "unknown relay execution error" what in
      let step : run_command w command_id payload s ≡ (s', thrown what) =
        bind_thrown (run command_id payload) finish s what e in
      let (passed, once) =
        ended w sent up command_id "failed" "error" text "error" text command_id none s' refl in
      let tried : guarded command_id payload s ≡ report_failure w command_id what s' =
        try_thrown (run_command w command_id payload) (report_failure w command_id) s what
          (ap (λ (p : S × Outcome Bool). p.1) step)
        ∙ ap (λ (p : S × Outcome Bool). report_failure w command_id what p.0) step in
      (
        ap (λ (p : S × Outcome Bool). p.1) tried ∙ passed,
        ap (λ (p : S × Outcome Bool). finals command_id (sent p.0)) tried
            ∙ once
            ∙ ap suc (finals-run command_id payload s),
      )

  handle_message-dispatched :
      (json : Json) (command_id agent_id payload : String) (s : S)
      → text_value "type" json ≡ some "command.dispatch"
      → text_value "commandId" json ≡ some command_id
      → text_value "agentId" json ≡ some agent_id
      → text_value "payload" json ≡ some payload
      → empty command_id ≡ false
      → empty agent_id || str_eq agent_id w.config.agent_id ≡ true
      → handle_message w json s ≡ dispatch w command_id payload s
  unfolding handle_message handle_dispatch
  handle_message-dispatched json command_id agent_id payload s t c a p named ours =
      rw (t, c, a, p, named) (ground (arith, ours))

  -- While the connection is up, every command for this agent is answered by exactly one final result, completed
  -- or failed, whatever the agent's run does, and HandleMessage returns; a run that sends only through its observer
  -- is assumed.
  pub handle_message-answered :
      (json : Json) (command_id agent_id payload : String) (s : S)
      → text_value "type" json ≡ some "command.dispatch"
      → text_value "commandId" json ≡ some command_id
      → text_value "agentId" json ≡ some agent_id
      → text_value "payload" json ≡ some payload
      → empty command_id ≡ false
      → empty agent_id || str_eq agent_id w.config.agent_id ≡ true
      → ((handle_message w json s).1 ≡ returned true)
        × (finals command_id (sent (handle_message w json s).0) ≡ suc (finals command_id (sent s)))
  handle_message-answered json command_id agent_id payload s t c a p named ours =
      let begun : S = started w sent up command_id s in
      let (passed, once) =
        guarded-ended command_id payload begun (run command_id payload begun).1 refl in
      rw
        (
          handle_message-dispatched json command_id agent_id payload s t c a p named ours,
          dispatch-started w sent up command_id payload s,
        )
        (passed, once ∙ ap suc (finals-started w sent up command_id s))
