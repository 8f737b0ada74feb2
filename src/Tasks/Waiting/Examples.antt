-- ===== src/Tasks/Waiting/Examples.antt =====
-- A question and a reply, for the theorems on waiting tasks.
use kabot.Base.{◌≡◌, refl, true, false, String, none, some, [], ◌∷◌, arith}
use kabot.Base.Int.{pos}
use kabot.Base.Dict.{lookup}
use kabot.Bus.{InboundMessage, OutboundMessage}
use kabot.Tasks.State.{WaitingTask, TaskRuntime, build_waiting_key, waiting_key}
use kabot.Tasks.Questions.{should_wait_for_user}
use kabot.Tasks.Waiting.{
  waiting_entry, update_of, observe_inbound_result, try_resume_waiting_task, AgentRun, Verdict,
  passed, Resumed, resumed_reply, last_question,
}
use kabot.Tasks.Waiting.Keys.{IsKeyed}
use kabot.Tasks.Waiting.Resume.{observe-resume, observe-second_question}

abbrev said : String → InboundMessage
said content = record {
  channel = "lark";
  channel_instance = "lark";
  agent_name = "main";
  sender_id = "u";
  chat_id = "42";
  content = content;
  media = [];
  metadata = [];
  timestamp = 0;
}

abbrev question : OutboundMessage
question = record {
  channel = "lark";
  channel_instance = "lark";
  agent_name = "main";
  chat_id = "42";
  content = "please confirm";
  reply_to = "";
  media = [];
  metadata = [];
}

abbrev idle : TaskRuntime
idle = record {
  enabled = true;
  daily_summary_records = [];
  waiting_tasks = [];
  active_tasks = [];
  claimed_task_ids = [];
}

abbrev one_waiting : TaskRuntime
one_waiting = record idle {
  waiting_tasks = (waiting_key (said "deploy"), waiting_entry (said "deploy") question "t1") ∷ [];
}

abbrev finishes : WaitingTask → AgentRun
finishes t = record { result = some "ok"; sent = [] }

abbrev asks_again : WaitingTask → AgentRun
asks_again t = record { result = some "ok"; sent = question ∷ [] }

abbrev all_pass : WaitingTask → Verdict
all_pass t = passed

idle-IsKeyed : IsKeyed idle
unfolding lookup
idle-IsKeyed k t e = ground (arith, e)

question_waits : should_wait_for_user "lark" "42" "please confirm" ≡ true
unfolding should_wait_for_user kabot.Tasks.Questions.contains_any
question_waits = refl

result_rests : should_wait_for_user "lark" "42" "ok" ≡ false
unfolding should_wait_for_user kabot.Tasks.Questions.contains_any
    kabot.Tasks.Questions.has_question_mark
result_rests = refl

nothing_asked : last_question [] none ≡ none
unfolding last_question
nothing_asked = refl

asked_once : last_question (question ∷ []) none ≡ some question
unfolding last_question should_wait_for_user kabot.Tasks.Questions.contains_any
asked_once = refl

one_waiting_found :
    lookup (waiting_key (said "yes")) one_waiting.waiting_tasks
    ≡ some (waiting_entry (said "deploy") question "t1")
unfolding lookup waiting_key build_waiting_key
one_waiting_found = refl

resume_given :
    (result : Resumed) × (try_resume_waiting_task
        (observe_inbound_result idle (said "deploy") question "t1")
        (said "yes")
        finishes
        all_pass
        "t2"
      ≡ some result)
unfolding waiting_key
resume_given =
    let r =
      observe-resume idle (said "deploy") (said "yes") question finishes all_pass "t1" "t2" "ok"
        refl question_waits refl refl nothing_asked in
    (r.0, r.1)

observe-second_question_example :
    (result : Resumed) × (try_resume_waiting_task one_waiting (said "yes") asks_again all_pass "t2"
      ≡ some result)
    × (result.updates
        ≡ update_of (waiting_entry (said "deploy") question "t1") "running" (pos 60)
          ∷ update_of (waiting_entry (said "deploy") question "t1") "waiting_user" (pos 50)
          ∷ [])
    × (result.outbound
        ≡ some (resumed_reply (said "yes") (waiting_entry (said "deploy") question "t1") "ok"))
    × (lookup
          (waiting_key (said "yes"))
          (observe_inbound_result result.runtime
            (said "yes")
            (resumed_reply (said "yes") (waiting_entry (said "deploy") question "t1") "ok")
            "t3").waiting_tasks
        ≡ none)
observe-second_question_example =
    observe-second_question one_waiting (waiting_entry (said "deploy") question "t1") (said "yes")
      asks_again all_pass "t2" "t3" "ok" question refl one_waiting_found refl asked_once refl
      result_rests
