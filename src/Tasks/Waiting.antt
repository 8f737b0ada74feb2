-- ===== src/Tasks/Waiting.antt =====
-- The questions that wait for a user, in src/task/task_runtime.cpp: ObserveInboundResult,
-- UpsertWaitingTask, TryResumeWaitingTask and ResumeWaitingTask. The agent's run on the user's reply
-- and the verifier's verdict come from outside.
pub mod Resume
pub mod Keys
mod Examples
use kabot.Base.{
  Bool, true, false, not, ◌&&◌, String, Option, none, some, List, [], ◌∷◌, ◌++◌, str_eq, empty,
  if◌then◌else◌,
}
use kabot.Base.Int.{ℤ, pos, negsuc}
use kabot.Base.Dict.{Dict, lookup, insert, erase}
use kabot.Bus.{InboundMessage, OutboundMessage, effective_channel_instance, or_else, session_key}
use kabot.Tasks.State.{
  WaitingTask, TaskRuntime, StatusUpdate, build_waiting_key, waiting_key, clear_waiting_task,
}
use kabot.Tasks.Questions.{should_wait_for_user}

pub waiting_entry : InboundMessage → OutboundMessage → String → WaitingTask
waiting_entry msg outbound now = record {
  task_id = "";
  local_agent = msg.agent_name;
  session_key = session_key msg;
  question = outbound.content;
  channel = msg.channel;
  channel_instance = effective_channel_instance msg;
  chat_id = msg.chat_id;
  reply_to = outbound.reply_to;
  agent_name = msg.agent_name;
  updated_at = now;
}

abbrev pub key_of : WaitingTask → String
key_of t = build_waiting_key t.channel_instance t.agent_name t.chat_id

unfoldable pub upsert_waiting_task :
    TaskRuntime → InboundMessage → OutboundMessage → String → TaskRuntime
unfolding waiting_entry
upsert_waiting_task r msg outbound now = record r {
  waiting_tasks =
      insert (key_of (waiting_entry msg outbound now)) (waiting_entry msg outbound now)
        r.waiting_tasks;
}

unfoldable pub observe_inbound_result :
    TaskRuntime → InboundMessage → OutboundMessage → String → TaskRuntime
observe_inbound_result r msg outbound now =
    if not r.enabled
    then r
    else if should_wait_for_user msg.channel msg.chat_id outbound.content
    then upsert_waiting_task r msg outbound now
    else clear_waiting_task r msg

-- A run of the agent: what it returns, or `none` where it throws, and the messages that it sent meanwhile.
pub record AgentRun : Type 0 where
  pub result : Option String
  pub sent : List OutboundMessage

-- The verifier after a run that asked nothing more.
pub data Verdict : Type 0 where
  passed : Verdict
  refused : Verdict
  failed_to_verify : Verdict

-- The last message of the run that asks the user something (outbound_observer).
unfoldable pub last_question :
    List OutboundMessage → Option OutboundMessage → Option OutboundMessage
last_question [] found = found
last_question (out ∷ sent) found =
    last_question sent
      (if should_wait_for_user out.channel out.chat_id out.content then some out else found)

next_waiting : WaitingTask → OutboundMessage → String → WaitingTask
next_waiting t out now = record t {
  question = out.content;
  channel = out.channel;
  channel_instance = or_else out.channel_instance out.channel;
  chat_id = out.chat_id;
  updated_at = now;
}

pub update_of : WaitingTask → String → ℤ → StatusUpdate
update_of t status progress = record {
  local_agent = t.local_agent;
  task_id = t.task_id;
  status = status;
  progress = progress;
}

-- ResumeWaitingTask behind the agent's run, whose messages are given: the new state, the statuses sent, and whether the task has come to its end. A
-- question always has a chat, since the test wants one.
unfoldable pub resume_waiting_task :
    TaskRuntime
    → WaitingTask
    → List OutboundMessage
    → String
    → TaskRuntime × List StatusUpdate × Bool
unfolding next_waiting update_of
resume_waiting_task r t sent now = elim (last_question sent none) [
  | none ↦ (r, [], true)
  | some out ↦ if empty out.chat_id then (r, [], true) else (
    record r {
      waiting_tasks =
          insert (key_of (next_waiting t out now)) (next_waiting t out now) r.waiting_tasks;
    },
    update_of t "waiting_user" (pos 50) ∷ [],
    false,
  )
]

abbrev closing : WaitingTask → Verdict → StatusUpdate
closing t passed = update_of t "completed" (pos 100)
closing t refused = update_of t "failed" (negsuc 0)
closing t failed_to_verify = update_of t "completed" (pos 100)

-- `outbound` is `none` where an exception of the run leaves the function.
pub record Resumed : Type 0 where
  pub runtime : TaskRuntime
  pub updates : List StatusUpdate
  pub outbound : Option OutboundMessage

abbrev pub resumed_reply : InboundMessage → WaitingTask → String → OutboundMessage
resumed_reply msg t text = record {
  channel = msg.channel;
  channel_instance = effective_channel_instance msg;
  agent_name = or_else t.agent_name msg.agent_name;
  chat_id = msg.chat_id;
  content = text;
  reply_to = "";
  media = [];
  metadata = [];
}

finish_resume :
    InboundMessage
    → WaitingTask
    → String
    → Verdict
    → TaskRuntime × List StatusUpdate × Bool
    → Resumed
unfolding update_of
finish_resume msg t text verdict (r, updates, completed) = record {
  runtime = r;
  updates =
      update_of t "running" (pos 60)
      ∷ (updates ++ (if completed then closing t verdict ∷ [] else []));
  outbound = some (resumed_reply msg t text);
}

-- The task is waiting no more and has been reported as running.
interrupted : WaitingTask → TaskRuntime → Resumed
unfolding update_of
interrupted t r = record {
  runtime = r;
  updates = update_of t "running" (pos 60) ∷ [];
  outbound = none;
}

-- TryResumeWaitingTask, which HandleInbound is; `none` means that the message is not taken. What
-- the agent does with the reply depends on the task (`run`, `verdict`).
unfoldable pub try_resume_waiting_task :
    TaskRuntime
    → InboundMessage
    → (WaitingTask → AgentRun)
    → (WaitingTask → Verdict)
    → String
    → Option Resumed
unfolding finish_resume interrupted
try_resume_waiting_task r msg run verdict now = elim (lookup (waiting_key msg) r.waiting_tasks) [
  | none ↦ none
  | some t ↦
      let taken : TaskRuntime = record r {
        waiting_tasks = erase (waiting_key msg) r.waiting_tasks;
      } in
      elim ((run t).result) [
        | none ↦ some (interrupted t taken)
        | some text ↦
            some
              (finish_resume msg t text (verdict t) (resume_waiting_task taken t (run t).sent now))
      ]
]
