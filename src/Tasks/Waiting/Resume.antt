-- ===== src/Tasks/Waiting/Resume.antt =====
-- A question and the reply to it: ObserveInboundResult and TryResumeWaitingTask of
-- src/task/task_runtime.cpp one after the other.
use kabot.Base.{all, true, false, String, none, some, [], ◌∷◌, ◌≡◌, refl, empty, arith, eq_iff}
use kabot.Base.Int.{pos}
use kabot.Base.Dict.{lookup, insert, erase, lookup-insert, lookup-erase}
use kabot.Bus.{InboundMessage, OutboundMessage}
use kabot.Tasks.State.{StatusUpdate, WaitingTask, TaskRuntime, waiting_key, clear_waiting_task}
use kabot.Tasks.Questions.{should_wait_for_user}
use kabot.Tasks.Waiting.{
  waiting_entry, next_waiting, update_of, closing, key_of, upsert_waiting_task,
  observe_inbound_result, resume_waiting_task, try_resume_waiting_task, finish_resume, AgentRun,
  Verdict, passed, refused, failed_to_verify, Resumed, resumed_reply, last_question,
}

observed :
    (r : TaskRuntime) (msg reply : InboundMessage) (out : OutboundMessage) (now : String)
    → r.enabled ≡ true
    → should_wait_for_user msg.channel msg.chat_id out.content ≡ true
    → waiting_key reply ≡ waiting_key msg
    → lookup (waiting_key reply) (observe_inbound_result r msg out now).waiting_tasks
      ≡ some (waiting_entry msg out now)
unfolding observe_inbound_result upsert_waiting_task waiting_key waiting_entry
observed r msg reply out now on asks same = ground (
  arith,
  on,
  asks,
  same,
  lookup-insert (waiting_key msg) (waiting_key reply) (waiting_entry msg out now) r.waiting_tasks,
  eq_iff (waiting_key msg) (waiting_key reply),
)

resumed :
    (r : TaskRuntime) (t : WaitingTask) (msg : InboundMessage) (run : WaitingTask → AgentRun)
    (verdict : WaitingTask → Verdict) (now text : String)
    → lookup (waiting_key msg) r.waiting_tasks ≡ some t
    → (run t).result ≡ some text
    → last_question (run t).sent none ≡ none
    → try_resume_waiting_task r msg run verdict now
      ≡ some (
          finish_resume msg t text
            (verdict t)
            (record r { waiting_tasks = erase (waiting_key msg) r.waiting_tasks }, [], true))
unfolding try_resume_waiting_task resume_waiting_task
resumed r t msg run verdict now text e returns none_left =
    rw (e, returns, none_left, resume_waiting_task, try_resume_waiting_task) refl

pub observe-resume :
    (r : TaskRuntime) (msg reply : InboundMessage) (out : OutboundMessage)
    (run : WaitingTask → AgentRun) (verdict : WaitingTask → Verdict) (now later text : String)
    → r.enabled ≡ true
    → should_wait_for_user msg.channel msg.chat_id out.content ≡ true
    → waiting_key reply ≡ waiting_key msg
    → (run (waiting_entry msg out now)).result ≡ some text
    → last_question (run (waiting_entry msg out now)).sent none ≡ none
    → (result : Resumed) × (try_resume_waiting_task
          (observe_inbound_result r msg out now)
          reply
          run
          verdict
          later
        ≡ some result)
      × (result.updates
          ≡ update_of (waiting_entry msg out now) "running" (pos 60)
            ∷ closing (waiting_entry msg out now) (verdict (waiting_entry msg out now))
            ∷ [])
      × (all (λ (u : StatusUpdate). empty u.task_id) result.updates ≡ true)
      × (result.outbound ≡ some (resumed_reply reply (waiting_entry msg out now) text))
      × (lookup (waiting_key reply) result.runtime.waiting_tasks ≡ none)
unfolding finish_resume waiting_entry update_of
observe-resume r msg reply out run verdict now later text on asks same returns quiet =
    let before : TaskRuntime = observe_inbound_result r msg out now in
    (
      finish_resume reply (waiting_entry msg out now) text (verdict (waiting_entry msg out now)) (
        record before { waiting_tasks = erase (waiting_key reply) before.waiting_tasks },
        [],
        true,
      ),
      resumed before (waiting_entry msg out now) reply run verdict later text
          (observed r msg reply out now on asks same) returns quiet,
      refl,
      no_ids (verdict (waiting_entry msg out now)),
      refl,
      ground (
        arith,
        lookup-erase (waiting_key reply) (waiting_key reply) before.waiting_tasks,
        eq_iff (waiting_key reply) (waiting_key reply),
      ),
    )
  where
    no_ids :
        (v : Verdict)
        → all
            (λ (u : StatusUpdate). empty u.task_id)
            (update_of (waiting_entry msg out now) "running" (pos 60)
              ∷ closing (waiting_entry msg out now) v
              ∷ [])
          ≡ true
    no_ids passed = refl
    no_ids refused = refl
    no_ids failed_to_verify = refl

asked_again :
    (r : TaskRuntime) (t : WaitingTask) (msg : InboundMessage) (run : WaitingTask → AgentRun)
    (verdict : WaitingTask → Verdict) (now text : String) (second : OutboundMessage)
    → lookup (waiting_key msg) r.waiting_tasks ≡ some t
    → (run t).result ≡ some text
    → last_question (run t).sent none ≡ some second
    → empty second.chat_id ≡ false
    → try_resume_waiting_task r msg run verdict now
      ≡ some (
          finish_resume msg t text (verdict t) (
            record r {
              waiting_tasks =
                  insert
                    (key_of (next_waiting t second now))
                    (next_waiting t second now)
                    (erase (waiting_key msg) r.waiting_tasks);
            },
            update_of t "waiting_user" (pos 50) ∷ [],
            false,
          ))
unfolding try_resume_waiting_task resume_waiting_task
asked_again r t msg run verdict now text second e returns asks chat =
    rw (e, returns, asks, chat, resume_waiting_task, try_resume_waiting_task) refl

cleared :
    (r : TaskRuntime) (msg : InboundMessage) (out : OutboundMessage) (now : String)
    → r.enabled ≡ true
    → should_wait_for_user msg.channel msg.chat_id out.content ≡ false
    → lookup (waiting_key msg) (observe_inbound_result r msg out now).waiting_tasks ≡ none
unfolding observe_inbound_result clear_waiting_task
cleared r msg out now on quiet = ground (
  arith,
  on,
  quiet,
  lookup-erase (waiting_key msg) (waiting_key msg) r.waiting_tasks,
  eq_iff (waiting_key msg) (waiting_key msg),
)

-- When a resumed agent asks the user a second question and then returns a result that asks nothing,
-- the task is reported as waiting for the user, but ObserveInboundResult, which sees the same
-- message and the result, leaves nothing waiting under the key of the message.
pub observe-second_question :
    (r : TaskRuntime) (t : WaitingTask) (msg : InboundMessage) (run : WaitingTask → AgentRun)
    (verdict : WaitingTask → Verdict) (now later text : String) (second : OutboundMessage)
    → r.enabled ≡ true
    → lookup (waiting_key msg) r.waiting_tasks ≡ some t
    → (run t).result ≡ some text
    → last_question (run t).sent none ≡ some second
    → empty second.chat_id ≡ false
    → should_wait_for_user msg.channel msg.chat_id text ≡ false
    → (result : Resumed) × (try_resume_waiting_task r msg run verdict now ≡ some result)
      × (result.updates ≡ update_of t "running" (pos 60) ∷ update_of t "waiting_user" (pos 50) ∷ [])
      × (result.outbound ≡ some (resumed_reply msg t text))
      × (lookup
            (waiting_key msg)
            (observe_inbound_result result.runtime msg
              (resumed_reply msg t text)
              later).waiting_tasks
          ≡ none)
unfolding finish_resume
observe-second_question r t msg run verdict now later text second on e returns asks chat quiet =
    let after : TaskRuntime = record r {
      waiting_tasks =
          insert (key_of (next_waiting t second now)) (next_waiting t second now)
            (erase (waiting_key msg) r.waiting_tasks);
    } in
    let result : Resumed =
      finish_resume msg t text (verdict t)
        (after, update_of t "waiting_user" (pos 50) ∷ [], false) in
    (
      result,
      asked_again r t msg run verdict now text second e returns asks chat,
      refl,
      refl,
      cleared after msg (resumed_reply msg t text) later on quiet,
    )
