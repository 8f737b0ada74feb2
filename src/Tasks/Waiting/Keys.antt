-- ===== src/Tasks/Waiting/Keys.antt =====
-- The keys of the waiting tasks.
use text.Mathlib.TextLemmas
use kabot.Base.{
  List, Bool, true, false, not, String, none, some, ◌≡◌, sym, empty, if◌then◌else◌, arith, eq_iff,
  Bool-cases, subst, Option-cases, inl, inr,
}
use kabot.Base.Dict.{lookup, insert, erase, lookup-insert, lookup-erase}
use kabot.Bus.{InboundMessage, OutboundMessage, ◌<+>◌}
use kabot.Tasks.State.{WaitingTask, TaskRuntime, build_waiting_key, waiting_key, clear_waiting_task}
use kabot.Tasks.Questions.{should_wait_for_user}
use kabot.Tasks.Waiting.{
  key_of, upsert_waiting_task, observe_inbound_result, resume_waiting_task, try_resume_waiting_task,
  AgentRun, Verdict, Resumed, last_question,
}

-- Every waiting task stands under the key of its own fields.
abbrev pub IsKeyed : TaskRuntime → Type 0
IsKeyed r = (k : String) (t : WaitingTask) → lookup k r.waiting_tasks ≡ some t → k ≡ key_of t

insert-IsKeyed :
    (r : TaskRuntime) (t : WaitingTask)
    → IsKeyed r
    → IsKeyed (record r { waiting_tasks = insert (key_of t) t r.waiting_tasks })
insert-IsKeyed r t h k u e =
    ground (arith, lookup-insert (key_of t) k t r.waiting_tasks, eq_iff (key_of t) k, h k u)

erase-IsKeyed :
    (r : TaskRuntime) (j : String)
    → IsKeyed r
    → IsKeyed (record r { waiting_tasks = erase j r.waiting_tasks })
erase-IsKeyed r j h k u e = ground (arith, lookup-erase j k r.waiting_tasks, h k u)

if-IsKeyed : (b : Bool) (x y : TaskRuntime) → IsKeyed x → IsKeyed y → IsKeyed (if b then x else y)
if-IsKeyed true x y h k = h
if-IsKeyed false x y h k = k

upsert-IsKeyed :
    (r : TaskRuntime) (msg : InboundMessage) (out : OutboundMessage) (now : String)
    → IsKeyed r
    → IsKeyed (upsert_waiting_task r msg out now)
unfolding upsert_waiting_task
upsert-IsKeyed r msg out now h = insert-IsKeyed r _ h

clear-IsKeyed :
    (r : TaskRuntime) (msg : InboundMessage) → IsKeyed r → IsKeyed (clear_waiting_task r msg)
unfolding clear_waiting_task
clear-IsKeyed r msg h = erase-IsKeyed r (waiting_key msg) h

resume_waiting_task-IsKeyed :
    (r : TaskRuntime) (t : WaitingTask) (sent : List OutboundMessage) (now : String)
    → IsKeyed r
    → IsKeyed (resume_waiting_task r t sent now).0
unfolding resume_waiting_task
resume_waiting_task-IsKeyed r t sent now h = elim (Option-cases (last_question sent none)) [
  | inl e ↦ rw (e, resume_waiting_task) h
  | inr (out, e) ↦ elim (Bool-cases (empty out.chat_id)) [
    | inl f ↦ rw (e, f, resume_waiting_task) h
    | inr f ↦ rw (e, f, resume_waiting_task) (insert-IsKeyed r _ h)
  ]
]

-- If every waiting task stands under the key of its own channel instance, agent and chat, then that
-- is so after an agent's reply is observed.
pub observe-IsKeyed :
    (r : TaskRuntime) (msg : InboundMessage) (out : OutboundMessage) (now : String)
    → IsKeyed r
    → IsKeyed (observe_inbound_result r msg out now)
unfolding observe_inbound_result
observe-IsKeyed r msg out now h = if-IsKeyed (not r.enabled) _ _ h (
    if-IsKeyed (should_wait_for_user msg.channel msg.chat_id out.content) _ _
      (upsert-IsKeyed r msg out now h) (clear-IsKeyed r msg h))

-- If every waiting task stands under the key of its own channel instance, agent and chat, then
-- that is so after a message has resumed a waiting task.
pub resume-IsKeyed :
    (r : TaskRuntime) (msg : InboundMessage) (run : WaitingTask → AgentRun)
    (verdict : WaitingTask → Verdict) (now : String) {result : Resumed}
    → IsKeyed r
    → try_resume_waiting_task r msg run verdict now ≡ some result
    → IsKeyed result.runtime
unfolding try_resume_waiting_task
resume-IsKeyed r msg run verdict now {result} h e =
    elim (Option-cases (lookup (waiting_key msg) r.waiting_tasks)) [
      | inl f ↦ absurd (ground (arith, f, e))
      | inr (t, f) ↦
          let without : TaskRuntime = record r {
            waiting_tasks = erase (waiting_key msg) r.waiting_tasks;
          } in
          elim (Option-cases ((run t).result)) [
            | inl g ↦
                let same : result.runtime ≡ without = ground (arith, f, g, e) in
                subst IsKeyed (sym same) (erase-IsKeyed r (waiting_key msg) h)
            | inr (text, g) ↦
                let same : result.runtime ≡ (resume_waiting_task without t (run t).sent now).0 =
                  ground (arith, f, g, e) in
                subst IsKeyed (sym same) (
                  resume_waiting_task-IsKeyed without t (run t).sent now
                    (erase-IsKeyed r (waiting_key msg) h))
          ]
    ]

-- The parts of a key are joined by a colon that they may hold themselves, so messages of different
-- channel instances and agents can have one key.
pub build_waiting_key_ambiguous :
    (x y z chat : String)
    → build_waiting_key (x <+> ":" <+> y) z chat ≡ build_waiting_key x (y <+> ":" <+> z) chat
unfolding build_waiting_key
build_waiting_key_ambiguous x y z chat = simp TextLemmas.append_assoc
