-- ===== src/Tasks/Claims/Once.antt =====
-- A task is claimed once, and only by an agent that has no task: AgentPollLoop of
-- src/task/task_runtime.cpp.
use kabot.Base.{
  Bool, true, false, not, ◌&&◌, String, none, some, List, [], ◌∷◌, ◌≡◌, refl, member, arith, eq_iff,
  Bool-cases, inl, inr, ◌⊎◌,
}
use kabot.Base.Dict.{insert, lookup-insert, lookup-erase}
use kabot.Tasks.State.{
  ActiveTask, TaskRuntime, has_pending_task, is_task_claimed, clear_active_task,
}
use kabot.Tasks.Claims.{
  RelayTask, ClaimResult, claim, is_offer, poll_round, Event, polled, finished, rewaited, play,
  option_list, task_session_key,
}

-- No string stands in the list twice.
abbrev pub all_distinct : List String → Bool
all_distinct [] = true
all_distinct (s ∷ rest) = not (member s rest) && all_distinct rest

poll_round-cases :
    (r : TaskRuntime) (a : String) (c : ClaimResult)
    → ((poll_round r a c).runtime ≡ r) × ((poll_round r a c).submitted ≡ none)
      ⊎ (has_pending_task r a ≡ false)
        × (member c.task.task_id r.claimed_task_ids ≡ false)
        × ((poll_round r a c).runtime ≡ claim r a c.task)
        × ((poll_round r a c).submitted ≡ some c.task.task_id)
unfolding poll_round is_task_claimed
poll_round-cases r a c = elim (Bool-cases (has_pending_task r a)) [
  | inl e ↦ ground (arith, e)
  | inr e ↦ elim (Bool-cases (is_offer c)) [
    | inl f ↦ ground (arith, e, f)
    | inr f ↦ ground (arith, e, f)
  ]
]

active : String → RelayTask → ActiveTask
unfolding task_session_key
active a task = record {
  task_id = task.task_id;
  session_key = task_session_key a task;
  project_name = "";
  project_git_url = "";
}

claim-pending :
    (r : TaskRuntime) (a : String) (task : RelayTask) → has_pending_task (claim r a task) a ≡ true
unfolding has_pending_task claim active
claim-pending r a task =
    rw (lookup-insert a a (active a task) r.active_tasks, (eq_iff a a).1 refl) refl

claim-claimed :
    (r : TaskRuntime) (a : String) (task : RelayTask)
    → is_task_claimed (claim r a task) task.task_id ≡ true
unfolding is_task_claimed claim
claim-claimed r a task = ground (arith, eq_iff task.task_id task.task_id)

claim-ended :
    (r : TaskRuntime) (a : String) (task : RelayTask)
    → r.waiting_tasks ≡ []
    → has_pending_task (clear_active_task (claim r a task) a) a ≡ false
unfolding has_pending_task clear_active_task claim active
claim-ended r a task quiet =
    ground (arith, quiet, lookup-erase a a (insert a (active a task) r.active_tasks), eq_iff a a)

ended-claimed :
    (r : TaskRuntime) (a id : String)
    → is_task_claimed (clear_active_task r a) id ≡ is_task_claimed r id
unfolding is_task_claimed clear_active_task
ended-claimed r a id = refl

-- A round submits a task only if its agent has no task, active or waiting, and the task was not
-- claimed before; then the agent has a task, and the task is claimed.
pub poll_round-submitted :
    (r : TaskRuntime) (a id : String) (c : ClaimResult)
    → (poll_round r a c).submitted ≡ some id
    → (has_pending_task r a ≡ false)
      × (is_task_claimed r id ≡ false)
      × (has_pending_task (poll_round r a c).runtime a ≡ true)
      × (is_task_claimed (poll_round r a c).runtime id ≡ true)
unfolding is_task_claimed
poll_round-submitted r a id c e = elim (poll_round-cases r a c) [
  | inl (same, quiet) ↦ ground (arith, same, quiet, e)
  | inr (idle, fresh, next, sent) ↦
      ground (arith, idle, fresh, next, sent, e, claim-pending r a c.task, claim-claimed r a c.task)
]

play-quiet :
    (events : List Event) (r : TaskRuntime) (a : String) (c : ClaimResult)
    → (poll_round r a c).runtime ≡ r
    → (poll_round r a c).submitted ≡ none
    → (play (polled a c ∷ events) r).1 ≡ (play events r).1
unfolding play option_list
play-quiet events r a c same quiet = rw (same, quiet) refl

play-claimed :
    (events : List Event) (r : TaskRuntime) (a : String) (c : ClaimResult)
    → (poll_round r a c).runtime ≡ claim r a c.task
    → (poll_round r a c).submitted ≡ some c.task.task_id
    → (play (polled a c ∷ events) r).1 ≡ c.task.task_id ∷ (play events (claim r a c.task)).1
unfolding play option_list
play-claimed events r a c next sent = rw (next, sent) refl

play-fresh :
    (events : List Event) (r : TaskRuntime) (s : String)
    → member s (play events r).1 ≡ true
    → member s r.claimed_task_ids ≡ false
unfolding play clear_active_task claim
play-fresh [] r s e = ground (arith, e)
play-fresh (polled a c ∷ events) r s e = elim (poll_round-cases r a c) [
  | inl (same, quiet) ↦ play-fresh events r s (rw (play-quiet events r a c same quiet) at e)
  | inr (idle, fresh, next, sent) ↦ ground (
    arith,
    play-claimed events r a c next sent,
    e,
    fresh,
    play-fresh events (claim r a c.task) s,
    eq_iff c.task.task_id s,
  )
]
play-fresh (finished a ∷ events) r s e = play-fresh events (clear_active_task r a) s e
play-fresh (rewaited w ∷ events) r s e = play-fresh events (record r { waiting_tasks = w }) s e

distinct : (events : List Event) (r : TaskRuntime) → all_distinct (play events r).1 ≡ true
unfolding play claim
distinct [] r = refl
distinct (polled a c ∷ events) r = elim (poll_round-cases r a c) [
  | inl (same, quiet) ↦ rw (play-quiet events r a c same quiet) (distinct events r)
  | inr (idle, fresh, next, sent) ↦ ground (
    arith,
    play-claimed events r a c next sent,
    distinct events (claim r a c.task),
    play-fresh events (claim r a c.task) c.task.task_id,
    eq_iff c.task.task_id c.task.task_id,
    Bool-cases (member c.task.task_id (play events (claim r a c.task)).1),
  )
]
distinct (finished a ∷ events) r = distinct events (clear_active_task r a)
distinct (rewaited w ∷ events) r = distinct events (record r { waiting_tasks = w })

-- However the rounds of the agents, the ends of tasks and the changes of the waiting tasks follow
-- each other, and whatever the server offers, no task is submitted twice, and none that was
-- claimed before.
pub play-once :
    (events : List Event) (r : TaskRuntime)
    → (all_distinct (play events r).1 ≡ true)
      × ((s : String) → member s (play events r).1 ≡ true → is_task_claimed r s ≡ false)
unfolding is_task_claimed play
play-once events r = (distinct events r, λ s. play-fresh events r s)

-- When nothing waits and the server offers a task again that the agent has claimed and ended, the
-- round changes nothing, submits nothing and ends without a sleep.
pub poll_round-offered_again :
    (r : TaskRuntime) (a : String) (c : ClaimResult)
    → is_offer c ≡ true
    → r.waiting_tasks ≡ []
    → poll_round (clear_active_task (claim r a c.task) a) a c
      ≡ record { runtime = clear_active_task (claim r a c.task) a; submitted = none; slept = false }
unfolding poll_round clear_active_task
poll_round-offered_again r a c offer quiet = ground (
  arith,
  offer,
  claim-ended r a c.task quiet,
  claim-claimed r a c.task,
  ended-claimed (claim r a c.task) a c.task.task_id,
)
