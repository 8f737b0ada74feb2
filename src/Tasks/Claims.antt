-- ===== src/Tasks/Claims.antt =====
-- The claim of the next task, in src/task/task_runtime.cpp: one round of AgentPollLoop, and the calls
-- of other threads between the rounds. The answer of the relay server comes from outside.
pub mod Once
mod Examples
use kabot.Base.{
  ℕ, Bool, true, false, not, ◌&&◌, ◌||◌, String, Option, none, some, List, [], ◌∷◌, ◌++◌, str_eq,
  empty, if◌then◌else◌, member,
}
use kabot.Base.Int.{ℤ}
use kabot.Base.Dict.{Dict, lookup, insert, erase}
use kabot.Bus.{InboundMessage, OutboundMessage, ◌<+>◌}
use kabot.Tasks.State.{
  ActiveTask, WaitingTask, TaskRuntime, has_pending_task, is_task_claimed, clear_active_task,
  waiting_key,
}

-- RelayTask and RelayTaskClaimResult, as far as the loop reads them.
pub record RelayTask : Type 0 where
  pub task_id : String
  pub session_key : String

pub record ClaimResult : Type 0 where
  pub success : Bool
  pub found : Bool
  pub task : RelayTask

-- What a round does: the new state, the task that is submitted to the pool, and whether the thread
-- sleeps before the next round.
pub record Round : Type 0 where
  pub runtime : TaskRuntime
  pub submitted : Option String
  pub slept : Bool

task_session_key : String → RelayTask → String
task_session_key local_agent task =
    if empty task.session_key
    then "task:" <+> local_agent <+> ":" <+> task.task_id
    else task.session_key

unfoldable pub claim : TaskRuntime → String → RelayTask → TaskRuntime
unfolding task_session_key
claim r local_agent task = record r {
  active_tasks =
      insert local_agent
        (record {
          task_id = task.task_id;
          session_key = task_session_key local_agent task;
          project_name = "";
          project_git_url = "";
        })
        r.active_tasks;
  claimed_task_ids = task.task_id ∷ r.claimed_task_ids;
}

unfoldable pub is_offer : ClaimResult → Bool
is_offer c = c.success && c.found && not (empty c.task.task_id)

-- A round of the loop with a task pool: a task that was claimed before is skipped by `continue`,
-- which also skips the sleep.
unfoldable pub poll_round : TaskRuntime → String → ClaimResult → Round
poll_round r local_agent c =
    if has_pending_task r local_agent
    then record { runtime = r; submitted = none; slept = true }
    else if is_offer c
    then if is_task_claimed r c.task.task_id
      then record { runtime = r; submitted = none; slept = false }
      else record {
        runtime = claim r local_agent c.task;
        submitted = some c.task.task_id;
        slept = true;
      }
    else record { runtime = r; submitted = none; slept = true }

-- What may happen to the state: a round of some agent's loop, the end of a task, and any change of the
-- waiting tasks.
pub data Event : Type 0 where
  polled : String → ClaimResult → Event
  finished : String → Event
  rewaited : Dict WaitingTask → Event

unfoldable pub option_list : {A : Type 0} → Option A → List A
option_list none = []
option_list (some x) = x ∷ []

unfoldable pub play : List Event → TaskRuntime → TaskRuntime × List String
play [] r = (r, [])
play (polled local_agent c ∷ events) r =
    let rest = play events (poll_round r local_agent c).runtime in
    (rest.0, option_list (poll_round r local_agent c).submitted ++ rest.1)
play (finished local_agent ∷ events) r = play events (clear_active_task r local_agent)
play (rewaited waiting ∷ events) r = play events (record r { waiting_tasks = waiting })
