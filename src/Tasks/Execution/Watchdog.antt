-- ===== src/Tasks/Execution/Watchdog.antt =====
-- The thread that watches the time of a task in ExecuteClaimedTask of src/task/task_runtime.cpp, and
-- what it does while the agent still works. The two steps of the thread are functions of whether the
-- execution has set `finished`.
use kabot.Base.{suc, Bool, false, String, Option, none, ◌≡◌, refl, ◌∙◌, ap, if◌then◌else◌}
use kabot.Base.Dict.{lookup}
use kabot.Bus.{OutboundMessage, ◌<+>◌}
use kabot.Tasks.State.{mark_active_task}
use kabot.Tasks.Verification.{RelayTask}
use kabot.Tasks.Execution.{Machine, Execution, Ended, minus_one, report, clear}
use kabot.Tasks.Execution.Course.{settle}
use kabot.Tasks.Execution.Finals.{finals, finals-last}
use kabot.Tasks.Execution.Final.{settle-Closes}

module _ {S : Type 0} (local_agent : String) (task : RelayTask) where
  -- Behind task_timeout_s: the token is cancelled by `cancel`, unless the task has finished.
  unfoldable pub expire : (S → S) → Bool → Execution S → Execution S
  expire cancel finished e = if finished then e else record e { rest = cancel e.rest }

  -- Behind shutdown_timeout_s: the task is abandoned, unless it has finished.
  unfoldable pub abandon : Bool → Execution S → Execution S
  unfolding clear report
  abandon finished e =
      if finished
      then e
      else report local_agent task "failed"
          ("Task " <+> task.task_id <+> " timed out and was abandoned") minus_one "" ""
          (clear local_agent task e)

  abbrev pub mark_next : String → String → Execution S → Execution S
  mark_next task_id session_key e = record e {
    runtime = mark_active_task e.runtime local_agent task_id session_key;
  }

  module _ (m : Machine S) (workspace : String) where
    -- When the watchdog has abandoned a task and the agent has been given its next one, and the work on the
    -- abandoned task then ends in any way, the abandoned task has two reports that end it, and the agent's
    -- entry of the next task is gone.
    pub settle-abandoned :
        (has_git_workflow : Bool) (waiting : Option OutboundMessage) (ended : Ended)
        (next_id next_key : String) (e : Execution S)
        → (finals
              (settle local_agent task m workspace has_git_workflow waiting ended
                (mark_next next_id next_key (abandon false e))).reports
            ≡ suc (suc (finals e.reports)))
          × (lookup local_agent
                (settle local_agent task m workspace has_git_workflow waiting ended
                  (mark_next next_id next_key (abandon false e))).runtime.active_tasks
              ≡ none)
    unfolding abandon report clear
    settle-abandoned has_git_workflow waiting ended next_id next_key e =
        let closes =
          settle-Closes local_agent task m workspace has_git_workflow waiting ended
            (mark_next next_id next_key (abandon false e)) in
        (closes.one ∙ ap suc (finals-last e.reports _ refl), closes.cleared)
