-- ===== src/Agents/Subagents/Records.antt =====
-- The records of the sub-agents' tasks: src/agent/subagent/subagent_task.cpp.
use kabot.Base.{
  ℕ, String, none, some, ◌≡◌, is_some, arith, str_eq, eq_iff, if◌then◌else◌, Option-cases, inl, inr,
}
use kabot.Base.Dict.{lookup, lookup-insert}
use kabot.Agents.Subagents.{SubagentTaskManager, get_task, change_task, Change, written, perform}

-- Each change of a task reports whether the task exists; if it does, its record is the one that the
-- change writes, and the records of all other tasks stay as they are.
pub get_task-perform :
    (m : SubagentTaskManager) (task_id other : String) (change : Change) (now : ℕ)
    → ((perform m task_id change now).1 ≡ is_some (get_task m task_id))
      × (get_task (perform m task_id change now).0 other ≡ (
          if str_eq task_id other
          then elim (get_task m task_id) [
            | none ↦ none
            | some task ↦ some (written change now task)
          ]
          else get_task m other))
unfolding perform get_task change_task
get_task-perform m task_id other change now = elim (Option-cases (lookup task_id m.tasks)) [
  | inl e ↦ ground (arith, e, eq_iff task_id other)
  | inr (task, e) ↦ ground (arith, e, lookup-insert task_id other (written change now task) m.tasks)
]
