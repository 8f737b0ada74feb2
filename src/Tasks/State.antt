-- ===== src/Tasks/State.antt =====
-- The state of TaskRuntime of src/task/task_runtime.{hpp,cpp}, its keys, and the small operations on
-- it. Each operation holds the mutex, so it is one step. The files of SaveState and the cron jobs of
-- the daily summaries are not part of this state.
use kabot.Base.{Bool, ◌||◌, String, List, any, member, str_eq, is_some}
use kabot.Base.Int.{ℤ}
use kabot.Base.Dict.{Dict, lookup, insert, erase}
use kabot.Bus.{InboundMessage, effective_channel_instance, ◌<+>◌}

pub record DailySummaryRecord : Type 0 where
  pub summary_date : String
  pub uploaded_at : String
  pub status : String
  pub message : String

pub record WaitingTask : Type 0 where
  pub task_id : String
  pub local_agent : String
  pub session_key : String
  pub question : String
  pub channel : String
  pub channel_instance : String
  pub chat_id : String
  pub reply_to : String
  pub agent_name : String
  pub updated_at : String

pub record ActiveTask : Type 0 where
  pub task_id : String
  pub session_key : String
  pub project_name : String
  pub project_git_url : String

pub record TaskRuntime : Type 0 where
  pub enabled : Bool
  pub daily_summary_records : Dict DailySummaryRecord
  pub waiting_tasks : Dict WaitingTask
  pub active_tasks : Dict ActiveTask
  pub claimed_task_ids : List String

-- A status that is sent to the relay server: RelayTaskStatusUpdate with its task.
pub record StatusUpdate : Type 0 where
  pub local_agent : String
  pub task_id : String
  pub status : String
  pub progress : ℤ

unfoldable pub build_waiting_key : String → String → String → String
build_waiting_key channel_instance agent_name chat_id =
    channel_instance <+> ":" <+> agent_name <+> ":" <+> chat_id

unfoldable pub waiting_key : InboundMessage → String
waiting_key msg = build_waiting_key (effective_channel_instance msg) msg.agent_name msg.chat_id

unfoldable pub has_pending_task : TaskRuntime → String → Bool
has_pending_task r local_agent =
    is_some (lookup local_agent r.active_tasks)
    || any (λ (entry : String × WaitingTask). str_eq entry.1.local_agent local_agent)
        r.waiting_tasks

unfoldable pub is_task_claimed : TaskRuntime → String → Bool
is_task_claimed r task_id = member task_id r.claimed_task_ids

unfoldable pub mark_active_task : TaskRuntime → String → String → String → TaskRuntime
mark_active_task r local_agent task_id session_key = record r {
  active_tasks =
      insert local_agent
        (record {
          task_id = task_id;
          session_key = session_key;
          project_name = "";
          project_git_url = "";
        })
        r.active_tasks;
}

unfoldable pub clear_active_task : TaskRuntime → String → TaskRuntime
clear_active_task r local_agent = record r { active_tasks = erase local_agent r.active_tasks }

unfoldable pub clear_waiting_task : TaskRuntime → InboundMessage → TaskRuntime
unfolding waiting_key
clear_waiting_task r msg = record r { waiting_tasks = erase (waiting_key msg) r.waiting_tasks }
