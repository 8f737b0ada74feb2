-- ===== src/Tasks/Summary.antt =====
-- The daily summary of an agent's memory: HandleDailySummaryCron of src/task/task_runtime.cpp. What
-- the relay, the configuration and the files of the agent give is in `Day`, as the handler reads it. The
-- lock is free while the memory is uploaded, so the check and the record are two steps.
pub mod Once
mod Examples
use Prim.Native.String
use kabot.Base.{
  ℕ, Bool, true, false, not, ◌&&◌, String, Option, none, some, List, [], ◌∷◌, str_eq, empty,
  if◌then◌else◌,
}
use kabot.Base.Dict.{Dict, lookup, insert}
use kabot.Bus.{◌<+>◌}
use kabot.Tasks.State.{DailySummaryRecord, TaskRuntime}

-- DailySummaryUploadResult.
pub record UploadResult : Type 0 where
  pub success : Bool
  pub message : String

-- HasManagedLocalAgent, GetAgentConfig, ReadToday, TodayDate, NowIso and UploadDailySummary during
-- one call of the handler.
pub record Day : Type 0 where
  pub managed : Bool
  pub configured : Bool
  pub memory : String
  pub today : String
  pub now : String
  pub upload : UploadResult

-- The handler's end: the new state, its response, and the summary that it uploaded.
pub record Handled : Type 0 where
  pub runtime : TaskRuntime
  pub response : String
  pub uploaded : Option UploadResult

unfoldable pub set_record : TaskRuntime → String → DailySummaryRecord → TaskRuntime
set_record r local_agent entry = record r {
  daily_summary_records = insert local_agent entry r.daily_summary_records;
}

skipped_record : Day → DailySummaryRecord
skipped_record d = record {
  summary_date = d.today;
  uploaded_at = "";
  status = "skipped";
  message = "daily memory is empty";
}

unfoldable pub upload_record : Day → DailySummaryRecord
upload_record d = record {
  summary_date = d.today;
  uploaded_at = if d.upload.success then d.now else "";
  status = if d.upload.success then "uploaded" else "failed";
  message = d.upload.message;
}

unfoldable pub is_uploaded : TaskRuntime → String → String → Bool
is_uploaded r local_agent today = elim (lookup local_agent r.daily_summary_records) [
  | none ↦ false
  | some entry ↦ str_eq entry.summary_date today && str_eq entry.status "uploaded"
]

skipped : TaskRuntime → String → Handled
skipped r reason = record {
  runtime = r;
  response = "task runtime daily summary skipped: " <+> reason;
  uploaded = none;
}

-- What the handler does up to the end of its second lock section: it ends there, or the memory is to be
-- uploaded.
pub data Checked : Type 0 where
  ended : Handled → Checked
  to_upload : Checked

unfoldable pub check_summary : TaskRuntime → String → Day → Checked
unfolding skipped skipped_record is_uploaded
check_summary r local_agent d =
    if empty local_agent
    then ended (skipped r "missing local agent")
    else if not d.managed
    then ended (skipped r "agent is not relay-managed")
    else if not d.configured
    then ended (skipped r "agent config not found")
    else if empty d.memory
    then ended (skipped (set_record r local_agent (skipped_record d)) "daily memory is empty")
    else if is_uploaded r local_agent d.today
    then ended (skipped r "already uploaded today")
    else to_upload

-- Its last lock section and its response, behind UploadDailySummary, on the state of that time.
unfoldable pub record_summary : TaskRuntime → String → Day → Handled
unfolding set_record upload_record
record_summary r local_agent d = record {
  runtime = set_record r local_agent (upload_record d);
  response =
      if d.upload.success
      then "task runtime daily summary uploaded"
      else "task runtime daily summary failed: " <+> d.upload.message;
  uploaded = some d.upload;
}

-- A whole call; `others` is what the other threads do to the state while the memory is uploaded.
unfoldable pub handle_daily_summary_cron :
    (TaskRuntime → TaskRuntime) → TaskRuntime → String → Day → Handled
unfolding check_summary record_summary
handle_daily_summary_cron others r local_agent d = elim (check_summary r local_agent d) [
  | ended handled ↦ handled
  | to_upload ↦ record_summary (others r) local_agent d
]
