-- ===== src/Cron/Types.antt =====
-- src/cron/cron_types.hpp. Times are milliseconds in a long long; they are integers here; the
-- machine width is not modelled.
use kabot.Base.{Bool, true, false, Option, none, String}
use kabot.Base.Int.{ℤ, pos}

pub data CronScheduleKind : Type 0 where
  at every cron : CronScheduleKind

pub record CronSchedule : Type 0 where
  pub kind : CronScheduleKind
  pub at_ms : Option ℤ
  pub every_ms : Option ℤ
  pub expr : String
  pub tz : String

pub record CronPayload : Type 0 where
  pub kind : String
  pub message : String
  pub deliver : Bool
  pub agent : String
  pub channel : String
  pub to : String

pub record CronJobState : Type 0 where
  pub next_run_at_ms : Option ℤ
  pub last_run_at_ms : Option ℤ
  pub last_status : String
  pub last_error : String

pub record CronJob : Type 0 where
  pub id : String
  pub name : String
  pub enabled : Bool
  pub schedule : CronSchedule
  pub payload : CronPayload
  pub state : CronJobState
  pub created_at_ms : ℤ
  pub updated_at_ms : ℤ
  pub delete_after_run : Bool

-- The values of the default member initialisers.
abbrev pub default_schedule : CronSchedule
default_schedule = record { kind = every; at_ms = none; every_ms = none; expr = ""; tz = "" }

abbrev pub default_payload : CronPayload
default_payload = record {
  kind = "agent_turn";
  message = "";
  deliver = false;
  agent = "";
  channel = "";
  to = "";
}

abbrev pub default_state : CronJobState
default_state = record {
  next_run_at_ms = none;
  last_run_at_ms = none;
  last_status = "";
  last_error = "";
}

abbrev pub default_job : CronJob
default_job = record {
  id = "";
  name = "";
  enabled = true;
  schedule = default_schedule;
  payload = default_payload;
  state = default_state;
  created_at_ms = pos 0;
  updated_at_ms = pos 0;
  delete_after_run = false;
}
