-- ===== src/Config/Environment/Parts.antt =====
-- The variables of each part of the settings, in src/config/config_loader.cpp.
use kabot.Base.{if◌then◌else◌}
use kabot.Config.Types.{AgentDefaults, QmdConfig, HeartbeatConfig, TaskSystemConfig, Config}
use kabot.Config.Reading.{Numbers}
use kabot.Config.Environment.{
  Env, get_env_fallback, given, text_env, bool_env, int_env, double_env, parse_int,
}
use kabot.Config.Environment.Channels.{telegram_env, lark_env, qqbot_env}
use kabot.Config.Environment.Providers.{providers_env}

unfoldable pub agents_env : Env → Numbers → AgentDefaults → AgentDefaults
unfolding text_env int_env double_env parse_int get_env_fallback
agents_env env numbers target = record target {
  workspace =
      text_env (get_env_fallback env "KABOT_AGENTS__DEFAULTS__WORKSPACE" "KABOT_AGENT_WORKSPACE")
        target.workspace;
  model =
      text_env (get_env_fallback env "KABOT_AGENTS__DEFAULTS__MODEL" "KABOT_AGENT_MODEL")
        target.model;
  brave_api_key =
      text_env
        (get_env_fallback env "KABOT_TOOLS__WEB__SEARCH__API_KEY" "KABOT_AGENT_BRAVE_API_KEY")
        target.brave_api_key;
  max_iterations =
      if given (
        get_env_fallback env "KABOT_AGENTS__DEFAULTS__MAX_TOOL_ITERATIONS"
          "KABOT_AGENT_MAX_TOOL_ITERATIONS")
      then parse_int numbers
          (get_env_fallback env "KABOT_AGENTS__DEFAULTS__MAX_TOOL_ITERATIONS"
            "KABOT_AGENT_MAX_TOOL_ITERATIONS")
          target.max_tool_iterations
      else (int_env numbers
          (get_env_fallback env "KABOT_AGENTS__DEFAULTS__MAX_ITERATIONS"
            "KABOT_AGENT_MAX_ITERATIONS")
          target.max_iterations);
  max_tokens =
      int_env numbers
        (get_env_fallback env "KABOT_AGENTS__DEFAULTS__MAX_TOKENS" "KABOT_AGENT_MAX_TOKENS")
        target.max_tokens;
  temperature =
      double_env numbers
        (get_env_fallback env "KABOT_AGENTS__DEFAULTS__TEMPERATURE" "KABOT_AGENT_TEMPERATURE")
        target.temperature;
  max_history_messages =
      int_env numbers
        (get_env_fallback env "KABOT_AGENTS__DEFAULTS__MAX_HISTORY_MESSAGES"
          "KABOT_AGENT_MAX_HISTORY_MESSAGES")
        target.max_history_messages;
  max_tool_iterations =
      int_env numbers
        (get_env_fallback env "KABOT_AGENTS__DEFAULTS__MAX_TOOL_ITERATIONS"
          "KABOT_AGENT_MAX_TOOL_ITERATIONS")
        target.max_tool_iterations;
}

unfoldable pub qmd_env : Env → Numbers → QmdConfig → QmdConfig
unfolding text_env bool_env int_env double_env get_env_fallback
qmd_env env numbers target = record target {
  enabled = bool_env (get_env_fallback env "KABOT_QMD__ENABLED" "KABOT_QMD_ENABLED") target.enabled;
  command = text_env (get_env_fallback env "KABOT_QMD__COMMAND" "KABOT_QMD_COMMAND") target.command;
  collection =
      text_env (get_env_fallback env "KABOT_QMD__COLLECTION" "KABOT_QMD_COLLECTION")
        target.collection;
  index = text_env (get_env_fallback env "KABOT_QMD__INDEX" "KABOT_QMD_INDEX") target.index;
  max_results =
      int_env numbers (get_env_fallback env "KABOT_QMD__MAX_RESULTS" "KABOT_QMD_MAX_RESULTS")
        target.max_results;
  min_score =
      double_env numbers (get_env_fallback env "KABOT_QMD__MIN_SCORE" "KABOT_QMD_MIN_SCORE")
        target.min_score;
  timeout_s =
      int_env numbers (get_env_fallback env "KABOT_QMD__TIMEOUT_S" "KABOT_QMD_TIMEOUT_S")
        target.timeout_s;
  update_on_write =
      bool_env (get_env_fallback env "KABOT_QMD__UPDATE_ON_WRITE" "KABOT_QMD_UPDATE_ON_WRITE")
        target.update_on_write;
  update_embeddings =
      bool_env (get_env_fallback env "KABOT_QMD__UPDATE_EMBEDDINGS" "KABOT_QMD_UPDATE_EMBEDDINGS")
        target.update_embeddings;
}

unfoldable pub heartbeat_env : Env → Numbers → HeartbeatConfig → HeartbeatConfig
unfolding text_env bool_env int_env get_env_fallback
heartbeat_env env numbers target = record target {
  enabled =
      bool_env (get_env_fallback env "KABOT_HEARTBEAT__ENABLED" "KABOT_HEARTBEAT_ENABLED")
        target.enabled;
  interval_s =
      int_env numbers
        (get_env_fallback env "KABOT_HEARTBEAT__INTERVAL_S" "KABOT_HEARTBEAT_INTERVAL_S")
        target.interval_s;
  cron_store_path =
      text_env
        (get_env_fallback env "KABOT_HEARTBEAT__CRON_STORE_PATH" "KABOT_HEARTBEAT_CRON_STORE_PATH")
        target.cron_store_path;
  cron_http_host =
      text_env
        (get_env_fallback env "KABOT_HEARTBEAT__CRON_HTTP_HOST" "KABOT_HEARTBEAT_CRON_HTTP_HOST")
        target.cron_http_host;
  cron_http_port =
      int_env numbers
        (get_env_fallback env "KABOT_HEARTBEAT__CRON_HTTP_PORT" "KABOT_HEARTBEAT_CRON_HTTP_PORT")
        target.cron_http_port;
}

unfoldable pub task_system_env : Env → Numbers → TaskSystemConfig → TaskSystemConfig
unfolding bool_env int_env get_env_fallback
task_system_env env numbers target = record target {
  enabled =
      bool_env (get_env_fallback env "KABOT_TASK_SYSTEM__ENABLED" "KABOT_TASK_SYSTEM_ENABLED")
        target.enabled;
  poll_interval_s =
      int_env numbers
        (get_env_fallback env "KABOT_TASK_SYSTEM__POLL_INTERVAL_S"
          "KABOT_TASK_SYSTEM_POLL_INTERVAL_S")
        target.poll_interval_s;
  daily_summary_hour_local =
      int_env numbers
        (get_env_fallback env "KABOT_TASK_SYSTEM__DAILY_SUMMARY_HOUR_LOCAL"
          "KABOT_TASK_SYSTEM_DAILY_SUMMARY_HOUR_LOCAL")
        target.daily_summary_hour_local;
  max_concurrent_tasks =
      int_env numbers
        (get_env_fallback env "KABOT_TASK_SYSTEM__MAX_CONCURRENT_TASKS"
          "KABOT_TASK_SYSTEM_MAX_CONCURRENT_TASKS")
        target.max_concurrent_tasks;
  task_timeout_s =
      int_env numbers
        (get_env_fallback env "KABOT_TASK_SYSTEM__TASK_TIMEOUT_S"
          "KABOT_TASK_SYSTEM_TASK_TIMEOUT_S")
        target.task_timeout_s;
  shutdown_timeout_s =
      int_env numbers
        (get_env_fallback env "KABOT_TASK_SYSTEM__SHUTDOWN_TIMEOUT_S"
          "KABOT_TASK_SYSTEM_SHUTDOWN_TIMEOUT_S")
        target.shutdown_timeout_s;
  max_tasks_per_plan =
      int_env numbers
        (get_env_fallback env "KABOT_TASK_SYSTEM__MAX_TASKS_PER_PLAN"
          "KABOT_TASK_SYSTEM_MAX_TASKS_PER_PLAN")
        target.max_tasks_per_plan;
  max_plan_output_tokens =
      int_env numbers (get_env_fallback env "KABOT_TASK_SYSTEM_MAX_PLAN_OUTPUT_TOKENS" "")
        target.max_plan_output_tokens;
}

-- Everything that LoadConfig does between the file and NormalizeConfig.
unfoldable pub apply_env : Env → Numbers → Config → Config
unfolding telegram_env lark_env qqbot_env providers_env agents_env qmd_env heartbeat_env
    task_system_env
apply_env env numbers config = record config {
  channels = record config.channels {
    telegram = telegram_env env config.channels.telegram;
    lark = lark_env env numbers config.channels.lark;
    qqbot = qqbot_env env config.channels.qqbot;
  };
  providers = providers_env env config.providers;
  agents = record config.agents { defaults = agents_env env numbers config.agents.defaults };
  qmd = qmd_env env numbers config.qmd;
  heartbeat = heartbeat_env env numbers config.heartbeat;
  task_system = task_system_env env numbers config.task_system;
}
