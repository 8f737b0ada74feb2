-- ===== src/Config/Reading/File.antt =====
-- ApplyConfigFromJson of src/config/config_loader.cpp: the whole file, section by section.
use kabot.Base.{String, none, some, List, map, if◌then◌else◌}
use kabot.Base.Json.{Json, is_object, array_at, object_at}
use kabot.Config.Defaults.{new_managed_agent}
use kabot.Config.Types.{
  Config, AgentDefaults, AgentInstanceConfig, AgentsConfig, RelayConfig, ChannelsConfig,
  ProvidersConfig, HeartbeatConfig, TaskSystemConfig, QmdConfig, LoggingConfig,
}
use kabot.Config.Reading.{Numbers, text_or, boolean_or, integer_or, double_or, objects_of, part_or}
use kabot.Config.Reading.Parts.{
  apply_provider_config, apply_agent_defaults, apply_relay_connection_defaults,
  apply_relay_managed_agent_config,
}
use kabot.Config.Reading.Channels.{
  apply_telegram_config, apply_lark_config, apply_qqbot_config, apply_weixin_config,
  read_channel_instance,
}

-- A section that is read if it is an object.
unfoldable pub section_or {ℓ} : {A : Type ℓ} → (A → Json → A) → String → Json → A → A
unfolding object_at
section_or read key source old = elim (object_at key source) [ none ↦ old | some v ↦ read old v ]

-- A list of objects that replaces the old one, if it is an array.
unfoldable pub list_or {ℓ} : {A : Type ℓ} → (Json → A) → String → Json → List A → List A
unfolding array_at objects_of
list_or read key source old = elim (array_at key source) [
  | none ↦ old
  | some js ↦ map read (objects_of js)
]

-- tools.web.search.apiKey
unfoldable pub read_tools : AgentDefaults → Json → AgentDefaults
unfolding section_or text_or
read_tools defaults tools =
    section_or
      (λ (d : AgentDefaults) (web : Json).
        section_or
          (λ (d' : AgentDefaults) (search : Json). record d' {
            brave_api_key = text_or "apiKey" search d'.brave_api_key;
          })
          "search" web d)
      "web" tools defaults

unfoldable pub read_agent_instance : Numbers → AgentDefaults → Json → AgentInstanceConfig
unfolding apply_agent_defaults text_or
read_agent_instance numbers defaults item = record {
  settings = apply_agent_defaults numbers defaults item;
  name = text_or "name" item "default";
}

unfoldable pub read_agents : Numbers → AgentsConfig → Json → AgentsConfig
unfolding section_or list_or apply_agent_defaults read_agent_instance
read_agents numbers config agents =
    let defaults : AgentDefaults =
      section_or (apply_agent_defaults numbers) "defaults" agents config.defaults in
    record {
      defaults = defaults;
      instances =
          list_or (read_agent_instance numbers defaults) "instances" agents config.instances;
    }

unfoldable pub read_relay : Numbers → RelayConfig → Json → RelayConfig
unfolding section_or list_or apply_relay_connection_defaults apply_relay_managed_agent_config
read_relay numbers config relay = record {
  defaults = section_or (apply_relay_connection_defaults numbers) "defaults" relay config.defaults;
  managed_agents =
      list_or (apply_relay_managed_agent_config numbers new_managed_agent) "managedAgents" relay
        config.managed_agents;
}

unfoldable pub read_channels : Numbers → ChannelsConfig → Json → ChannelsConfig
unfolding section_or list_or apply_telegram_config apply_lark_config apply_qqbot_config
    apply_weixin_config read_channel_instance
read_channels numbers config channels =
    let read : ChannelsConfig = record config {
      telegram = section_or apply_telegram_config "telegram" channels config.telegram;
      lark = section_or (apply_lark_config numbers) "lark" channels config.lark;
      qqbot = section_or apply_qqbot_config "qqbot" channels config.qqbot;
      weixin = section_or (apply_weixin_config numbers) "weixin" channels config.weixin;
    } in
    record read {
      instances =
          list_or (read_channel_instance numbers read) "instances" channels config.instances;
    }

unfoldable pub read_providers : ProvidersConfig → Json → ProvidersConfig
unfolding apply_provider_config text_or boolean_or
read_providers config providers = record {
  use_proxy_for_llm = boolean_or "useProxyForLLM" providers config.use_proxy_for_llm;
  user_agent = text_or "userAgent" providers config.user_agent;
  anthropic = part_or apply_provider_config "anthropic" providers config.anthropic;
  openai = part_or apply_provider_config "openai" providers config.openai;
  openrouter = part_or apply_provider_config "openrouter" providers config.openrouter;
  moonshot = part_or apply_provider_config "moonshot" providers config.moonshot;
  zhipu = part_or apply_provider_config "zhipu" providers config.zhipu;
  vllm = part_or apply_provider_config "vllm" providers config.vllm;
  gemini = part_or apply_provider_config "gemini" providers config.gemini;
}

unfoldable pub read_heartbeat : Numbers → HeartbeatConfig → Json → HeartbeatConfig
unfolding text_or boolean_or integer_or
read_heartbeat numbers config heartbeat = record {
  enabled = boolean_or "enabled" heartbeat config.enabled;
  interval_s = integer_or numbers "intervalS" heartbeat config.interval_s;
  cron_store_path = text_or "cronStorePath" heartbeat config.cron_store_path;
  cron_http_host = text_or "cronHttpHost" heartbeat config.cron_http_host;
  cron_http_port = integer_or numbers "cronHttpPort" heartbeat config.cron_http_port;
}

unfoldable pub read_task_system : Numbers → TaskSystemConfig → Json → TaskSystemConfig
unfolding boolean_or integer_or
read_task_system numbers config task_system = record {
  enabled = boolean_or "enabled" task_system config.enabled;
  poll_interval_s = integer_or numbers "pollIntervalS" task_system config.poll_interval_s;
  daily_summary_hour_local =
      integer_or numbers "dailySummaryHourLocal" task_system config.daily_summary_hour_local;
  max_concurrent_tasks =
      integer_or numbers "maxConcurrentTasks" task_system config.max_concurrent_tasks;
  task_timeout_s = integer_or numbers "taskTimeoutS" task_system config.task_timeout_s;
  shutdown_timeout_s = integer_or numbers "shutdownTimeoutS" task_system config.shutdown_timeout_s;
  max_tasks_per_plan = integer_or numbers "maxTasksPerPlan" task_system config.max_tasks_per_plan;
  max_plan_output_tokens =
      integer_or numbers "maxPlanOutputTokens" task_system config.max_plan_output_tokens;
}

unfoldable pub read_qmd : Numbers → QmdConfig → Json → QmdConfig
unfolding text_or boolean_or integer_or double_or
read_qmd numbers config qmd = record {
  enabled = boolean_or "enabled" qmd config.enabled;
  command = text_or "command" qmd config.command;
  collection = text_or "collection" qmd config.collection;
  index = text_or "index" qmd config.index;
  max_results = integer_or numbers "maxResults" qmd config.max_results;
  min_score = double_or numbers "minScore" qmd config.min_score;
  timeout_s = integer_or numbers "timeoutS" qmd config.timeout_s;
  update_on_write = boolean_or "updateOnWrite" qmd config.update_on_write;
  update_embeddings = boolean_or "updateEmbeddings" qmd config.update_embeddings;
}

unfoldable pub read_logging : LoggingConfig → Json → LoggingConfig
unfolding text_or boolean_or
read_logging config logging = record {
  level = text_or "level" logging config.level;
  log_file = text_or "logFile" logging config.log_file;
  enable_stdout = boolean_or "enableStdout" logging config.enable_stdout;
}

unfoldable pub apply_config_from_json : Numbers → Config → Json → Config
unfolding section_or read_tools read_agents read_relay read_channels read_providers read_heartbeat
    read_task_system read_qmd read_logging
apply_config_from_json numbers config source =
    if is_object source
    then record {
      agents = section_or (read_agents numbers) "agents" source (record config.agents {
        defaults = section_or read_tools "tools" source config.agents.defaults;
      });
      relay = section_or (read_relay numbers) "relay" source config.relay;
      channels = section_or (read_channels numbers) "channels" source config.channels;
      providers = section_or read_providers "providers" source config.providers;
      heartbeat = section_or (read_heartbeat numbers) "heartbeat" source config.heartbeat;
      task_system = section_or (read_task_system numbers) "taskSystem" source config.task_system;
      qmd = section_or (read_qmd numbers) "qmd" source config.qmd;
      logging = section_or read_logging "logging" source config.logging;
    }
    else config
