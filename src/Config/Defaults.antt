-- ===== src/Config/Defaults.antt =====
-- The default values in src/config/config_schema.hpp: the objects that `{}` makes.
use kabot.Base.{true, false, none, []}
use kabot.Base.Int.{pos}
use kabot.Config.Types.{
  ChannelBindingConfig, TelegramConfig, LarkConfig, QqBotConfig, WeixinConfig,
  ChannelInstanceConfig, ProviderConfig, AgentDefaults, RelayManagedAgentConfig,
  RelayConnectionDefaults, Config,
}

abbrev pub unbound : ChannelBindingConfig
unbound = record { agent = "" }

abbrev pub telegram_defaults : TelegramConfig
telegram_defaults = record {
  name = "telegram";
  enabled = false;
  token = "";
  allow_from = [];
  binding = unbound;
}

abbrev pub lark_defaults : LarkConfig
lark_defaults = record {
  name = "lark";
  enabled = false;
  app_id = "";
  app_secret = "";
  domain = "";
  timeout_ms = pos 10000;
  allow_from = [];
  binding = unbound;
}

abbrev pub qqbot_defaults : QqBotConfig
qqbot_defaults = record {
  name = "qqbot";
  enabled = false;
  app_id = "";
  client_secret = "";
  token = "";
  sandbox = false;
  intents = "";
  skip_tls_verify = false;
  allow_from = [];
  binding = unbound;
}

abbrev pub weixin_defaults : WeixinConfig
weixin_defaults = record {
  name = "weixin";
  enabled = false;
  account_id = "";
  base_url = "https://ilinkai.weixin.qq.com";
  cdn_base_url = "https://novac2c.cdn.weixin.qq.com/c2c";
  route_tag = none;
  allow_from = [];
  binding = unbound;
  app_id = "kabot";
  app_version = "1.0.0";
}

abbrev pub new_channel_instance : ChannelInstanceConfig
new_channel_instance = record {
  name = "";
  type = "";
  enabled = true;
  allow_from = [];
  binding = unbound;
  telegram = telegram_defaults;
  lark = lark_defaults;
  qqbot = qqbot_defaults;
  weixin = weixin_defaults;
}

abbrev pub no_provider : ProviderConfig
no_provider = record { api_key = ""; api_base = "" }

-- 0.7 is the double 0x3FE6666666666666, and 0.3 is 0x3FD3333333333333.
abbrev pub agent_defaults : AgentDefaults
agent_defaults = record {
  workspace = "~/.kabot/workspace";
  model = "anthropic/claude-opus-4-5";
  tool_profile = "full";
  brave_api_key = "";
  max_iterations = pos 20;
  max_tokens = pos 8192;
  temperature = 0x3FE6666666666666;
  max_tool_iterations = pos 20;
  max_history_messages = pos 200;
}

abbrev pub new_managed_agent : RelayManagedAgentConfig
new_managed_agent = record {
  name = "";
  enabled = true;
  local_agent = "";
  agent_id = "";
  token = "";
  scheme = "";
  host = "";
  port = pos 0;
  path = "";
  use_tls = false;
  skip_tls_verify = false;
  heartbeat_interval_s = pos 0;
  reconnect_initial_delay_ms = pos 0;
  reconnect_max_delay_ms = pos 0;
  auto_claim_tasks = false;
}

abbrev pub relay_defaults : RelayConnectionDefaults
relay_defaults = record {
  scheme = "ws";
  host = "127.0.0.1";
  port = pos 8080;
  path = "/ws/agent";
  use_tls = false;
  skip_tls_verify = false;
  heartbeat_interval_s = pos 10;
  reconnect_initial_delay_ms = pos 1000;
  reconnect_max_delay_ms = pos 30000;
}

abbrev pub new_config : Config
new_config = record {
  agents = record { defaults = agent_defaults; instances = [] };
  relay = record { defaults = relay_defaults; managed_agents = [] };
  channels = record {
    telegram = telegram_defaults;
    lark = lark_defaults;
    qqbot = qqbot_defaults;
    weixin = weixin_defaults;
    instances = [];
  };
  heartbeat = record {
    enabled = true;
    interval_s = pos 1800;
    cron_store_path = "";
    cron_http_host = "0.0.0.0";
    cron_http_port = pos 8089;
  };
  task_system = record {
    enabled = false;
    poll_interval_s = pos 30;
    daily_summary_hour_local = pos 22;
    max_concurrent_tasks = pos 4;
    task_timeout_s = pos 300;
    shutdown_timeout_s = pos 30;
    max_tasks_per_plan = pos 20;
    max_plan_output_tokens = pos 8192;
  };
  providers = record {
    anthropic = no_provider;
    openai = no_provider;
    openrouter = no_provider;
    moonshot = no_provider;
    zhipu = no_provider;
    vllm = no_provider;
    gemini = no_provider;
    use_proxy_for_llm = false;
    user_agent = "claude-code/0.2.1";
  };
  qmd = record {
    enabled = false;
    command = "qmd";
    collection = "";
    index = "";
    max_results = pos 5;
    min_score = 0x3FD3333333333333;
    timeout_s = pos 10;
    update_on_write = false;
    update_embeddings = false;
  };
  logging = record { level = "info"; log_file = ""; enable_stdout = true };
}
