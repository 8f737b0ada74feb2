-- ===== src/Config/Types.antt =====
-- The structs of src/config/config_schema.hpp. An `int` is an integer, whose
-- range the loader does not check; a `double` is the number that its 64 bits make.
use kabot.Base.{ℕ, Bool, String, Option, List, find_first, str_eq}
use kabot.Base.Int.{ℤ}

pub record ChannelBindingConfig : Type 0 where
  pub agent : String

pub record TelegramConfig : Type 0 where
  pub name : String
  pub enabled : Bool
  pub token : String
  pub allow_from : List String
  pub binding : ChannelBindingConfig

pub record LarkConfig : Type 0 where
  pub name : String
  pub enabled : Bool
  pub app_id : String
  pub app_secret : String
  pub domain : String
  pub timeout_ms : ℤ
  pub allow_from : List String
  pub binding : ChannelBindingConfig

pub record QqBotConfig : Type 0 where
  pub name : String
  pub enabled : Bool
  pub app_id : String
  pub client_secret : String
  pub token : String
  pub sandbox : Bool
  pub intents : String
  pub skip_tls_verify : Bool
  pub allow_from : List String
  pub binding : ChannelBindingConfig

pub record WeixinConfig : Type 0 where
  pub name : String
  pub enabled : Bool
  pub account_id : String
  pub base_url : String
  pub cdn_base_url : String
  pub route_tag : Option ℤ
  pub allow_from : List String
  pub binding : ChannelBindingConfig
  pub app_id : String
  pub app_version : String

pub record ChannelInstanceConfig : Type 0 where
  pub name : String
  pub type : String
  pub enabled : Bool
  pub allow_from : List String
  pub binding : ChannelBindingConfig
  pub telegram : TelegramConfig
  pub lark : LarkConfig
  pub qqbot : QqBotConfig
  pub weixin : WeixinConfig

pub record ChannelsConfig : Type 0 where
  pub telegram : TelegramConfig
  pub lark : LarkConfig
  pub qqbot : QqBotConfig
  pub weixin : WeixinConfig
  pub instances : List ChannelInstanceConfig

pub record ProviderConfig : Type 0 where
  pub api_key : String
  pub api_base : String

pub record ProvidersConfig : Type 0 where
  pub anthropic : ProviderConfig
  pub openai : ProviderConfig
  pub openrouter : ProviderConfig
  pub moonshot : ProviderConfig
  pub zhipu : ProviderConfig
  pub vllm : ProviderConfig
  pub gemini : ProviderConfig
  pub use_proxy_for_llm : Bool
  pub user_agent : String

pub record AgentDefaults : Type 0 where
  pub workspace : String
  pub model : String
  pub tool_profile : String
  pub brave_api_key : String
  pub max_iterations : ℤ
  pub max_tokens : ℤ
  pub temperature : ℕ
  pub max_tool_iterations : ℤ
  pub max_history_messages : ℤ

-- The base class is the field `settings`.
pub record AgentInstanceConfig : Type 0 where
  pub settings : AgentDefaults
  pub name : String

pub record AgentsConfig : Type 0 where
  pub defaults : AgentDefaults
  pub instances : List AgentInstanceConfig

pub record RelayConnectionDefaults : Type 0 where
  pub scheme : String
  pub host : String
  pub port : ℤ
  pub path : String
  pub use_tls : Bool
  pub skip_tls_verify : Bool
  pub heartbeat_interval_s : ℤ
  pub reconnect_initial_delay_ms : ℤ
  pub reconnect_max_delay_ms : ℤ

pub record RelayManagedAgentConfig : Type 0 where
  pub name : String
  pub enabled : Bool
  pub local_agent : String
  pub agent_id : String
  pub token : String
  pub scheme : String
  pub host : String
  pub port : ℤ
  pub path : String
  pub use_tls : Bool
  pub skip_tls_verify : Bool
  pub heartbeat_interval_s : ℤ
  pub reconnect_initial_delay_ms : ℤ
  pub reconnect_max_delay_ms : ℤ
  pub auto_claim_tasks : Bool

pub record RelayConfig : Type 0 where
  pub defaults : RelayConnectionDefaults
  pub managed_agents : List RelayManagedAgentConfig

pub record HeartbeatConfig : Type 0 where
  pub enabled : Bool
  pub interval_s : ℤ
  pub cron_store_path : String
  pub cron_http_host : String
  pub cron_http_port : ℤ

pub record TaskSystemConfig : Type 0 where
  pub enabled : Bool
  pub poll_interval_s : ℤ
  pub daily_summary_hour_local : ℤ
  pub max_concurrent_tasks : ℤ
  pub task_timeout_s : ℤ
  pub shutdown_timeout_s : ℤ
  pub max_tasks_per_plan : ℤ
  pub max_plan_output_tokens : ℤ

pub record QmdConfig : Type 0 where
  pub enabled : Bool
  pub command : String
  pub collection : String
  pub index : String
  pub max_results : ℤ
  pub min_score : ℕ
  pub timeout_s : ℤ
  pub update_on_write : Bool
  pub update_embeddings : Bool

pub record LoggingConfig : Type 0 where
  pub level : String
  pub log_file : String
  pub enable_stdout : Bool

pub record Config : Type 0 where
  pub agents : AgentsConfig
  pub relay : RelayConfig
  pub channels : ChannelsConfig
  pub heartbeat : HeartbeatConfig
  pub task_system : TaskSystemConfig
  pub providers : ProvidersConfig
  pub qmd : QmdConfig
  pub logging : LoggingConfig

unfoldable pub find_agent : Config → String → Option AgentInstanceConfig
find_agent c name =
    find_first (λ (agent : AgentInstanceConfig). str_eq agent.name name) c.agents.instances
