-- ===== src/Config/Normal.antt =====
-- NormalizeConfig of src/config/config_loader.cpp: what is missing is filled from the defaults, and what
-- depends on other settings is brought in line with them.
pub mod Relay
pub mod Channels
use Prim.Native.String
use text.Mathlib.Text.{starts_with}
use kabot.Base.{
  ℕ, Bool, true, false, not, ◌&&◌, ◌||◌, String, Option, none, some, List, [], ◌∷◌, ◌++◌, map,
  str_eq, empty, if◌then◌else◌,
}
use kabot.Base.Int.{ℤ, pos, leb_ℤ, eqb_ℤ}
use kabot.Bus.{or_else, ◌<+>◌}
use kabot.Config.Types.{
  AgentDefaults, AgentInstanceConfig, AgentsConfig, RelayConnectionDefaults,
  RelayManagedAgentConfig, RelayConfig, ChannelInstanceConfig, ChannelsConfig, Config,
}
use kabot.Config.Defaults.{new_channel_instance}
use kabot.Config.Reading.{Numbers}

-- A setting that is still the old default becomes the new one.
abbrev pub text_from : String → String → String → String
text_from previous current value = if str_eq value previous then current else value

abbrev pub integer_from : ℤ → ℤ → ℤ → ℤ
integer_from previous current value = if eqb_ℤ value previous then current else value

unfoldable pub apply_runtime_agent_defaults :
    Numbers → AgentDefaults → AgentDefaults → AgentInstanceConfig → AgentInstanceConfig
apply_runtime_agent_defaults numbers previous current agent = record agent {
  settings = record {
    workspace = text_from previous.workspace current.workspace agent.settings.workspace;
    model = text_from previous.model current.model agent.settings.model;
    tool_profile = text_from previous.tool_profile current.tool_profile agent.settings.tool_profile;
    brave_api_key =
        text_from previous.brave_api_key current.brave_api_key agent.settings.brave_api_key;
    max_iterations =
        integer_from previous.max_iterations current.max_iterations agent.settings.max_iterations;
    max_tokens = integer_from previous.max_tokens current.max_tokens agent.settings.max_tokens;
    temperature =
        if numbers.same_double agent.settings.temperature previous.temperature
        then current.temperature
        else agent.settings.temperature;
    max_tool_iterations =
        integer_from previous.max_tool_iterations current.max_tool_iterations
          agent.settings.max_tool_iterations;
    max_history_messages =
        integer_from previous.max_history_messages current.max_history_messages
          agent.settings.max_history_messages;
  };
}

unfoldable pub normalize_agents : Numbers → AgentDefaults → AgentsConfig → AgentsConfig
unfolding apply_runtime_agent_defaults
normalize_agents numbers previous agents = record agents {
  instances =
      map (apply_runtime_agent_defaults numbers previous agents.defaults) (elim agents.instances [
        | [] ↦ record { settings = agents.defaults; name = "default" } ∷ []
        | agent ∷ rest ↦ agent ∷ rest
      ]);
}

-- The path with a slash in front, or the default path.
unfoldable pub rooted : String → String → String
rooted default_path path =
    if empty path then default_path else if starts_with path "/" then path else "/" <+> path

unfoldable pub normalize_relay_defaults : RelayConnectionDefaults → RelayConnectionDefaults
unfolding rooted
normalize_relay_defaults d = record d {
  path = rooted "/ws/agent" d.path;
  scheme = if d.use_tls then "wss" else or_else d.scheme "ws";
  port = if d.use_tls && eqb_ℤ d.port (pos 8080) then pos 443 else d.port;
}

-- A number that is not positive becomes the default.
abbrev pub positive_or : ℤ → ℤ → ℤ
positive_or value default_value = if leb_ℤ value (pos 0) then default_value else value

abbrev pub first_name : List AgentInstanceConfig → String
first_name [] = ""
first_name (agent ∷ agents) = agent.name

unfoldable pub normalize_managed_agent :
    List AgentInstanceConfig
    → RelayConnectionDefaults
    → RelayManagedAgentConfig
    → RelayManagedAgentConfig
unfolding rooted
normalize_managed_agent agents d a =
    let scheme : String = or_else a.scheme d.scheme in
    let use_tls : Bool = a.use_tls || d.use_tls || str_eq scheme "wss" in
    record a {
      local_agent = or_else (or_else a.local_agent a.name) (first_name agents);
      host = or_else a.host d.host;
      port = positive_or a.port d.port;
      path = rooted d.path a.path;
      use_tls = use_tls;
      skip_tls_verify = a.skip_tls_verify || d.skip_tls_verify;
      scheme =
          if use_tls && not (str_eq scheme "wss")
          then "wss"
          else if not use_tls && empty scheme
          then "ws"
          else scheme;
      heartbeat_interval_s = positive_or a.heartbeat_interval_s d.heartbeat_interval_s;
      reconnect_initial_delay_ms =
          positive_or a.reconnect_initial_delay_ms d.reconnect_initial_delay_ms;
      reconnect_max_delay_ms = positive_or a.reconnect_max_delay_ms d.reconnect_max_delay_ms;
    }

unfoldable pub normalize_relay : List AgentInstanceConfig → RelayConfig → RelayConfig
unfolding normalize_relay_defaults normalize_managed_agent
normalize_relay agents relay =
    let defaults : RelayConnectionDefaults = normalize_relay_defaults relay.defaults in
    record {
      defaults = defaults;
      managed_agents = map (normalize_managed_agent agents defaults) relay.managed_agents;
    }

abbrev pub if_enabled : Bool → ChannelInstanceConfig → List ChannelInstanceConfig
if_enabled enabled instance = if enabled then instance ∷ [] else []

-- The channels that are enabled, as instances, where the file lists none.
unfoldable pub legacy_instances : ChannelsConfig → List ChannelInstanceConfig
legacy_instances c =
    if_enabled c.telegram.enabled (record new_channel_instance {
      name = or_else c.telegram.name "telegram";
      type = "telegram";
      enabled = c.telegram.enabled;
      allow_from = c.telegram.allow_from;
      binding = c.telegram.binding;
      telegram = record c.telegram { name = or_else c.telegram.name "telegram" };
    })
    ++ if_enabled c.lark.enabled (record new_channel_instance {
      name = or_else c.lark.name "lark";
      type = "lark";
      enabled = c.lark.enabled;
      allow_from = c.lark.allow_from;
      binding = c.lark.binding;
      lark = record c.lark { name = or_else c.lark.name "lark" };
    })
    ++ if_enabled c.qqbot.enabled (record new_channel_instance {
      name = or_else c.qqbot.name "qqbot";
      type = "qqbot";
      enabled = c.qqbot.enabled;
      allow_from = c.qqbot.allow_from;
      binding = c.qqbot.binding;
      qqbot = record c.qqbot { name = or_else c.qqbot.name "qqbot" };
    })
    ++ if_enabled c.weixin.enabled (record new_channel_instance {
      name = or_else c.weixin.name "weixin";
      type = "weixin";
      enabled = c.weixin.enabled;
      allow_from = c.weixin.allow_from;
      binding = c.weixin.binding;
      weixin = record c.weixin { name = or_else c.weixin.name "weixin" };
    })

abbrev pub texts_or_else : List String → List String → List String
texts_or_else [] others = others
texts_or_else (s ∷ ss) others = s ∷ ss

-- An instance in line with the settings of its type.
unfoldable pub normalize_typed : ChannelInstanceConfig → ChannelInstanceConfig
normalize_typed i =
    if str_eq i.type "telegram"
    then record i {
      name = or_else i.name (or_else i.telegram.name "telegram");
      telegram = record i.telegram { name = or_else i.name (or_else i.telegram.name "telegram") };
      allow_from = texts_or_else i.allow_from i.telegram.allow_from;
      binding = if empty i.binding.agent then i.telegram.binding else i.binding;
      enabled = i.enabled && not (empty i.telegram.token);
    }
    else if str_eq i.type "lark"
    then record i {
      name = or_else i.name (or_else i.lark.name "lark");
      lark = record i.lark { name = or_else i.name (or_else i.lark.name "lark") };
      allow_from = texts_or_else i.allow_from i.lark.allow_from;
      binding = if empty i.binding.agent then i.lark.binding else i.binding;
      enabled = i.enabled && not (empty i.lark.app_id) && not (empty i.lark.app_secret);
    }
    else if str_eq i.type "qqbot"
    then record i {
      name = or_else i.name (or_else i.qqbot.name "qqbot");
      qqbot = record i.qqbot { name = or_else i.name (or_else i.qqbot.name "qqbot") };
      allow_from = texts_or_else i.allow_from i.qqbot.allow_from;
      binding = if empty i.binding.agent then i.qqbot.binding else i.binding;
      enabled =
          i.enabled
          && not (empty i.qqbot.app_id)
          && (not (empty i.qqbot.client_secret) || not (empty i.qqbot.token));
    }
    else if str_eq i.type "weixin"
    then record i {
      name = or_else i.name (or_else i.weixin.name "weixin");
      weixin = record i.weixin { name = or_else i.name (or_else i.weixin.name "weixin") };
      allow_from = texts_or_else i.allow_from i.weixin.allow_from;
      binding = if empty i.binding.agent then i.weixin.binding else i.binding;
      enabled = i.enabled && not (empty i.weixin.account_id);
    }
    else i

unfoldable pub normalize_instance : String → ChannelInstanceConfig → ChannelInstanceConfig
unfolding normalize_typed
normalize_instance first_agent instance =
    let typed : ChannelInstanceConfig = normalize_typed instance in
    record typed { binding = record { agent = or_else typed.binding.agent first_agent } }

unfoldable pub normalize_channels : String → ChannelsConfig → ChannelsConfig
unfolding legacy_instances normalize_instance
normalize_channels first_agent c = record c {
  instances =
      map (normalize_instance first_agent)
        (elim c.instances [ [] ↦ legacy_instances c | instance ∷ rest ↦ instance ∷ rest ]);
}

unfoldable pub normalize_config : Numbers → Config → AgentDefaults → Config
unfolding normalize_agents normalize_relay normalize_channels
normalize_config numbers config previous =
    let agents : AgentsConfig = normalize_agents numbers previous config.agents in
    record config {
      agents = agents;
      relay = normalize_relay agents.instances config.relay;
      channels = normalize_channels (first_name agents.instances) config.channels;
    }
