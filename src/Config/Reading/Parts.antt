-- ===== src/Config/Reading/Parts.antt =====
-- The small readers of src/config/config_loader.cpp: providers, agents, relay connections and bindings.
use kabot.Base.{String, none, some, List, [], ◌∷◌, if◌then◌else◌}
use kabot.Base.Json.{Json, is_object, text_at, array_at, texts_of}
use kabot.Config.Types.{
  ProviderConfig, AgentDefaults, RelayConnectionDefaults, RelayManagedAgentConfig,
  ChannelBindingConfig,
}
use kabot.Config.Reading.{Numbers, or_old, text_or, boolean_or, integer_or, double_or}

unfoldable pub apply_provider_config : ProviderConfig → Json → ProviderConfig
unfolding text_or
apply_provider_config target source =
    if is_object source
    then record {
      api_key = text_or "apiKey" source target.api_key;
      api_base = text_or "apiBase" source target.api_base;
    }
    else target

unfoldable pub apply_agent_defaults : Numbers → AgentDefaults → Json → AgentDefaults
unfolding text_or integer_or double_or
apply_agent_defaults numbers target source =
    if is_object source
    then record target {
      workspace = text_or "workspace" source target.workspace;
      model = text_or "model" source target.model;
      tool_profile = text_or "toolProfile" source target.tool_profile;
      max_tokens = integer_or numbers "maxTokens" source target.max_tokens;
      temperature = double_or numbers "temperature" source target.temperature;
      max_tool_iterations =
          integer_or numbers "maxToolIterations" source target.max_tool_iterations;
      max_iterations =
          integer_or numbers "maxIterations" source
            (integer_or numbers "maxToolIterations" source target.max_iterations);
      max_history_messages =
          integer_or numbers "maxHistoryMessages" source target.max_history_messages;
    }
    else target

unfoldable pub apply_relay_connection_defaults :
    Numbers → RelayConnectionDefaults → Json → RelayConnectionDefaults
unfolding text_or boolean_or integer_or
apply_relay_connection_defaults numbers target source =
    if is_object source
    then record {
      scheme = text_or "scheme" source target.scheme;
      host = text_or "host" source target.host;
      port = integer_or numbers "port" source target.port;
      path = text_or "path" source target.path;
      use_tls = boolean_or "useTls" source target.use_tls;
      skip_tls_verify = boolean_or "skipTlsVerify" source target.skip_tls_verify;
      heartbeat_interval_s =
          integer_or numbers "heartbeatIntervalS" source target.heartbeat_interval_s;
      reconnect_initial_delay_ms =
          integer_or numbers "reconnectInitialDelayMs" source target.reconnect_initial_delay_ms;
      reconnect_max_delay_ms =
          integer_or numbers "reconnectMaxDelayMs" source target.reconnect_max_delay_ms;
    }
    else target

unfoldable pub apply_relay_managed_agent_config :
    Numbers → RelayManagedAgentConfig → Json → RelayManagedAgentConfig
unfolding text_or boolean_or integer_or
apply_relay_managed_agent_config numbers target source =
    if is_object source
    then record {
      name = text_or "name" source target.name;
      enabled = boolean_or "enabled" source target.enabled;
      local_agent =
          or_old (text_at "localAgent" source) (text_or "agent" source target.local_agent);
      agent_id = text_or "agentId" source target.agent_id;
      token = text_or "token" source target.token;
      scheme = text_or "scheme" source target.scheme;
      host = text_or "host" source target.host;
      port = integer_or numbers "port" source target.port;
      path = text_or "path" source target.path;
      use_tls = boolean_or "useTls" source target.use_tls;
      skip_tls_verify = boolean_or "skipTlsVerify" source target.skip_tls_verify;
      heartbeat_interval_s =
          integer_or numbers "heartbeatIntervalS" source target.heartbeat_interval_s;
      reconnect_initial_delay_ms =
          integer_or numbers "reconnectInitialDelayMs" source target.reconnect_initial_delay_ms;
      reconnect_max_delay_ms =
          integer_or numbers "reconnectMaxDelayMs" source target.reconnect_max_delay_ms;
      auto_claim_tasks = boolean_or "autoClaimTasks" source target.auto_claim_tasks;
    }
    else target

abbrev pub first_or : List String → String → String
first_or [] old = old
first_or (s ∷ ss) old = s

-- The first of `agent`, `defaultAgent` and the texts of `agents` that is there.
unfoldable pub apply_binding_config : ChannelBindingConfig → Json → ChannelBindingConfig
unfolding text_at array_at texts_of
apply_binding_config target source =
    if is_object source
    then record {
      agent = or_old (text_at "agent" source) (
          or_old (text_at "defaultAgent" source) (elim (array_at "agents" source) [
            | none ↦ target.agent
            | some js ↦ first_or (texts_of js) target.agent
          ]));
    }
    else target
