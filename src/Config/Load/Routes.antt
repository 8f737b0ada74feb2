-- ===== src/Config/Load/Routes.antt =====
-- The configuration that LoadConfig of src/config/config_loader.cpp returns, as the agent registry of
-- src/agent/agent_registry.cpp reads it.
use kabot.Base.{Option, List, [], ◌∷◌, ◌≡◌, refl, map, true, is_some}
use kabot.Base.Json.{Json}
use kabot.Bus.{InboundMessage}
use kabot.Agents.Registry
use kabot.Agents.Registry.{resolve_agent_name}
use kabot.Agents.Registry.Routing.{resolve_agent_name_found}
use kabot.Config.Types.{AgentDefaults, AgentInstanceConfig, ChannelInstanceConfig, Config}
use kabot.Config.Reading.{Numbers}
use kabot.Config.Environment.{Env}
use kabot.Config.Environment.Parts.{apply_env}
use kabot.Config.Normal.{normalize_agents, normalize_config}
use kabot.Config.Load.{from_file, load_config}

abbrev pub routed_agent : AgentInstanceConfig → Registry.AgentInstanceConfig
routed_agent agent = record { name = agent.name; workspace = agent.settings.workspace }

abbrev pub routed_channel : ChannelInstanceConfig → Registry.ChannelInstanceConfig
routed_channel channel = record {
  name = channel.name;
  enabled = channel.enabled;
  binding_agent = channel.binding.agent;
}

-- What the registry reads of a configuration.
abbrev pub routing : Config → Registry.Config
routing config = record {
  agents = map routed_agent config.agents.instances;
  channels = map routed_channel config.channels.instances;
}

some_agent :
    (numbers : Numbers) (previous : AgentDefaults) (defaults : AgentDefaults)
    (agents : List AgentInstanceConfig)
    → (first : AgentInstanceConfig) × (rest : List AgentInstanceConfig) × ((normalize_agents numbers
          previous
          (record { defaults = defaults; instances = agents })).instances
        ≡ first ∷ rest)
unfolding normalize_agents
some_agent numbers previous defaults [] = (_, _, refl)
some_agent numbers previous defaults (agent ∷ agents) = (_, _, refl)

loaded_agents :
    (env : Env) (numbers : Numbers) (file : Option Json)
    → (first : AgentInstanceConfig) × (rest : List AgentInstanceConfig) × ((load_config env numbers
          file).agents.instances
        ≡ first ∷ rest)
unfolding load_config normalize_config apply_env
loaded_agents env numbers file =
    some_agent numbers (from_file numbers file).agents.defaults
      (apply_env env numbers (from_file numbers file)).agents.defaults
      (from_file numbers file).agents.instances

-- Whatever the file and the environment hold, every inbound message is routed to an agent that the loaded
-- configuration has.
pub load_config-resolve_agent_name :
    (env : Env) (numbers : Numbers) (file : Option Json) (msg : InboundMessage)
    → is_some (
        Registry.find_agent
          (routing (load_config env numbers file))
          (resolve_agent_name (routing (load_config env numbers file)) msg))
      ≡ true
load_config-resolve_agent_name env numbers file msg =
    let (first, rest, e) = loaded_agents env numbers file in
    resolve_agent_name_found (routing (load_config env numbers file)) msg (routed_agent first)
      (map routed_agent rest) (rw e refl)
