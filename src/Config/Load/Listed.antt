-- ===== src/Config/Load/Listed.antt =====
-- What the environment changes of the channel instances that a file lists, in LoadConfig of
-- src/config/config_loader.cpp.
use kabot.Base.{Option, String, List, [], ◌∷◌, ◌≡◌, refl, sym, ◌∙◌, ap, map}
use kabot.Base.Json.{Json}
use kabot.Config.Types.{
  AgentDefaults, AgentInstanceConfig, ChannelInstanceConfig, ChannelsConfig, Config,
}
use kabot.Config.Reading.{Numbers}
use kabot.Config.Environment.{Env}
use kabot.Config.Environment.Parts.{apply_env}
use kabot.Config.Normal.{
  apply_runtime_agent_defaults, normalize_agents, normalize_channels, normalize_instance,
  normalize_config, first_name,
}
use kabot.Config.Load.{from_file, load_config}

-- The name of the first agent, "default" where there is none.
abbrev named_first : List AgentInstanceConfig → String
named_first [] = "default"
named_first (agent ∷ agents) = agent.name

normalize_agents-first_name :
    (numbers : Numbers) (previous : AgentDefaults) (defaults : AgentDefaults)
    (agents : List AgentInstanceConfig)
    → first_name
        (normalize_agents numbers previous
          (record { defaults = defaults; instances = agents })).instances
      ≡ named_first agents
unfolding normalize_agents apply_runtime_agent_defaults
normalize_agents-first_name numbers previous defaults [] = refl
normalize_agents-first_name numbers previous defaults (agent ∷ agents) = refl

listed :
    (first_agent : String) (c : ChannelsConfig) (first : ChannelInstanceConfig)
    (rest : List ChannelInstanceConfig)
    → c.instances ≡ first ∷ rest
    → (normalize_channels first_agent c).instances
      ≡ map (normalize_instance first_agent) (first ∷ rest)
unfolding normalize_channels
listed first_agent c first rest h = rw h refl

load_config-instances :
    (env : Env) (numbers : Numbers) (file : Option Json) (first : ChannelInstanceConfig)
    (rest : List ChannelInstanceConfig)
    → (from_file numbers file).channels.instances ≡ first ∷ rest
    → (load_config env numbers file).channels.instances
      ≡ map
          (normalize_instance (named_first (from_file numbers file).agents.instances))
          (first ∷ rest)
unfolding load_config normalize_config apply_env
load_config-instances env numbers file first rest h =
    let config : Config = from_file numbers file in
    let changed : Config = apply_env env numbers config in
    listed (first_name (normalize_agents numbers config.agents.defaults changed.agents).instances)
      changed.channels first rest h
    ∙ ap (λ s. map (normalize_instance s) (first ∷ rest))
        (normalize_agents-first_name numbers config.agents.defaults changed.agents.defaults
          config.agents.instances)

-- If the file lists a channel instance, the environment changes nothing about the channel instances: a token,
-- an application id or a list of senders that only the environment has never reaches them.
pub load_config-listed :
    (env other : Env) (numbers : Numbers) (file : Option Json) (first : ChannelInstanceConfig)
    (rest : List ChannelInstanceConfig)
    → (from_file numbers file).channels.instances ≡ first ∷ rest
    → (load_config env numbers file).channels.instances
      ≡ (load_config other numbers file).channels.instances
load_config-listed env other numbers file first rest h =
    load_config-instances env numbers file first rest h
    ∙ sym (load_config-instances other numbers file first rest h)
