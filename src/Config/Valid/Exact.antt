-- ===== src/Config/Valid/Exact.antt =====
-- When ValidateConfig of src/config/config_loader.cpp reports nothing.
use kabot.Base.{String, List, [], ◌++◌, ◌≡◌, refl, ◌↔◌}
use kabot.Config.Types.{Config}
use kabot.Config.Valid.{
  validate_each, agent_errors, channel_errors, relay_errors, validate_config, agent_name,
  channel_name, managed_name,
}
use kabot.Config.Valid.Named.{
  AllNamed, append-none, Fresh-none, validate_each-AllNamed, AllNamed-validate_each,
}
use kabot.Config.Valid.Errors.{
  GoodAgent, GoodChannel, GoodManagedAgent, agent_errors-none, GoodAgent-agent_errors,
  channel_errors-none, GoodChannel-channel_errors, relay_errors-none, GoodManagedAgent-relay_errors,
}

-- A configuration that ValidateConfig passes, described part by part.
pub record IsValid (config : Config) : Type 0 where
  pub agents : AllNamed agent_name GoodAgent config.agents.instances
  pub channels : AllNamed channel_name (GoodChannel config) config.channels.instances
  pub managed : AllNamed managed_name (GoodManagedAgent config) config.relay.managed_agents

validate_config-none : (config : Config) → validate_config config ≡ [] → IsValid config
unfolding validate_config
validate_config-none config h =
    let agents : List String = validate_each agent_name agent_errors [] config.agents.instances in
    let channels : List String =
      validate_each channel_name (channel_errors config) [] config.channels.instances in
    let managed : List String =
      validate_each managed_name (relay_errors config) [] config.relay.managed_agents in
    let (r1, h3) = append-none (agents ++ channels) managed h in
    let (h1, h2) = append-none agents channels r1 in
    record {
      agents =
          (validate_each-AllNamed agent_name agent_errors GoodAgent agent_errors-none
            GoodAgent-agent_errors [] config.agents.instances h1).1;
      channels =
          (validate_each-AllNamed channel_name (channel_errors config) (GoodChannel config)
            (channel_errors-none config) (GoodChannel-channel_errors config) []
            config.channels.instances h2).1;
      managed =
          (validate_each-AllNamed managed_name (relay_errors config) (GoodManagedAgent config)
            (relay_errors-none config) (GoodManagedAgent-relay_errors config) []
            config.relay.managed_agents h3).1;
    }

pub validate_config-IsValid : (config : Config) → (validate_config config ≡ []) ↔ IsValid config
unfolding validate_config
validate_config-IsValid config = (validate_config-none config, back)
  where
    back : IsValid config → validate_config config ≡ []
    back valid =
        rw
          (
            AllNamed-validate_each agent_name agent_errors GoodAgent agent_errors-none
                GoodAgent-agent_errors [] config.agents.instances
                (Fresh-none agent_name config.agents.instances) valid.agents,
            AllNamed-validate_each channel_name (channel_errors config) (GoodChannel config)
                (channel_errors-none config) (GoodChannel-channel_errors config) []
                config.channels.instances (Fresh-none channel_name config.channels.instances)
                valid.channels,
            AllNamed-validate_each managed_name (relay_errors config) (GoodManagedAgent config)
                (relay_errors-none config) (GoodManagedAgent-relay_errors config) []
                config.relay.managed_agents (Fresh-none managed_name config.relay.managed_agents)
                valid.managed,
          )
          refl
