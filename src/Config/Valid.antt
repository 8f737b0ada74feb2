-- ===== src/Config/Valid.antt =====
-- ValidateConfig of src/config/config_loader.cpp: the errors of a configuration, in their order. The std::set
-- of the names seen is a list.
pub mod Named
pub mod Errors
pub mod Exact
use text.Mathlib.Text.{starts_with}
use kabot.Base.{
  Bool, true, false, not, ◌&&◌, ◌||◌, String, Option, none, some, List, [], ◌∷◌, ◌++◌, member,
  str_eq, empty, is_some, if◌then◌else◌,
}
use kabot.Base.Int.{ℤ, pos, leb_ℤ, ltb_ℤ}
use kabot.Bus.{◌<+>◌}
use kabot.Config.Types.{
  AgentInstanceConfig, RelayManagedAgentConfig, ChannelInstanceConfig, Config, find_agent,
}

abbrev pub error_if : Bool → String → List String
error_if true message = message ∷ []
error_if false message = []

-- A loop over named parts, with the names of those before.
unfoldable pub validate_each {ℓ} :
    {A : Type ℓ}
    → (A → String)
    → (List String → A → List String)
    → List String
    → List A
    → List String
validate_each name errors seen [] = []
validate_each name errors seen (x ∷ xs) =
    errors seen x ++ validate_each name errors (if empty (name x) then seen else name x ∷ seen) xs

unfoldable pub agent_errors : List String → AgentInstanceConfig → List String
agent_errors seen agent =
    if empty agent.name
    then "agent instance name must not be empty" ∷ []
    else error_if (member agent.name seen) ("duplicate agent name: " <+> agent.name)
      ++ error_if
          (not (str_eq agent.settings.tool_profile "full")
            && not (str_eq agent.settings.tool_profile "message_only"))
          ("agent instance " <+> agent.name <+> " has unsupported toolProfile: "
            <+> agent.settings.tool_profile)

unfoldable pub channel_errors : Config → List String → ChannelInstanceConfig → List String
channel_errors config seen channel =
    (if empty channel.name
      then "channel instance name must not be empty" ∷ []
      else error_if (member channel.name seen)
          ("duplicate channel instance name: " <+> channel.name))
    ++ error_if
        (not (str_eq channel.type "telegram")
          && not (str_eq channel.type "lark")
          && not (str_eq channel.type "qqbot")
          && not (str_eq channel.type "weixin"))
        ("unsupported channel type for instance " <+> channel.name <+> ": " <+> channel.type)
    ++ error_if (str_eq channel.type "qqbot" && empty channel.qqbot.app_id)
        ("qqbot channel instance " <+> channel.name <+> " is missing appId")
    ++ error_if
        (str_eq channel.type "qqbot"
          && empty channel.qqbot.client_secret
          && empty channel.qqbot.token)
        ("qqbot channel instance " <+> channel.name <+> " requires clientSecret or token")
    ++ error_if (str_eq channel.type "weixin" && empty channel.weixin.account_id)
        ("weixin channel instance " <+> channel.name <+> " is missing account_id")
    ++ (if empty channel.binding.agent
        then ("channel instance has no bound agent: " <+> channel.name) ∷ []
        else error_if (not (is_some (find_agent config channel.binding.agent))) (
            "channel instance " <+> channel.name <+> " references unknown agent: "
            <+> channel.binding.agent))

-- What names an agent with a name and what it names.
unfoldable pub identity_errors : Config → List String → RelayManagedAgentConfig → List String
identity_errors config seen a =
    let about = λ (problem : String). "relay managed agent " <+> a.name <+> problem in
    error_if (member a.name seen) ("duplicate relay managed agent name: " <+> a.name)
    ++ (if empty a.local_agent
        then about " has no bound local agent" ∷ []
        else error_if (not (is_some (find_agent config a.local_agent)))
            (about (" references unknown local agent: " <+> a.local_agent)))
    ++ error_if (empty a.agent_id) (about " is missing agentId")
    ++ error_if (empty a.token) (about " is missing token")
    ++ error_if (empty a.host) (about " is missing host")

-- How it connects.
unfoldable pub connection_errors : RelayManagedAgentConfig → List String
connection_errors a =
    let about = λ (problem : String). "relay managed agent " <+> a.name <+> problem in
    error_if (empty a.path || not (starts_with a.path "/")) (about " requires path starting with /")
    ++ error_if (leb_ℤ a.port (pos 0)) (about " has invalid port")
    ++ error_if (leb_ℤ a.heartbeat_interval_s (pos 0)) (about " has invalid heartbeatIntervalS")
    ++ error_if (leb_ℤ a.reconnect_initial_delay_ms (pos 0))
        (about " has invalid reconnectInitialDelayMs")
    ++ error_if (ltb_ℤ a.reconnect_max_delay_ms a.reconnect_initial_delay_ms)
        (about " has reconnectMaxDelayMs smaller than reconnectInitialDelayMs")
    ++ error_if (not (str_eq a.scheme "ws") && not (str_eq a.scheme "wss"))
        (about (" has unsupported scheme: " <+> a.scheme))

unfoldable pub relay_errors : Config → List String → RelayManagedAgentConfig → List String
unfolding identity_errors connection_errors
relay_errors config seen a =
    if empty a.name
    then "relay managed agent name must not be empty" ∷ []
    else identity_errors config seen a ++ connection_errors a

abbrev pub agent_name : AgentInstanceConfig → String
agent_name agent = agent.name

abbrev pub channel_name : ChannelInstanceConfig → String
channel_name channel = channel.name

abbrev pub managed_name : RelayManagedAgentConfig → String
managed_name agent = agent.name

unfoldable pub validate_config : Config → List String
unfolding validate_each agent_errors channel_errors relay_errors
validate_config config =
    validate_each agent_name agent_errors [] config.agents.instances
    ++ validate_each channel_name (channel_errors config) [] config.channels.instances
    ++ validate_each managed_name (relay_errors config) [] config.relay.managed_agents
