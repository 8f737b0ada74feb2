-- ===== src/Config/Normal/Channels.antt =====
-- What NormalizeConfig of src/config/config_loader.cpp makes of the channel instances.
use kabot.Base.{
  Bool, true, false, not, ◌&&◌, ◌||◌, String, List, [], ◌∷◌, map, ◌≡◌, refl, ◌⊎◌, str_eq, eq_iff,
  empty, arith, All, All-map, if◌then◌else◌,
}
use kabot.Config.Types.{AgentDefaults, ChannelInstanceConfig, ChannelsConfig, Config}
use kabot.Config.Reading.{Numbers}
use kabot.Config.Normal.{
  legacy_instances, first_name, normalize_typed, normalize_instance, normalize_channels,
  normalize_agents, normalize_config,
}

-- The credentials that a type of channel needs.
abbrev pub HasCredentials : ChannelInstanceConfig → Type 0
HasCredentials i =
    ((i.type ≡ "telegram") × (empty i.telegram.token ≡ false))
    ⊎ ((i.type ≡ "lark") × (empty i.lark.app_id ≡ false) × (empty i.lark.app_secret ≡ false))
    ⊎ ((i.type ≡ "qqbot")
        × (empty i.qqbot.app_id ≡ false)
        × ((empty i.qqbot.client_secret ≡ false) ⊎ (empty i.qqbot.token ≡ false)))
    ⊎ ((i.type ≡ "weixin") × (empty i.weixin.account_id ≡ false))
    ⊎ ((str_eq i.type "telegram" ≡ false)
        × (str_eq i.type "lark" ≡ false)
        × (str_eq i.type "qqbot" ≡ false)
        × (str_eq i.type "weixin" ≡ false))

abbrev pub IsUsable : ChannelInstanceConfig → Type 0
IsUsable i = (i.enabled ≡ false) ⊎ HasCredentials i

normalize_instance-IsUsable :
    (first_agent : String) (i : ChannelInstanceConfig) → IsUsable (normalize_instance first_agent i)
unfolding normalize_instance normalize_typed
normalize_instance-IsUsable first_agent i = ground (
  arith,
  eq_iff i.type "telegram",
  eq_iff i.type "lark",
  eq_iff i.type "qqbot",
  eq_iff i.type "weixin",
)

-- After NormalizeConfig a channel instance is enabled only with the credentials that its type needs, or with
-- an unknown type.
pub normalize_config-IsUsable :
    (numbers : Numbers) (config : Config) (previous : AgentDefaults)
    → All IsUsable (normalize_config numbers config previous).channels.instances
unfolding normalize_config normalize_channels
normalize_config-IsUsable numbers config previous = All-map IsUsable _ _ (
    normalize_instance-IsUsable
      (first_name (normalize_agents numbers previous config.agents).instances))

-- What an instance needs to be enabled, by its type.
abbrev pub has_credentials : ChannelInstanceConfig → Bool
has_credentials i =
    if str_eq i.type "telegram"
    then not (empty i.telegram.token)
    else if str_eq i.type "lark"
    then not (empty i.lark.app_id) && not (empty i.lark.app_secret)
    else if str_eq i.type "qqbot"
    then not (empty i.qqbot.app_id)
      && (not (empty i.qqbot.client_secret) || not (empty i.qqbot.token))
    else if str_eq i.type "weixin"
    then not (empty i.weixin.account_id)
    else true

-- The instances that the settings list or, where they list none, those of the channels that are enabled.
abbrev pub given_instances : ChannelsConfig → List ChannelInstanceConfig
given_instances c = elim c.instances [ [] ↦ legacy_instances c | i ∷ rest ↦ i ∷ rest ]

normalize_instance-enabled :
    (first_agent : String) (i : ChannelInstanceConfig)
    → (normalize_instance first_agent i).enabled ≡ i.enabled && has_credentials i
unfolding normalize_instance normalize_typed
normalize_instance-enabled first_agent i = ground arith

normalize_instance-type :
    (first_agent : String) (i : ChannelInstanceConfig)
    → (normalize_instance first_agent i).type ≡ i.type
unfolding normalize_instance normalize_typed
normalize_instance-type first_agent i = ground arith

abbrev pub type_and_enabled : ChannelInstanceConfig → String × Bool
type_and_enabled i = (i.type, i.enabled)

map-normalize_instance :
    (first_agent : String) (instances : List ChannelInstanceConfig)
    → map type_and_enabled (map (normalize_instance first_agent) instances)
      ≡ map (λ i. (i.type, i.enabled && has_credentials i)) instances
map-normalize_instance first_agent [] = refl
map-normalize_instance first_agent (i ∷ instances) =
    rw
      (
        normalize_instance-type first_agent i,
        normalize_instance-enabled first_agent i,
        map-normalize_instance first_agent instances,
      )
      refl

-- NormalizeConfig keeps the types of the channel instances in their order, and each instance is enabled afterwards exactly
-- if it was before and has the credentials that its type needs.
pub normalize_config-enabled :
    (numbers : Numbers) (config : Config) (previous : AgentDefaults)
    → map type_and_enabled (normalize_config numbers config previous).channels.instances
      ≡ map (λ i. (i.type, i.enabled && has_credentials i)) (given_instances config.channels)
unfolding normalize_config normalize_channels
normalize_config-enabled numbers config previous =
    map-normalize_instance (first_name (normalize_agents numbers previous config.agents).instances)
      (given_instances config.channels)
