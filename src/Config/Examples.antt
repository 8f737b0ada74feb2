-- ===== src/Config/Examples.antt =====
-- A configuration of src/config/config_loader.cpp with one Telegram instance, which has no token of its own,
-- and one managed agent.
use kabot.Base.{
  ◌&&◌, true, false, none, some, [], ◌∷◌, ◌≡◌, refl, All, is_some, map, str_eq, if◌then◌else◌,
}
use kabot.Base.Json.{Json, text, array, object, one_more, none_left, a_member, no_member}
use kabot.Bus.{InboundMessage}
use kabot.Agents.Registry
use kabot.Agents.Registry.{resolve_agent_name}
use kabot.Config.Types.{ChannelInstanceConfig, RelayManagedAgentConfig}
use kabot.Config.Defaults.{new_config, new_channel_instance}
use kabot.Config.Reading.{Numbers}
use kabot.Config.Environment.{Env, split_csv, parse_bool}
use kabot.Config.Normal.{normalize_config}
use kabot.Config.Normal.Relay.{IsConnectable, normalize_config-IsConnectable}
use kabot.Config.Normal.Channels.{
  type_and_enabled, has_credentials, given_instances, normalize_config-enabled,
}
use kabot.Config.Load.{from_file, load_config}
use kabot.Config.Load.Listed.{load_config-listed}
use kabot.Config.Load.Routes.{routing, load_config-resolve_agent_name}
use kabot.Config.Valid.{validate_config}

abbrev numbers : Numbers
numbers = record {
  json_int = λ s. none;
  json_double = λ s. 0;
  stoi = λ s. none;
  stod = λ s. none;
  same_double = λ a b. true;
}

abbrev bot : Json
bot = object (a_member "type" (text "telegram") (a_member "name" (text "bot") no_member))

abbrev worker : Json
worker = object (a_member "name" (text "worker") (a_member "path" (text "ws") no_member))

abbrev file : Json
file = object (
    a_member "channels" (object (a_member "instances" (array (one_more bot none_left)) no_member)) (
      a_member "relay"
        (object (a_member "managedAgents" (array (one_more worker none_left)) no_member))
        no_member))

abbrev unset : Env
unset name = ""

abbrev with_token : Env
with_token name = if str_eq name "KABOT_TELEGRAM_TOKEN" then "123" else ""

abbrev msg : InboundMessage
msg = record {
  channel = "telegram";
  channel_instance = "bot";
  agent_name = "";
  sender_id = "7";
  chat_id = "7";
  content = "hello";
  media = [];
  metadata = [];
  timestamp = 0;
}

items : split_csv "a,,b" ≡ "a" ∷ "b" ∷ []
unfolding split_csv
items = refl

switched_on : parse_bool "Yes" ≡ true
unfolding parse_bool
switched_on = refl

-- The token of the environment does not enable the instance.
still_disabled :
    map
      (λ (i : ChannelInstanceConfig). i.enabled)
      (load_config with_token numbers (some file)).channels.instances
    ≡ false ∷ []
unfolding load_config
still_disabled = refl

connected :
    map
      (λ (a : RelayManagedAgentConfig). a.path)
      (load_config unset numbers (some file)).relay.managed_agents
    ≡ "/ws" ∷ []
unfolding load_config
connected = refl

no_errors : validate_config (load_config unset numbers none) ≡ []
unfolding validate_config load_config
no_errors = refl

normalize_config-IsConnectable_example :
    All IsConnectable
      (normalize_config numbers
        (from_file numbers (some file))
        new_config.agents.defaults).relay.managed_agents
normalize_config-IsConnectable_example =
    normalize_config-IsConnectable numbers (from_file numbers (some file))
      new_config.agents.defaults

normalize_config-enabled_example :
    map type_and_enabled
      (normalize_config numbers
        (from_file numbers (some file))
        new_config.agents.defaults).channels.instances
    ≡ map
        (λ i. (i.type, i.enabled && has_credentials i))
        (given_instances (from_file numbers (some file)).channels)
normalize_config-enabled_example =
    normalize_config-enabled numbers (from_file numbers (some file)) new_config.agents.defaults

load_config-listed_example :
    (load_config with_token numbers (some file)).channels.instances
    ≡ (load_config unset numbers (some file)).channels.instances
unfolding kabot.Config.Reading.File.apply_config_from_json
load_config-listed_example =
    load_config-listed with_token unset numbers (some file)
      (record new_channel_instance {
        name = "bot";
        type = "telegram";
        telegram = record new_channel_instance.telegram { name = "bot" };
      })
      [] refl

load_config-resolve_agent_name_example :
    is_some (
      Registry.find_agent
        (routing (load_config unset numbers (some file)))
        (resolve_agent_name (routing (load_config unset numbers (some file))) msg))
    ≡ true
load_config-resolve_agent_name_example =
    load_config-resolve_agent_name unset numbers (some file) msg
