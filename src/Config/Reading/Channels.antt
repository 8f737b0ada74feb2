-- ===== src/Config/Reading/Channels.antt =====
-- The readers of the channels in src/config/config_loader.cpp.
use kabot.Base.{none, some, [], str_eq, if◌then◌else◌}
use kabot.Base.Json.{Json, is_object}
use kabot.Config.Defaults.{new_channel_instance}
use kabot.Config.Types.{
  TelegramConfig, LarkConfig, QqBotConfig, WeixinConfig, ChannelsConfig, ChannelInstanceConfig,
}
use kabot.Config.Reading.{Numbers, text_or, boolean_or, integer_at, integer_or, texts_or, part_or}
use kabot.Config.Reading.Parts.{apply_binding_config}

unfoldable pub apply_telegram_config : TelegramConfig → Json → TelegramConfig
unfolding text_or boolean_or texts_or apply_binding_config
apply_telegram_config target source =
    if is_object source
    then record {
      name = text_or "name" source target.name;
      enabled = boolean_or "enabled" source target.enabled;
      token = text_or "token" source target.token;
      allow_from = texts_or "allowFrom" source target.allow_from;
      binding = part_or apply_binding_config "binding" source target.binding;
    }
    else target

unfoldable pub apply_lark_config : Numbers → LarkConfig → Json → LarkConfig
unfolding text_or boolean_or integer_or texts_or apply_binding_config
apply_lark_config numbers target source =
    if is_object source
    then record {
      name = text_or "name" source target.name;
      enabled = boolean_or "enabled" source target.enabled;
      app_id = text_or "appId" source target.app_id;
      app_secret = text_or "appSecret" source target.app_secret;
      domain = text_or "domain" source target.domain;
      timeout_ms = integer_or numbers "timeoutMs" source target.timeout_ms;
      allow_from = texts_or "allowFrom" source target.allow_from;
      binding = part_or apply_binding_config "binding" source target.binding;
    }
    else target

unfoldable pub apply_qqbot_config : QqBotConfig → Json → QqBotConfig
unfolding text_or boolean_or texts_or apply_binding_config
apply_qqbot_config target source =
    if is_object source
    then record {
      name = text_or "name" source target.name;
      enabled = boolean_or "enabled" source target.enabled;
      app_id = text_or "appId" source target.app_id;
      client_secret = text_or "clientSecret" source target.client_secret;
      token = text_or "token" source target.token;
      sandbox = boolean_or "sandbox" source target.sandbox;
      intents = text_or "intents" source target.intents;
      skip_tls_verify = boolean_or "skipTlsVerify" source target.skip_tls_verify;
      allow_from = texts_or "allowFrom" source target.allow_from;
      binding = part_or apply_binding_config "binding" source target.binding;
    }
    else target

unfoldable pub apply_weixin_config : Numbers → WeixinConfig → Json → WeixinConfig
unfolding text_or boolean_or integer_at texts_or apply_binding_config
apply_weixin_config numbers target source =
    if is_object source
    then record {
      name = text_or "name" source target.name;
      enabled = boolean_or "enabled" source target.enabled;
      account_id = text_or "accountId" source target.account_id;
      base_url = text_or "baseUrl" source target.base_url;
      cdn_base_url = text_or "cdnBaseUrl" source target.cdn_base_url;
      route_tag = elim (integer_at numbers "routeTag" source) [
        | none ↦ target.route_tag
        | some n ↦ some n
      ];
      app_id = text_or "appId" source target.app_id;
      app_version = text_or "appVersion" source target.app_version;
      allow_from = texts_or "allowFrom" source target.allow_from;
      binding = part_or apply_binding_config "binding" source target.binding;
    }
    else target

-- An element of `channels.instances`: the settings of its type start from those of the channel.
unfoldable pub read_channel_instance : Numbers → ChannelsConfig → Json → ChannelInstanceConfig
unfolding text_or boolean_or texts_or apply_binding_config apply_telegram_config apply_lark_config
    apply_qqbot_config apply_weixin_config
read_channel_instance numbers channels item =
    let instance : ChannelInstanceConfig = record new_channel_instance {
      name = text_or "name" item "";
      type = text_or "type" item "";
      enabled = boolean_or "enabled" item new_channel_instance.enabled;
      allow_from = texts_or "allowFrom" item [];
      binding = part_or apply_binding_config "binding" item new_channel_instance.binding;
    } in
    if str_eq instance.type "telegram"
    then record instance { telegram = apply_telegram_config channels.telegram item }
    else if str_eq instance.type "lark"
    then record instance { lark = apply_lark_config numbers channels.lark item }
    else if str_eq instance.type "qqbot"
    then record instance { qqbot = apply_qqbot_config channels.qqbot item }
    else if str_eq instance.type "weixin"
    then record instance { weixin = apply_weixin_config numbers channels.weixin item }
    else instance
