-- ===== src/Config/Environment/Channels.antt =====
-- The variables of the channels, in LoadConfig of src/config/config_loader.cpp.
use kabot.Base.{◌||◌}
use kabot.Config.Types.{TelegramConfig, LarkConfig, QqBotConfig}
use kabot.Config.Reading.{Numbers}
use kabot.Config.Environment.{Env, given, text_env, bool_env, int_env, csv_env}

unfoldable pub telegram_env : Env → TelegramConfig → TelegramConfig
unfolding text_env bool_env csv_env
telegram_env env target = record target {
  enabled =
      given (env "KABOT_TELEGRAM_TOKEN")
      || (bool_env (env "KABOT_TELEGRAM_ENABLED") target.enabled);
  token = text_env (env "KABOT_TELEGRAM_TOKEN") target.token;
  allow_from = csv_env (env "KABOT_TELEGRAM_ALLOW_FROM") target.allow_from;
}

unfoldable pub lark_env : Env → Numbers → LarkConfig → LarkConfig
unfolding text_env bool_env int_env csv_env
lark_env env numbers target = record target {
  enabled =
      given (env "KABOT_LARK_APP_SECRET")
      || (given (env "KABOT_LARK_APP_ID") || (bool_env (env "KABOT_LARK_ENABLED") target.enabled));
  app_id = text_env (env "KABOT_LARK_APP_ID") target.app_id;
  app_secret = text_env (env "KABOT_LARK_APP_SECRET") target.app_secret;
  domain = text_env (env "KABOT_LARK_DOMAIN") target.domain;
  timeout_ms = int_env numbers (env "KABOT_LARK_TIMEOUT_MS") target.timeout_ms;
  allow_from = csv_env (env "KABOT_LARK_ALLOW_FROM") target.allow_from;
}

unfoldable pub qqbot_env : Env → QqBotConfig → QqBotConfig
unfolding text_env bool_env csv_env
qqbot_env env target = record target {
  enabled =
      given (env "KABOT_QQBOT_TOKEN")
      || (given (env "KABOT_QQBOT_CLIENT_SECRET")
          || (given (env "KABOT_QQBOT_APP_ID")
              || (bool_env (env "KABOT_QQBOT_ENABLED") target.enabled)));
  app_id = text_env (env "KABOT_QQBOT_APP_ID") target.app_id;
  client_secret = text_env (env "KABOT_QQBOT_CLIENT_SECRET") target.client_secret;
  token = text_env (env "KABOT_QQBOT_TOKEN") target.token;
  sandbox = bool_env (env "KABOT_QQBOT_SANDBOX") target.sandbox;
  intents = text_env (env "KABOT_QQBOT_INTENTS") target.intents;
  skip_tls_verify = bool_env (env "KABOT_QQBOT_SKIP_TLS_VERIFY") target.skip_tls_verify;
  allow_from = csv_env (env "KABOT_QQBOT_ALLOW_FROM") target.allow_from;
}
