-- ===== src/Config/Environment/Providers.antt =====
-- The variables of the model providers, in LoadConfig of src/config/config_loader.cpp.
use kabot.Config.Types.{ProvidersConfig}
use kabot.Config.Environment.{Env, get_env_fallback, text_env, bool_env}

unfoldable pub providers_env : Env → ProvidersConfig → ProvidersConfig
unfolding text_env bool_env get_env_fallback
providers_env env target = record {
  anthropic = record {
    api_key =
        text_env
          (get_env_fallback env "KABOT_PROVIDERS__ANTHROPIC__API_KEY"
            "KABOT_PROVIDERS_ANTHROPIC_API_KEY")
          target.anthropic.api_key;
    api_base = target.anthropic.api_base;
  };
  openai = record {
    api_key =
        text_env
          (get_env_fallback env "KABOT_PROVIDERS__OPENAI__API_KEY" "KABOT_PROVIDERS_OPENAI_API_KEY")
          target.openai.api_key;
    api_base = target.openai.api_base;
  };
  openrouter = record {
    api_key =
        text_env
          (get_env_fallback env "KABOT_PROVIDERS__OPENROUTER__API_KEY"
            "KABOT_PROVIDERS_OPENROUTER_API_KEY")
          target.openrouter.api_key;
    api_base =
        text_env
          (get_env_fallback env "KABOT_PROVIDERS__OPENROUTER__API_BASE"
            "KABOT_PROVIDERS_OPENROUTER_API_BASE")
          target.openrouter.api_base;
  };
  moonshot = record {
    api_key =
        text_env
          (get_env_fallback env "KABOT_PROVIDERS__MOONSHOT__API_KEY"
            "KABOT_PROVIDERS_MOONSHOT_API_KEY")
          target.moonshot.api_key;
    api_base =
        text_env
          (get_env_fallback env "KABOT_PROVIDERS__MOONSHOT__API_BASE"
            "KABOT_PROVIDERS_MOONSHOT_API_BASE")
          target.moonshot.api_base;
  };
  zhipu = record {
    api_key =
        text_env
          (get_env_fallback env "KABOT_PROVIDERS__ZHIPU__API_KEY" "KABOT_PROVIDERS_ZHIPU_API_KEY")
          target.zhipu.api_key;
    api_base =
        text_env
          (get_env_fallback env "KABOT_PROVIDERS__ZHIPU__API_BASE" "KABOT_PROVIDERS_ZHIPU_API_BASE")
          target.zhipu.api_base;
  };
  vllm = record {
    api_key =
        text_env
          (get_env_fallback env "KABOT_PROVIDERS__VLLM__API_KEY" "KABOT_PROVIDERS_VLLM_API_KEY")
          target.vllm.api_key;
    api_base =
        text_env
          (get_env_fallback env "KABOT_PROVIDERS__VLLM__API_BASE" "KABOT_PROVIDERS_VLLM_API_BASE")
          target.vllm.api_base;
  };
  gemini = record {
    api_key =
        text_env
          (get_env_fallback env "KABOT_PROVIDERS__GEMINI__API_KEY" "KABOT_PROVIDERS_GEMINI_API_KEY")
          target.gemini.api_key;
    api_base = target.gemini.api_base;
  };
  use_proxy_for_llm =
      bool_env
        (get_env_fallback env "KABOT_PROVIDERS__USE_PROXY_FOR_LLM"
          "KABOT_PROVIDERS_USE_PROXY_FOR_LLM")
        target.use_proxy_for_llm;
  user_agent =
      text_env (get_env_fallback env "KABOT_PROVIDERS__USER_AGENT" "KABOT_PROVIDERS_USER_AGENT")
        target.user_agent;
}
