-- ===== src/Config/Load.antt =====
-- LoadConfig of src/config/config_loader.cpp. The file is `none` where it does not exist or does not parse;
-- reading what it holds never throws, since each member is tested for its type first.
pub mod Listed
pub mod Routes
use kabot.Base.{Option, none, some}
use kabot.Base.Json.{Json}
use kabot.Config.Types.{Config}
use kabot.Config.Defaults.{new_config}
use kabot.Config.Reading.{Numbers}
use kabot.Config.Reading.File.{apply_config_from_json}
use kabot.Config.Environment.{Env}
use kabot.Config.Environment.Parts.{apply_env}
use kabot.Config.Normal.{normalize_config}

abbrev pub from_file : Numbers → Option Json → Config
from_file numbers none = new_config
from_file numbers (some source) = apply_config_from_json numbers new_config source

unfoldable pub load_config : Env → Numbers → Option Json → Config
unfolding apply_config_from_json apply_env normalize_config
load_config env numbers file =
    let config : Config = from_file numbers file in
    normalize_config numbers (apply_env env numbers config) config.agents.defaults
