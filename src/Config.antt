-- ===== src/Config.antt =====
-- The configuration: src/config/config_schema.hpp and src/config/config_loader.cpp. A file of settings is read into a
-- record, the environment overrides it, and NormalizeConfig fills what is missing.
pub mod Types
pub mod Defaults
pub mod Reading
pub mod Environment
pub mod Normal
pub mod Valid
pub mod Load
mod Examples
