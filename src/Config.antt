-- ===== src/Config.antt =====
-- include/gateway/config.hpp and src/core/config.cpp: the configuration of the application, read from
-- a JSON value. Paths of libraries are kept as their text, as the source keeps them verbatim.
pub mod Json
pub mod Fields
pub mod Parse
pub mod Valid
pub mod Example
mod Tests
use mini_gateway.Prelude.{ℕ, Bool, String, Option, List}
use mini_gateway.Model.{GatewayConfig}

pub record PluginConfig : Type 0 where
  pub id : String
  pub type : String
  pub enabled : Bool
  pub settings_json : String
  pub library : String

pub record ApplicationConfig : Type 0 where
  pub run_duration : Option ℕ
  pub gateway : GatewayConfig
  pub processors : List PluginConfig
  pub event_publishers : List PluginConfig
  pub device_control_sources : List PluginConfig
