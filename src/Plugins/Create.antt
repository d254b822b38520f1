-- ===== src/Plugins/Create.antt =====
-- `PluginRegistry::create` of src/core/plugin_registry.cpp: the instances of a configuration's plugins.
pub mod Ready
use mini_gateway.Prelude.{
  String, concat, Option, none, some, List, [], ◌∷◌, if◌then◌else◌, Table, Result, ok, err, ◌>>=◌,
  runtime_error, not, map,
}
use mini_gateway.Model.{DeviceConfig}
use mini_gateway.Config.{PluginConfig, ApplicationConfig}
use mini_gateway.Plugins.{
  PluginKind, driver, processor, event_publisher, device_control_source, category, Factory,
  PluginRegistry, find_factory, factories,
}

-- `DriverInstance` and `EventPublisherInstance` are pairs of an id and an instance.
pub record PluginInstances (Instance : PluginKind → Type 0) : Type 0 where
  pub drivers : List (String × Instance driver)
  pub processors : List (Instance processor)
  pub event_publishers : List (String × Instance event_publisher)
  pub sources : List (Instance device_control_source)

-- the check of what a factory returned
unfoldable pub not_null : {I : Type 0} → Option I → String → String → Result I
not_null none category type =
    err (runtime_error (concat category (concat " plugin factory returned null: " type)))
not_null (some instance_) category type = ok instance_

module _ {Instance : PluginKind → Type 0} (r : PluginRegistry Instance) where
  -- the part that the four loops share: the factory is found and called
  unfoldable pub make : (k : PluginKind) → String → String → Result (Instance k)
  unfolding find_factory factories category not_null
  make k type settings_json = do
    factory ← find_factory (factories k r) type (category k)
    made ← factory settings_json
    not_null made (category k) type

  -- the loop over the devices
  unfoldable pub create_drivers : List DeviceConfig → Result (List (String × Instance driver))
  unfolding make
  create_drivers [] = ok []
  create_drivers (device ∷ devices) = do
    made ← make driver device.driver.type device.driver.settings_json
    rest ← create_drivers devices
    ok ((device.id, made) ∷ rest)

  -- the loops over plugins
  unfoldable pub create_plugins :
      (k : PluginKind) → List PluginConfig → Result (List (String × Instance k))
  unfolding make
  create_plugins k [] = ok []
  create_plugins k (spec ∷ specs) =
      let rest = create_plugins k specs in
      if not spec.enabled then rest else do
        made ← make k spec.type spec.settings_json
        others ← rest
        ok ((spec.id, made) ∷ others)

  unfoldable pub create : ApplicationConfig → Result (PluginInstances Instance)
  unfolding create_drivers create_plugins
  create config = do
    drivers ← create_drivers config.gateway.devices
    processors ← create_plugins processor config.processors
    event_publishers ← create_plugins event_publisher config.event_publishers
    sources ← create_plugins device_control_source config.device_control_sources
    ok (record {
      drivers = drivers;
      processors = map (λ p. p.1) processors;
      event_publishers = event_publishers;
      sources = map (λ p. p.1) sources;
    })
