-- ===== src/Startup/Tests.antt =====
-- The start of the plant, and the theorem at it.
use mini_gateway.Prelude.{inl, ◌≡◌, refl, [], ◌∷◌, ok, lookup, insert}
use mini_gateway.Model.Whole.{whole}
use mini_gateway.Control.{stopping}
use mini_gateway.Processing.{ControlSink}
use mini_gateway.Config.Parse.{contents}
use mini_gateway.Config.Example.{values, plant, reads_plant}
use mini_gateway.Plugins.{processor, PluginRegistry, empty_registry}
use mini_gateway.Plugins.Example.{Made, libraries}
use mini_gateway.Plugins.Load.{load_dynamic_plugins}
use mini_gateway.Plugins.Create.{PluginInstances, create}
use mini_gateway.Runtime.{poll}
use mini_gateway.Startup.{PluginCalls, GatewayRuntime, assemble, driver_instance}
use mini_gateway.Startup.Returns.{IsWilling, assemble_returns}

abbrev calls : PluginCalls Made
calls = record {
  configure_driver = λ made device. ok tt;
  capabilities = λ made. ok poll;
  configure_publisher = λ made config. ok tt;
  configure_source = λ made. ok tt;
}

-- A sink that refuses.
abbrev sink : ControlSink (Unit {0})
sink request w = (stopping, w)

abbrev registry : PluginRegistry Made
registry = (load_dynamic_plugins libraries plant (empty_registry Made)).0

abbrev made : PluginInstances Made
made = record {
  drivers = ("tank", "{}") ∷ [];
  processors = [];
  event_publishers = [];
  sources = [];
}

loads_plant : load_dynamic_plugins libraries plant (empty_registry Made) ≡ (registry, ok tt)
unfolding load_dynamic_plugins lookup
loads_plant = refl

makes_plant : create registry plant ≡ ok made
unfolding create load_dynamic_plugins lookup insert
makes_plant = refl

is_willing : IsWilling whole calls sink plant made
unfolding driver_instance
is_willing = record {
  drivers =
      (record { has_driver = refl; configure = λ d. refl; mode = poll; capabilities = refl }, tt);
  publishers = tt;
  sources = tt;
  groups = (inl (refl, refl), tt);
}

assemble_returns_example :
    (runtime : GatewayRuntime (Made processor) (Unit {0})) × (assemble whole calls sink values
        libraries
        (contents "plant")
        "plant.json"
      ≡ ok runtime)
assemble_returns_example =
    assemble_returns whole calls sink values libraries "plant" "plant.json" reads_plant loads_plant
      makes_plant is_willing
