-- ===== src/Plugins/Tests.antt =====
-- Runs of the plugin registry, and the theorems at concrete inputs.
use mini_gateway.Prelude.{
  Bool, if◌then◌else◌, str_eq, sym, ap, subst, ◌∙◌, ◌≡◌, refl, true, false, none, some, String, [],
  ◌∷◌, ok, err, lookup, insert, emplace, invalid_argument,
}
use mini_gateway.Config.Example.{plant}
use mini_gateway.Plugins.{
  driver, processor, event_publisher, device_control_source, Factory, PluginRegistry,
  empty_registry, factories, dynamic_factory,
}
use mini_gateway.Plugins.Example.{Made, libraries, libraries-IsPathEquality, empty-IsWellFormed}
use mini_gateway.Plugins.Load.{load_dynamic_plugins, load}
use mini_gateway.Plugins.Keys.{source_key}
use mini_gateway.Plugins.Create.{PluginInstances, create}
use mini_gateway.Plugins.Create.Ready.{MadeFor, AllMake, load_dynamic_plugins-create}
use mini_gateway.Plugins.Valid.{IsWellFormed}
use mini_gateway.Plugins.Valid.Whole.{load_dynamic_plugins-IsWellFormed}
use mini_gateway.Plugins.Valid.Owners.{load_dynamic_plugins-one_library}

abbrev after : PluginRegistry Made
after = (load_dynamic_plugins libraries plant (empty_registry Made)).0

loads_plant : (load_dynamic_plugins libraries plant (empty_registry Made)).1 ≡ ok tt
unfolding load_dynamic_plugins lookup
loads_plant = refl

load_dynamic_plugins-IsWellFormed_example : IsWellFormed libraries after
load_dynamic_plugins-IsWellFormed_example =
    load_dynamic_plugins-IsWellFormed libraries plant (empty_registry Made) libraries-IsPathEquality
      empty-IsWellFormed

has_source : lookup (source_key driver "sim") after.dynamic_plugin_sources ≡ some "libsim.so"
unfolding load_dynamic_plugins lookup emplace insert
has_source = refl

load_dynamic_plugins-one_library_example : (driver ≡ driver) × (Path String "sim" "sim")
load_dynamic_plugins-one_library_example =
    load_dynamic_plugins-one_library libraries plant (empty_registry Made) driver driver "sim" "sim"
      "libsim.so" "libsim.so" libraries-IsPathEquality empty-IsWellFormed has_source has_source refl

-- The factory of the library's driver.
abbrev sim : Factory Made driver
sim = dynamic_factory (λ settings. ok (some settings)) "sim"

has_sim : after.driver_factories ≡ ("sim", sim) ∷ []
unfolding load_dynamic_plugins lookup insert
has_sim = refl

sim_makes :
    (b : Bool) (settings : String) {f : Factory Made driver}
    → (if b then some sim else none) ≡ some f
    → f settings ≡ ok (some settings)
unfolding dynamic_factory
sim_makes true settings {f} h =
    let same : sim ≡ f = cc in subst (λ g. g settings ≡ ok (some settings)) same refl
sim_makes false settings h = absurd cc

-- The only factory is that of the driver, which makes an instance.
all_make : AllMake after
unfolding load_dynamic_plugins lookup insert factories
all_make driver type settings f h =
    (settings, sim_makes (str_eq "sim" type) settings (sym (ap (lookup type) has_sim) ∙ h))
all_make processor type settings f h = absurd cc
all_make event_publisher type settings f h = absurd cc
all_make device_control_source type settings f h = absurd cc

load_dynamic_plugins-create_example :
    (made : PluginInstances Made) × (create after plant ≡ ok made) × MadeFor after plant made
load_dynamic_plugins-create_example =
    load_dynamic_plugins-create libraries plant (empty_registry Made) libraries-IsPathEquality
      empty-IsWellFormed loads_plant all_make

-- A library that serves a driver cannot serve a processor.
refuses_second_kind :
    (load libraries processor "sim" "libsim.so" after).1
    ≡ err (
        invalid_argument
          "plugin library libsim.so is already assigned to driver:sim and cannot be assigned to processor:sim")
unfolding load load_dynamic_plugins lookup emplace insert
refuses_second_kind = refl
