-- ===== src/Plugins.antt =====
-- include/gateway/plugin_registry.hpp and the registering half of src/core/plugin_registry.cpp: the
-- registry of plugin factories. What `std::filesystem` and the platform's loader do is a parameter.
pub mod Keys
pub mod Load
pub mod Create
pub mod Valid
pub mod Example
mod Tests
use mini_gateway.Prelude.{
  ◌≡◌, refl, Bool, true, false, not, String, concat, Option, none, some, List, [], ◌∷◌, str_eq,
  is_empty, is_some, if◌then◌else◌, Table, lookup, insert, Result, ok, err, ◌>>=◌, ◌>>◌, throw_if,
  invalid_argument, runtime_error, foreign, what,
}

pub data PluginKind : Type 0 where
  driver processor event_publisher device_control_source : PluginKind

-- the `category` in the messages
unfoldable pub category : PluginKind → String
category driver = "driver"
category processor = "processor"
category event_publisher = "event publisher"
category device_control_source = "device control source"

-- A loaded module, by what looking up the two symbols in it finds; the code that `create_plugin`
-- points at can be called as a factory of any interface.
pub record Exports (Instance : PluginKind → Type 0) : Type 0 where
  pub create_plugin : Option ((k : PluginKind) → String → Result (Option (Instance k)))
  pub destroy_plugin : Bool

pub record Libraries (Instance : PluginKind → Type 0) : Type 0 where
  -- `==` of paths, `has_filename` and `has_extension`
  pub same : String → String → Bool
  pub has_filename : String → Bool
  pub has_extension : String → Bool
  -- `dlopen` and `dlerror`
  pub dlopen : String → Option (Exports Instance)
  pub dlerror : String → Option String

module _ (Instance : PluginKind → Type 0) where
  -- `nullptr` is `none`.
  abbrev pub Factory : PluginKind → Type 0
  Factory k = String → Result (Option (Instance k))

  pub record DynamicPluginLoader : Type 0 where
    pub path : String
    pub handle : Exports Instance

  -- `dynamic_library_owners` is keyed by path.
  pub record PluginRegistry : Type 0 where
    pub driver_factories : Table (Factory driver)
    pub processor_factories : Table (Factory processor)
    pub event_publisher_factories : Table (Factory event_publisher)
    pub device_control_source_factories : Table (Factory device_control_source)
    pub dynamic_plugins : List DynamicPluginLoader
    pub dynamic_plugin_sources : Table String
    pub dynamic_library_owners : Table String
    pub dynamic_loading_called : Bool

  abbrev pub empty_registry : PluginRegistry
  empty_registry = record {
    driver_factories = [];
    processor_factories = [];
    event_publisher_factories = [];
    device_control_source_factories = [];
    dynamic_plugins = [];
    dynamic_plugin_sources = [];
    dynamic_library_owners = [];
    dynamic_loading_called = false;
  }

-- An empty `std::function` is `none`.
unfoldable pub register_factory :
    {F : Type 0} → Table F → String → Option F → String → Result (Table F)
register_factory factories type none category =
    err (invalid_argument (concat category " plugin type and factory are required"))
register_factory factories type (some factory) category = do
  throw_if (is_empty type)
      (invalid_argument (concat category " plugin type and factory are required"))
  throw_if (is_some (lookup type factories))
      (invalid_argument (concat "duplicate " (concat category (concat " plugin type: " type))))
  ok (insert type factory factories)

unfoldable pub find_factory : {F : Type 0} → Table F → String → String → Result F
find_factory factories type category = elim (lookup type factories) [
  | none ↦
      err (invalid_argument (concat "unknown " (concat category (concat " plugin type: " type))))
  | some factory ↦ ok factory
]

unfoldable pub has_factory : {F : Type 0} → Table F → String → Bool
has_factory factories type = is_some (lookup type factories)

-- The factory of a library's plugins: `create_plugin`, called in the library.
unfoldable pub dynamic_factory :
    {Interface : Type 0}
    → (String → Result (Option Interface))
    → String
    → String
    → Result (Option Interface)
dynamic_factory create type settings = elim (create settings) [
  | ok (some raw) ↦ ok (some raw)
  | ok none ↦
      err (runtime_error (concat "create_plugin returned null for plugin '" (concat type "'")))
  | err foreign ↦ err (runtime_error (concat "create_plugin failed for plugin '" (concat type "'")))
  | err error ↦ err (
      runtime_error (concat "create_plugin failed for '" (concat type (concat "': " (what error)))))
]

module _ {Instance : PluginKind → Type 0} where
  unfoldable pub register_driver :
      String
      → Option (Factory Instance driver)
      → PluginRegistry Instance
      → Result (PluginRegistry Instance)
  unfolding register_factory category
  register_driver type factory r = do
    table ← register_factory r.driver_factories type factory (category driver)
    ok (record r { driver_factories = table })

  unfoldable pub register_processor :
      String
      → Option (Factory Instance processor)
      → PluginRegistry Instance
      → Result (PluginRegistry Instance)
  unfolding register_factory category
  register_processor type factory r = do
    table ← register_factory r.processor_factories type factory (category processor)
    ok (record r { processor_factories = table })

  unfoldable pub register_event_publisher :
      String
      → Option (Factory Instance event_publisher)
      → PluginRegistry Instance
      → Result (PluginRegistry Instance)
  unfolding register_factory category
  register_event_publisher type factory r = do
    table ← register_factory r.event_publisher_factories type factory (category event_publisher)
    ok (record r { event_publisher_factories = table })

  unfoldable pub register_device_control_source :
      String
      → Option (Factory Instance device_control_source)
      → PluginRegistry Instance
      → Result (PluginRegistry Instance)
  unfolding register_factory category
  register_device_control_source type factory r = do
    table ←
        register_factory r.device_control_source_factories type factory
          (category device_control_source)
    ok (record r { device_control_source_factories = table })

  -- The table of a kind, and the call that registers a factory of it.
  unfoldable pub factories : (k : PluginKind) → PluginRegistry Instance → Table (Factory Instance k)
  factories driver r = r.driver_factories
  factories processor r = r.processor_factories
  factories event_publisher r = r.event_publisher_factories
  factories device_control_source r = r.device_control_source_factories

  unfoldable pub register :
      (k : PluginKind)
      → String
      → Option (Factory Instance k)
      → PluginRegistry Instance
      → Result (PluginRegistry Instance)
  unfolding register_driver register_processor register_event_publisher
      register_device_control_source
  register driver = register_driver
  register processor = register_processor
  register event_publisher = register_event_publisher
  register device_control_source = register_device_control_source
