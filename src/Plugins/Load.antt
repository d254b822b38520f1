-- ===== src/Plugins/Load.antt =====
-- `load_dynamic_plugins` of src/core/plugin_registry.cpp. A call that throws leaves the registry as it
-- stands where the exception is thrown, so each step returns the registry with its result.
use mini_gateway.Prelude.{
  true, not, ◌||◌, String, concat, Option, none, some, List, [], ◌∷◌, ◌++◌, is_empty, if◌then◌else◌,
  Table, lookup, emplace, Error, Result, ok, err, ◌>>◌, throw_if, invalid_argument, runtime_error,
  logic_error, what, str_eq,
}
use mini_gateway.Model.{PluginSpec, DeviceConfig}
use mini_gateway.Config.{PluginConfig, ApplicationConfig}
use mini_gateway.Plugins.{
  PluginKind, driver, processor, event_publisher, device_control_source, category, Libraries,
  DynamicPluginLoader, PluginRegistry, has_factory, dynamic_factory, factories, register,
}
use mini_gateway.Plugins.Keys.{source_key}

abbrev pub Step : Type 0 → Type 0
Step Registry = Registry × Result (Unit {0})

-- A throw in a step ends it; else the rest goes on from the registry at that point.
abbrev pub attempt :
    {Registry A : Type 0} → Registry → Result A → (A → Step Registry) → Step Registry
attempt r (err e) rest = (r, err e)
attempt r (ok a) rest = rest a

-- The second step follows where the first returns.
abbrev pub next : {Registry : Type 0} → Step Registry → (Registry → Step Registry) → Step Registry
next (r, err e) rest = (r, err e)
next (r, ok done) rest = rest r

-- `error.what()`'s detail, when there is one
abbrev pub detail_text : Option String → String
detail_text none = ""
detail_text (some detail) = concat ": " detail

-- the messages about a type that has two libraries
unfoldable pub multiple_libraries : PluginKind → String → String
multiple_libraries driver type =
    concat "driver plugin type is configured with multiple libraries: " type
multiple_libraries processor type =
    concat "processor plugin type is configured with multiple libraries: " type
multiple_libraries event_publisher type =
    concat "event publisher type is configured with multiple libraries: " type
multiple_libraries device_control_source type =
    concat "device control source type is configured with multiple libraries: " type

unfoldable pub already_assigned : String → String → String → Error
already_assigned configured owner key = invalid_argument (
    concat "plugin library " (
      concat configured (
        concat " is already assigned to "
          (concat owner (concat " and cannot be assigned to " key)))))

unfoldable pub missing_symbol : String → String → String → Error
missing_symbol name type path = runtime_error (
    concat "plugin '"
      (concat type (concat "' in " (concat path (concat " does not export " name)))))

module _ {Instance : PluginKind → Type 0} (os : Libraries Instance) where
  unfoldable pub validate_library_filename : String → String → Result (Unit {0})
  validate_library_filename configured type = do
    throw_if (is_empty configured)
        (invalid_argument (concat "plugin '" (concat type "' must specify a library path")))
    throw_if (not (os.has_filename configured) || not (os.has_extension configured)) (
        invalid_argument (
          concat "plugin '" (
            concat type
              (concat "' library must be a complete filename with a suffix: " configured))))
    ok tt

  -- the constructor of `DynamicPluginLoader`
  unfoldable pub open_plugin : String → Result (DynamicPluginLoader Instance)
  open_plugin path = elim (os.dlopen path) [
    | none ↦
        err (
          runtime_error (concat "dlopen failed for " (concat path (detail_text (os.dlerror path)))))
    | some handle ↦ ok (record { path = path; handle = handle })
  ]

  -- the loop of `find_or_open`
  unfoldable pub find_loaded :
      List (DynamicPluginLoader Instance) → String → Option (DynamicPluginLoader Instance)
  find_loaded [] configured = none
  find_loaded (loaded ∷ rest) configured =
      if os.same loaded.path configured then some loaded else find_loaded rest configured

  -- the `try` block of `find_or_open` with its handler
  unfoldable pub open_for :
      String
      → String
      → PluginRegistry Instance
      → Result (PluginRegistry Instance × DynamicPluginLoader Instance)
  unfolding open_plugin
  open_for configured type r = elim (open_plugin configured) [
    | ok loaded ↦ ok (record r { dynamic_plugins = r.dynamic_plugins ++ (loaded ∷ []) }, loaded)
    | err error ↦
        err
          (runtime_error (concat "cannot load plugin '" (concat type (concat "': " (what error)))))
  ]

  unfoldable pub find_or_open :
      String
      → String
      → PluginRegistry Instance
      → Result (PluginRegistry Instance × DynamicPluginLoader Instance)
  unfolding validate_library_filename find_loaded open_for
  find_or_open configured type r = do
    validate_library_filename configured type
    elim (find_loaded r.dynamic_plugins configured) [
      | some loaded ↦ ok (r, loaded)
      | none ↦ open_for configured type r
    ]

  -- `dynamic_library_owners.find`
  unfoldable pub find_owner : String → Table String → Option String
  find_owner configured [] = none
  find_owner configured ((path, key) ∷ owners) =
      if os.same path configured then some key else find_owner configured owners

  unfoldable pub claim_library :
      String → String → PluginRegistry Instance → Result (PluginRegistry Instance)
  unfolding find_owner already_assigned
  claim_library configured key r = elim (find_owner configured r.dynamic_library_owners) [
    | none ↦
        ok (record r {
          dynamic_library_owners = r.dynamic_library_owners ++ ((configured, key) ∷ []);
        })
    | some owner ↦ do
      throw_if (not (str_eq owner key)) (already_assigned configured owner key)
      ok r
  ]

  -- `function_symbol` for both symbols of a library: what calls `create_plugin`
  unfoldable pub function_symbols :
      (k : PluginKind)
      → DynamicPluginLoader Instance
      → String
      → Result (String → Result (Option (Instance k)))
  unfolding missing_symbol
  function_symbols k library type = elim library.handle.create_plugin [
    | none ↦ err (missing_symbol "create_plugin" type library.path)
    | some create ↦
        if library.handle.destroy_plugin
        then ok (create k)
        else err (missing_symbol "destroy_plugin" type library.path)
  ]

  -- The part of a `load_…` call that opens the library and registers its factory.
  unfoldable pub add_plugin :
      PluginKind → String → String → PluginRegistry Instance → Step (PluginRegistry Instance)
  unfolding claim_library find_or_open function_symbols dynamic_factory register source_key
  add_plugin k type library r = attempt r (claim_library library (source_key k type) r) (λ claimed.
      attempt claimed (find_or_open library type claimed) (λ opened.
        attempt opened.0 (function_symbols k opened.1 type) (λ create.
          attempt opened.0 (register k type (some (dynamic_factory create type)) opened.0)
            (λ registered. (
              record registered {
                dynamic_plugin_sources =
                    emplace (source_key k type) library registered.dynamic_plugin_sources;
              },
              ok tt,
            )))))

  -- The four calls `load_driver`, `load_processor`, `load_publisher` and `load_control_source` differ
  -- in the kind only, and in that a driver has no `enabled`.
  unfoldable pub load :
      PluginKind → String → String → PluginRegistry Instance → Step (PluginRegistry Instance)
  unfolding add_plugin has_factory factories source_key category multiple_libraries
  load k type library r =
      if is_empty library
      then if not (has_factory (factories k r) type)
        then (
          r,
          err (
              invalid_argument (
                concat (category k) (
                  concat " plugin '" (concat type "' has no library path and is not registered")))),
        )
        else (r, ok tt)
      else elim (lookup (source_key k type) r.dynamic_plugin_sources) [
        | some previous ↦
            if not (os.same previous library)
            then (r, err (invalid_argument (multiple_libraries k type)))
            else (r, ok tt)
        | none ↦
            if has_factory (factories k r) type
            then (
              r,
              err (
                  invalid_argument
                    (concat "duplicate " (concat (category k) (concat " plugin type: " type)))),
            )
            else add_plugin k type library r
      ]

  unfoldable pub load_driver : PluginSpec → PluginRegistry Instance → Step (PluginRegistry Instance)
  unfolding load
  load_driver spec r = load driver spec.type spec.library r

  unfoldable pub load_plugin :
      PluginKind → PluginConfig → PluginRegistry Instance → Step (PluginRegistry Instance)
  unfolding load
  load_plugin k spec r = if not spec.enabled then (r, ok tt) else load k spec.type spec.library r

  unfoldable pub load_processor :
      PluginConfig → PluginRegistry Instance → Step (PluginRegistry Instance)
  unfolding load_plugin
  load_processor spec r = load_plugin processor spec r

  unfoldable pub load_publisher :
      PluginConfig → PluginRegistry Instance → Step (PluginRegistry Instance)
  unfolding load_plugin
  load_publisher spec r = load_plugin event_publisher spec r

  unfoldable pub load_control_source :
      PluginConfig → PluginRegistry Instance → Step (PluginRegistry Instance)
  unfolding load_plugin
  load_control_source spec r = load_plugin device_control_source spec r

  -- one of the four loops
  unfoldable pub load_each :
      {Spec : Type 0}
      → (Spec → PluginRegistry Instance → Step (PluginRegistry Instance))
      → List Spec
      → PluginRegistry Instance
      → Step (PluginRegistry Instance)
  load_each load_one [] r = (r, ok tt)
  load_each load_one (spec ∷ specs) r = next (load_one spec r) (load_each load_one specs)

  unfoldable pub load_dynamic_plugins :
      ApplicationConfig → PluginRegistry Instance → Step (PluginRegistry Instance)
  unfolding load_driver load_processor load_publisher load_control_source load_each
  load_dynamic_plugins config r =
      if r.dynamic_loading_called
      then (r, err (logic_error "dynamic plugins can only be loaded once per registry"))
      else next
          (load_each (λ (device : DeviceConfig). load_driver device.driver) config.gateway.devices
            (record r { dynamic_loading_called = true }))
          (λ r₁. next (load_each load_processor config.processors r₁) (λ r₂.
            next (load_each load_publisher config.event_publishers r₂)
              (load_each load_control_source config.device_control_sources)))
