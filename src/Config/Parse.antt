-- ===== src/Config/Parse.antt =====
-- The readers of points, devices, groups and plugins in src/core/config.cpp, and `parse_config`.
use mini_gateway.Prelude.{
  ℕ, suc, Bool, true, false, not, ◌&&◌, String, concat, Option, none, some, List, [], ◌∷◌, is_empty,
  is_some, if◌then◌else◌, Table, member, lookup, insert, runtime_error, Result, ok, err, ◌>>=◌,
  ◌>>◌, throw_if, what,
}
use mini_gateway.Model.{PointConfig, DeviceConfig, CollectionGroup}
use mini_gateway.Model.Std.{Platform}
use mini_gateway.Normalizer.{reversed_range}
use mini_gateway.Config.{PluginConfig, ApplicationConfig}
use mini_gateway.Config.Json.{JsonLibrary, parsed, malformed}
use mini_gateway.Config.Fields.{
  config_error, field_path, item_path, json_member, object_member, array_member, string_member,
  optional_path_member, optional_enabled, size_member, milliseconds_member, finite_number_member,
  optional_number_member, string_map, string_array, no_elements, value_type,
}

-- `config.gateway.control_queue_capacity` where the configuration gives none
abbrev pub default_control_queue_capacity : ℕ
default_control_queue_capacity = 64

-- What reading a file gives.
pub data FileRead : Type 0 where
  not_open bad : FileRead
  contents : String → FileRead

module _ {Json : Type 0} (std : Platform) (json : JsonLibrary Json) where
  unfoldable pub parse_point : Json → String → Result PointConfig
  parse_point value path = do
    throw_if (not (json.is_object value)) (config_error path "must be an object")
    name ← string_member std json value "name" path false
    type_value ← json_member std json value "type" path
    type ← value_type std json type_value (field_path path "type")
    unit ← string_member std json value "unit" path true
    address_value ← json_member std json value "address" path
    address ← string_map std json address_value (field_path path "address")
    scale ← finite_number_member std json value "scale" path
    offset ← finite_number_member std json value "offset" path
    minimum ← optional_number_member std json value "minimum" path
    maximum ← optional_number_member std json value "maximum" path
    throw_if (reversed_range std minimum maximum)
        (config_error path "minimum must not exceed maximum")
    ok (record {
      name = name;
      type = type;
      unit = unit;
      address = address;
      scale = scale;
      offset = offset;
      minimum = minimum;
      maximum = maximum;
    })

  -- the loop over the points of a device: the points, and `point_names` at its end
  unfoldable pub parse_points :
      String → ℕ → List String → List Json → Result (List PointConfig × List String)
  unfolding parse_point
  parse_points path index point_names [] = ok ([], point_names)
  parse_points path index point_names (value ∷ values) = do
    point ← parse_point value (item_path std path index)
    throw_if (member point.name point_names) (
        config_error (field_path (item_path std path index) "name")
          (concat "duplicate point '" (concat point.name "'")))
    rest ← parse_points path (suc index) (point.name ∷ point_names) values
    ok (point ∷ rest.0, rest.1)

  -- one turn of the loop over the devices: the device, and the names of its points
  unfoldable pub parse_device : List String → Json → String → Result (DeviceConfig × List String)
  unfolding parse_points
  parse_device device_ids value path = do
    throw_if (not (json.is_object value)) (config_error path "must be an object")
    id ← string_member std json value "id" path false
    throw_if (member id device_ids)
        (config_error (field_path path "id") (concat "duplicate device id '" (concat id "'")))
    type ← string_member std json value "driver" path false
    settings ← object_member std json value "driver_config" path
    library ← optional_path_member std json value "library" path
    connection_value ← json_member std json value "connection" path
    connection ← string_map std json connection_value (field_path path "connection")
    point_values ← array_member std json value "points" path
    throw_if (no_elements std json point_values)
        (config_error (field_path path "points") "must not be empty")
    points ← parse_points (field_path path "points") 0 [] point_values
    ok (
      record {
        id = id;
        driver = record { type = type; settings_json = json.dump settings; library = library };
        connection = connection;
        points = points.0;
      },
      points.1,
    )

  -- the loop over the devices: the devices, and the point names of each device
  unfoldable pub device_loop :
      ℕ
      → List String
      → Table (List String)
      → List Json
      → Result (List DeviceConfig × Table (List String))
  unfolding parse_device
  device_loop index device_ids points [] = ok ([], points)
  device_loop index device_ids points (value ∷ values) = do
    device ← parse_device device_ids value (item_path std "root.devices" index)
    rest ←
        device_loop (suc index) (device.0.id ∷ device_ids) (insert device.0.id device.1 points)
          values
    ok (device.0 ∷ rest.0, rest.1)

  unfoldable pub parse_devices : Json → Result (List DeviceConfig × Table (List String))
  unfolding device_loop
  parse_devices root = do
    devices ← array_member std json root "devices" "root"
    throw_if (no_elements std json devices) (config_error "root.devices" "must not be empty")
    device_loop 0 [] [] devices

  -- the loop over the points of a group
  unfoldable pub check_points : List String → String → List String → Result (Unit {0})
  check_points device_points path [] = ok tt
  check_points device_points path (point ∷ points) = do
    throw_if (not (member point device_points)) (
        config_error (field_path path "points")
          (concat "references unknown point '" (concat point "'")))
    check_points device_points path points

  unfoldable pub find_points : Table (List String) → String → String → Result (List String)
  find_points points device_id path = elim (lookup device_id points) [
    | none ↦ err (config_error (field_path path "device_id") "references an unknown device")
    | some names ↦ ok names
  ]

  -- one turn of the loop over the groups
  unfoldable pub parse_group :
      Table (List String) → List String → Json → String → Result CollectionGroup
  unfolding check_points find_points
  parse_group points group_ids value path = do
    throw_if (not (json.is_object value)) (config_error path "must be an object")
    id ← string_member std json value "id" path false
    throw_if (member id group_ids)
        (config_error (field_path path "id") (concat "duplicate group id '" (concat id "'")))
    device_id ← string_member std json value "device_id" path false
    interval ← milliseconds_member std json value "interval_ms" path true
    timeout ← milliseconds_member std json value "timeout_ms" path true
    points_value ← json_member std json value "points" path
    group_points ← string_array std json points_value (field_path path "points") true
    device_points ← find_points points device_id path
    check_points device_points path group_points
    ok (record {
      id = id;
      device_id = device_id;
      interval = interval;
      timeout = timeout;
      points = group_points;
    })

  -- the loop over the groups
  unfoldable pub group_loop :
      Table (List String) → ℕ → List String → List Json → Result (List CollectionGroup)
  unfolding parse_group
  group_loop points index group_ids [] = ok []
  group_loop points index group_ids (value ∷ values) = do
    group ← parse_group points group_ids value (item_path std "root.groups" index)
    rest ← group_loop points (suc index) (group.id ∷ group_ids) values
    ok (group ∷ rest)

  unfoldable pub parse_groups : Json → Table (List String) → Result (List CollectionGroup)
  unfolding group_loop
  parse_groups root points = do
    groups ← array_member std json root "groups" "root"
    group_loop points 0 [] groups

  -- one turn of the loop over plugins
  unfoldable pub parse_plugin : List String → Json → String → Result PluginConfig
  parse_plugin ids value path = do
    throw_if (not (json.is_object value)) (config_error path "must be an object")
    id ← string_member std json value "id" path false
    type ← string_member std json value "type" path false
    enabled ← optional_enabled std json value path
    settings ← object_member std json value "config" path
    library ← optional_path_member std json value "library" path
    throw_if (member id ids)
        (config_error (field_path path "id") (concat "duplicate plugin id '" (concat id "'")))
    ok (record {
      id = id;
      type = type;
      enabled = enabled;
      settings_json = json.dump settings;
      library = library;
    })

  -- the loop over plugins
  unfoldable pub plugin_loop : String → ℕ → List String → List Json → Result (List PluginConfig)
  unfolding parse_plugin
  plugin_loop base_path index ids [] = ok []
  plugin_loop base_path index ids (value ∷ values) = do
    plugin ← parse_plugin ids value (item_path std base_path index)
    rest ← plugin_loop base_path (suc index) (plugin.id ∷ ids) values
    ok (plugin ∷ rest)

  unfoldable pub parse_plugins : Json → String → Bool → Result (List PluginConfig)
  unfolding plugin_loop
  parse_plugins root key optional =
      if optional && not (is_some (json.find key root)) then ok [] else do
        values ← array_member std json root key "root"
        plugin_loop (concat "root." key) 0 [] values

  unfoldable pub parse_run_duration : Json → Result (Option ℕ)
  parse_run_duration runtime = elim (json.find "run_duration_ms" runtime) [
    | none ↦ ok none
    | some value ↦ if json.is_null value then ok none else do
      duration ← milliseconds_member std json runtime "run_duration_ms" "root.runtime" true
      ok (some duration)
  ]

  unfoldable pub parse_control_capacity : Json → Result ℕ
  parse_control_capacity runtime =
      if is_some (json.find "control_queue_capacity" runtime)
      then size_member std json runtime "control_queue_capacity" "root.runtime" true
      else ok default_control_queue_capacity

  unfoldable pub parse_application_config : Json → Result ApplicationConfig
  unfolding parse_devices parse_groups parse_plugins parse_run_duration parse_control_capacity
  parse_application_config root = do
    throw_if (not (json.is_object root)) (config_error "root" "must be an object")
    runtime ← object_member std json root "runtime" "root"
    run_duration ← parse_run_duration runtime
    raw_capacity ← size_member std json runtime "raw_queue_capacity" "root.runtime" true
    control_capacity ← parse_control_capacity runtime
    devices ← parse_devices root
    groups ← parse_groups root devices.1
    processors ← parse_plugins root "processors" false
    event_publishers ← parse_plugins root "event_publishers" false
    device_control_sources ← parse_plugins root "device_control_sources" true
    ok (record {
      run_duration = run_duration;
      gateway = record {
        raw_queue_capacity = raw_capacity;
        control_queue_capacity = control_capacity;
        devices = devices.0;
        groups = groups;
      };
      processors = processors;
      event_publishers = event_publishers;
      device_control_sources = device_control_sources;
    })

  -- the first handler of `parse_config`; the exceptions of the `try` block are all `ConfigError`s
  unfoldable pub in_source : String → Result ApplicationConfig → Result ApplicationConfig
  in_source source (ok config) = ok config
  in_source source (err error) = err (
      runtime_error (concat "invalid configuration in " (concat source (concat ": " (what error)))))

  unfoldable pub parse_config : String → String → Result ApplicationConfig
  unfolding parse_application_config in_source
  parse_config json_text source_name =
      let source = if is_empty source_name then "<memory>" else source_name in
      elim (json.parse json_text) [
        | parsed root ↦ in_source source (parse_application_config root)
        | malformed error ↦
            err (runtime_error (concat "invalid JSON in " (concat source (concat ": " error))))
      ]

  unfoldable pub load_config : FileRead → String → Result ApplicationConfig
  unfolding parse_config
  load_config not_open path = err (runtime_error (concat "cannot open configuration file: " path))
  load_config bad path = err (runtime_error (concat "cannot read configuration file: " path))
  load_config (contents text) path = parse_config text path
