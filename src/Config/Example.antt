-- ===== src/Config/Example.antt =====
-- A small JSON library and the configuration of a small plant, by which the tests run.
use mini_gateway.Prelude.{
  ℕ, ◌≡◌, refl, Bool, true, false, String, Option, none, some, List, [], ◌∷◌, str_eq, if◌then◌else◌,
  lookup, insert, emplace, member, ok,
}
use mini_gateway.Prelude.Int.{pos}
use mini_gateway.Model.{double, PointConfig}
use mini_gateway.Model.Whole.{whole}
use mini_gateway.Config.{ApplicationConfig}
use mini_gateway.Config.Json.{JsonLibrary, parsed, malformed}
use mini_gateway.Config.Fields.{
  object_member, milliseconds_member, size_member, array_member, string_member,
  optional_path_member, string_map, value_type, finite_number_member, optional_number_member,
  string_array, optional_enabled,
}
use mini_gateway.Config.Parse.{parse_config}

mutual
  pub data Value : Type 0 where
    null : Value
    flag : Bool → Value
    num : ℕ → Value
    str : String → Value
    arr : Values → Value
    obj : Members → Value

  pub data Values : Type 0 where
    nil : Values
    cons : Value → Values → Values

  pub data Members : Type 0 where
    end : Members
    with : String → Value → Members → Members

abbrev pub elements_of : Values → List Value
elements_of nil = []
elements_of (cons v vs) = v ∷ elements_of vs

abbrev pub items_of : Members → List (String × Value)
items_of end = []
items_of (with key v ms) = (key, v) ∷ items_of ms

abbrev pub find_in : String → Members → Option Value
find_in key end = none
find_in key (with k v ms) = if str_eq k key then some v else find_in key ms

abbrev pub level_value : Value
level_value = obj (
    with "name" (str "level") (
      with "type" (str "double") (
        with "unit" (str "mm") (
          with "address" (obj (with "register" (str "4") end))
            (with "scale" (num 2) (with "offset" (num 1) (with "maximum" (num 100) end)))))))

abbrev pub tank_value : Value
tank_value = obj (
    with "id" (str "tank") (
      with "driver" (str "sim") (
        with "driver_config" (obj end) (
          with "library" (str "libsim.so")
            (with "connection" (obj end) (with "points" (arr (cons level_value nil)) end))))))

abbrev pub group_value : String → Value
group_value point = obj (
    with "id" (str "fast") (
      with "device_id" (str "tank") (
        with "interval_ms" (num 10)
          (with "timeout_ms" (num 5) (with "points" (arr (cons (str point) nil)) end)))))

abbrev pub plugin_value : Value
plugin_value = obj (
    with "id" (str "limits")
      (with "type" (str "threshold") (with "enabled" (flag false) (with "config" (obj end) end))))

abbrev pub root_value : String → Value
root_value point = obj (
    with "runtime" (obj (with "raw_queue_capacity" (num 8) (with "run_duration_ms" (num 20) end))) (
      with "devices" (arr (cons tank_value nil)) (
        with "groups" (arr (cons (group_value point) nil)) (
          with "processors" (arr (cons plugin_value nil))
            (with "event_publishers" (arr nil) end)))))

abbrev pub values : JsonLibrary Value
values = record {
  parse = λ text.
      if str_eq text "plant"
      then parsed (root_value "level")
      else if str_eq text "astray"
      then parsed (root_value "depth")
      else malformed "unexpected end";
  dump = λ v. "{}";
  is_null = λ v. elim v [ null ↦ true | _ ↦ false ];
  is_object = λ v. elim v [ obj ms ↦ true | _ ↦ false ];
  is_array = λ v. elim v [ arr vs ↦ true | _ ↦ false ];
  is_string = λ v. elim v [ str s ↦ true | _ ↦ false ];
  is_boolean = λ v. elim v [ flag b ↦ true | _ ↦ false ];
  is_number = λ v. elim v [ num n ↦ true | _ ↦ false ];
  is_number_integer = λ v. elim v [ num n ↦ true | _ ↦ false ];
  is_number_unsigned = λ v. elim v [ num n ↦ true | _ ↦ false ];
  find = λ key v. elim v [ obj ms ↦ find_in key ms | _ ↦ none ];
  items = λ v. elim v [ obj ms ↦ items_of ms | _ ↦ [] ];
  elements = λ v. elim v [ arr vs ↦ elements_of vs | _ ↦ [] ];
  get_string = λ v. elim v [ str s ↦ s | _ ↦ "" ];
  get_bool = λ v. elim v [ flag b ↦ b | _ ↦ false ];
  get_uint64 = λ v. elim v [ num n ↦ n | _ ↦ 0 ];
  get_int64 = λ v. elim v [ num n ↦ pos n | _ ↦ pos 0 ];
  get_double = λ v. elim v [ num n ↦ n | _ ↦ 0 ];
}

abbrev pub level : PointConfig
level = record {
  name = "level";
  type = double;
  unit = "mm";
  address = ("register", "4") ∷ [];
  scale = 2;
  offset = 1;
  minimum = none;
  maximum = some 100;
}

abbrev pub plant : ApplicationConfig
plant = record {
  run_duration = some 20;
  gateway = record {
    raw_queue_capacity = 8;
    control_queue_capacity = 64;
    devices =
        record {
          id = "tank";
          driver = record { type = "sim"; settings_json = "{}"; library = "libsim.so" };
          connection = [];
          points = level ∷ [];
        }
        ∷ [];
    groups =
        record {
          id = "fast";
          device_id = "tank";
          interval = 10;
          timeout = 5;
          points = "level" ∷ [];
        }
        ∷ [];
  };
  processors =
      record {
        id = "limits";
        type = "threshold";
        enabled = false;
        settings_json = "{}";
        library = "";
      }
      ∷ [];
  event_publishers = [];
  device_control_sources = [];
}

pub reads_plant : parse_config whole values "plant" "plant.json" ≡ ok plant
unfolding parse_config lookup insert emplace member object_member milliseconds_member size_member
    array_member string_member optional_path_member string_map value_type finite_number_member
    optional_number_member string_array optional_enabled
reads_plant = refl
