-- ===== src/Config/Tests.antt =====
-- Runs of the configuration's reader on the values of a small JSON library.
use mini_gateway.Prelude.{◌≡◌, refl, lookup, insert, emplace, member, err, runtime_error}
use mini_gateway.Model.Whole.{whole}
use mini_gateway.Config.Fields.{
  config_error, object_member, milliseconds_member, size_member, array_member, string_member,
  optional_path_member, string_map, value_type, finite_number_member, optional_number_member,
  string_array,
}
use mini_gateway.Config.Parse.{parse_config}
use mini_gateway.Config.Valid.Whole.{IsRunnable, parse_config-IsRunnable}
use mini_gateway.Config.Example.{values, plant, reads_plant}

-- A group may only name points of its device.
refuses_astray :
    parse_config whole values "astray" "plant.json"
    ≡ err (
        runtime_error
          "invalid configuration in plant.json: root.groups[7].points: references unknown point 'depth'")
unfolding parse_config lookup insert emplace member object_member milliseconds_member size_member
    array_member string_member optional_path_member string_map value_type finite_number_member
    optional_number_member string_array config_error
refuses_astray = refl

refuses_text :
    parse_config whole values "pl" ""
    ≡ err (runtime_error "invalid JSON in <memory>: unexpected end")
unfolding parse_config
refuses_text = refl

parse_config-IsRunnable_example : IsRunnable whole plant 1_000
parse_config-IsRunnable_example =
    parse_config-IsRunnable whole values "plant" "plant.json" 1_000 reads_plant
