-- ===== src/Settings/Tests.antt =====
-- Runs of the readers of settings.
use mini_gateway.Prelude.{◌≡◌, refl, none, some, [], err, invalid_argument}
use mini_gateway.Model.Whole.{whole}
use mini_gateway.Config.Json.{JsonLibrary, parsed}
use mini_gateway.Config.Example.{Value, num, str, obj, end, with, values}
use mini_gateway.Settings.{settings_error, int_member}
use mini_gateway.Settings.Make.{create_plugin, make_window_average_processor}

-- The library when it parses one value.
abbrev gives : Value → JsonLibrary Value
gives value = record values { parse = λ text. parsed value }

abbrev settings : Value
settings = obj (with "input" (str "speed") (with "window" (num 3) (with "output" (str "mean") end)))

makes_average :
    create_plugin (make_window_average_processor whole (gives settings)) none
    ≡ some (record { input = "speed"; window = 3; output = "mean"; windows = [] })
unfolding create_plugin make_window_average_processor
makes_average = refl

-- A window of no values is refused, and the plugin is null.
refuses_empty :
    make_window_average_processor whole
      (gives
        (obj (with "input" (str "speed") (with "window" (num 0) (with "output" (str "mean") end)))))
      "{}"
    ≡ err
        (invalid_argument "invalid window average processor configuration.window: must be positive")
unfolding make_window_average_processor settings_error
refuses_empty = refl

in_range :
    int_member whole (gives settings) settings "window" "mqtt" 0 2
    ≡ err (invalid_argument "invalid mqtt configuration.window: must be in range 7..7")
unfolding int_member settings_error
in_range = refl
