-- ===== src/Settings/Make.antt =====
-- How the plugins of src/processor are made of their settings. The order in which a C++ call evaluates its
-- arguments is not fixed; here it is from left to right. It decides only which exception is thrown,
-- and `create_plugin` drops exceptions.
use mini_gateway.Prelude.{true, false, String, Option, none, some, Result, ok, err, ◌>>=◌}
use mini_gateway.Model.Std.{Platform}
use mini_gateway.Config.Json.{JsonLibrary}
use mini_gateway.Processors.{
  ThresholdProcessor, create_threshold, WindowAverageProcessor, create_window_average,
  InferenceProcessor, create_inference,
}
use mini_gateway.Settings.{
  parse_object, string_member, size_member, number_member, string_array_member,
}

-- `create_plugin` of the processors: null where an exception is thrown; a null pointer to settings
-- stands for an empty object.
unfoldable pub create_plugin : {P : Type 0} → (String → Result P) → Option String → Option P
create_plugin make settings_json =
    elim (make (elim settings_json [ none ↦ "{}" | some text ↦ text ])) [
      | ok made ↦ some made
      | err thrown ↦ none
    ]

module _ {Json : Type 0} (std : Platform) (json : JsonLibrary Json) where
  unfoldable pub make_threshold_processor : String → Result ThresholdProcessor
  unfolding parse_object string_member number_member create_threshold
  make_threshold_processor settings_json = do
    settings ← parse_object std json settings_json "threshold processor"
    input ← string_member std json settings "input" "threshold processor" false
    greater_than ← number_member std json settings "greater_than" "threshold processor"
    output ← string_member std json settings "output" "threshold processor" false
    create_threshold input greater_than output

  unfoldable pub make_window_average_processor : String → Result WindowAverageProcessor
  unfolding parse_object string_member size_member create_window_average
  make_window_average_processor settings_json = do
    settings ← parse_object std json settings_json "window average processor"
    input ← string_member std json settings "input" "window average processor" false
    window ← size_member std json settings "window" "window average processor" true
    output ← string_member std json settings "output" "window average processor" false
    create_window_average input window output

  unfoldable pub make_inference_processor : String → Result InferenceProcessor
  unfolding parse_object string_member string_array_member create_inference
  make_inference_processor settings_json = do
    settings ← parse_object std json settings_json "inference processor"
    runner ← string_member std json settings "runner" "inference processor" false
    inputs ← string_array_member std json settings "inputs" "inference processor" true
    outputs ← string_array_member std json settings "outputs" "inference processor" true
    create_inference runner inputs outputs
