-- ===== src/Processors/Tests.antt =====
-- A window of two values, and a threshold.
use mini_gateway.Prelude.{
  ok, true, false, ◌≡◌, refl, some, [], ◌∷◌, lookup, insert, length, min, ◌+◌,
}
use mini_gateway.Prelude.Int.{pos}
use mini_gateway.Model.{of_int, of_bool, good, Reading, Event, find_reading, numeric_value}
use mini_gateway.Model.Whole.{whole}
use mini_gateway.Processors.{
  WindowAverageProcessor, process_window_average, process_threshold, derived_reading, good_input,
  window_of, create_window_average, InferenceProcessor,
}
use mini_gateway.Processors.LastValues.{process_all, values_of, last_values}
use mini_gateway.Processors.Reference.{process_all-last_values}
use mini_gateway.Processors.Window.{process_window_average-IsSliding}

abbrev speed : Reading
speed = record {
  point = "speed";
  value = of_int (pos 8);
  quality = good;
  unit = "rpm";
  source_time_ns = pos 5;
  received_time_ns = pos 6;
  derived = false;
}

abbrev event : Event
event = record {
  event_id = "e";
  device_id = "pump";
  source = "s";
  readings = speed ∷ [];
  model_version = "";
}

abbrev average : WindowAverageProcessor
average = record {
  input = "speed";
  window = 2;
  output = "average";
  windows = ("pump", 2 ∷ 4 ∷ []) ∷ [];
}

slides : (process_window_average whole average event).0.windows ≡ ("pump", 4 ∷ 8 ∷ []) ∷ []
unfolding process_window_average find_reading numeric_value lookup insert
slides = refl

exceeds :
    (process_threshold whole
      (record { input = "speed"; greater_than = 7; output = "fast" })
      event).readings
    ≡ speed ∷ derived_reading "fast" (of_bool true) (pos 5) (pos 6) ∷ []
unfolding process_threshold find_reading numeric_value
exceeds = refl

is_good_input : good_input whole event "speed" ≡ some (speed, 8)
unfolding good_input find_reading numeric_value
is_good_input = refl

process_window_average-IsSliding_example :
    length (process_window_average-IsSliding whole average event speed 8 is_good_input).values
    ≡ min 2 (length (window_of average.windows "pump") + 1)
process_window_average-IsSliding_example =
    (process_window_average-IsSliding whole average event speed 8 is_good_input).size

is_created : create_window_average "speed" 2 "average" ≡ ok (record average { windows = [] })
unfolding create_window_average
is_created = refl

-- The last two of three values, with an event of another device in between.
process_all-last_values_example :
    window_of
      (process_all whole
        (record average { windows = [] })
        (event ∷ event ∷ record event { device_id = "fan" } ∷ event ∷ [])).windows
      "pump"
    ≡ last_values 2 (
        values_of whole "speed" "pump"
          (event ∷ event ∷ record event { device_id = "fan" } ∷ event ∷ []))
process_all-last_values_example =
    process_all-last_values whole "speed" 2 "average"
      (event ∷ event ∷ record event { device_id = "fan" } ∷ event ∷ []) "pump" is_created

abbrev rms : InferenceProcessor
rms = record { runner = "demo_rms"; inputs = "speed" ∷ []; outputs = "level" ∷ [] }
