-- ===== src/Processors.antt =====
-- The processors of src/processor: threshold, sliding average and inference. None of them submits
-- controls; of the context the inference reads the time.
pub mod Window
pub mod LastValues
pub mod Reference
pub mod Inference
mod Tests
use mini_gateway.Prelude.{
  ℕ, Bool, true, false, not, ◌||◌, String, concat, Option, none, some, List, [], ◌∷◌, ◌++◌, ltb,
  ◌==◌, length, str_eq, is_empty, if◌then◌else◌, Table, lookup, insert, Result, ok, err,
  invalid_argument,
}
use mini_gateway.Prelude.Int.{ℤ}
use mini_gateway.Model.{
  Scalar, of_double, of_bool, good, is_good, Reading, Event, find_reading, numeric_value,
}
use mini_gateway.Model.Std.{Double, Platform}

unfoldable pub derived_reading : String → Scalar → ℤ → ℤ → Reading
derived_reading point value source_time_ns received_time_ns = record {
  point = point;
  value = value;
  quality = good;
  unit = "";
  source_time_ns = source_time_ns;
  received_time_ns = received_time_ns;
  derived = true;
}

abbrev pub push_reading : Event → Reading → Event
push_reading event reading = record event { readings = event.readings ++ reading ∷ [] }

-- a reading that is found, good and reads as a number
abbrev pub numeric_reading : Platform → Option Reading → Option (Reading × Double)
numeric_reading std none = none
numeric_reading std (some reading) =
    if is_good reading.quality
    then (elim (numeric_value std reading.value) [ none ↦ none | some v ↦ some (reading, v) ])
    else none

unfoldable pub good_input : Platform → Event → String → Option (Reading × Double)
good_input std event point = numeric_reading std (find_reading event point)

pub record ThresholdProcessor : Type 0 where
  pub input : String
  pub greater_than : Double
  pub output : String

unfoldable pub create_threshold : String → Double → String → Result ThresholdProcessor
create_threshold input greater_than output =
    if is_empty input || is_empty output
    then err (invalid_argument "threshold input and output are required")
    else ok (record { input = input; greater_than = greater_than; output = output })

unfoldable pub process_threshold : Platform → ThresholdProcessor → Event → Event
unfolding good_input
process_threshold std p event = elim (good_input std event p.input) [
  | none ↦ event
  | some (input, value) ↦ push_reading event (
      derived_reading p.output (of_bool (std.less p.greater_than value)) input.source_time_ns
        input.received_time_ns)
]

pub record WindowAverageProcessor : Type 0 where
  pub input : String
  pub window : ℕ
  pub output : String
  pub windows : Table (List Double)

unfoldable pub create_window_average : String → ℕ → String → Result WindowAverageProcessor
create_window_average input window output =
    if is_empty input || is_empty output || (window == 0)
    then err (invalid_argument "window rule requires input, output and positive size")
    else ok (record { input = input; window = window; output = output; windows = [] })

-- `while (values.size() > window_) values.pop_front();`
unfoldable pub trim : ℕ → List Double → List Double
trim window [] = []
trim window (v ∷ vs) =
    let rest = trim window vs in if ltb window (length (v ∷ vs)) then rest else v ∷ vs

-- `std::accumulate`
unfoldable pub accumulate : Platform → List Double → Double → Double
accumulate std [] sum = sum
accumulate std (v ∷ vs) sum = accumulate std vs (std.add sum v)

-- `windows_[device_id]`
abbrev pub window_of : Table (List Double) → String → List Double
window_of windows device_id = elim (lookup device_id windows) [ none ↦ [] | some vs ↦ vs ]

-- the event, once the window has its values
unfoldable pub emit_average :
    Platform → WindowAverageProcessor → Event → Reading → List Double → Event
unfolding accumulate
emit_average std p event input values =
    if not (length values == p.window)
    then event
    else push_reading event (
        derived_reading p.output
          (of_double (std.div (accumulate std values std.zero) (std.of_size (length values))))
          input.source_time_ns input.received_time_ns)

unfoldable pub process_window_average :
    Platform → WindowAverageProcessor → Event → WindowAverageProcessor × Event
unfolding good_input trim emit_average
process_window_average std p event = elim (good_input std event p.input) [
  | none ↦ (p, event)
  | some (input, value) ↦
      let values = trim p.window (window_of p.windows event.device_id ++ value ∷ []) in
      (
        record p { windows = insert event.device_id values p.windows },
        emit_average std p event input values,
      )
]

pub record InferenceProcessor : Type 0 where
  pub runner : String
  pub inputs : List String
  pub outputs : List String

unfoldable pub create_inference : String → List String → List String → Result InferenceProcessor
create_inference runner inputs outputs =
    if not (str_eq runner "demo_rms")
    then err (invalid_argument (concat "unsupported inference runner: " runner))
    else if (length inputs == 0) || not (length outputs == 1)
    then err (invalid_argument "demo_rms requires at least one input and exactly one output")
    else ok (record { runner = runner; inputs = inputs; outputs = outputs })

-- The loop over the inputs: the sum of the squares and the times of the last reading, or none where
-- the loop returns early.
unfoldable pub sum_squares :
    Platform → Event → List String → Double × ℤ × ℤ → Option (Double × ℤ × ℤ)
unfolding good_input
sum_squares std event [] sum = some sum
sum_squares std event (point ∷ points) sum = elim (good_input std event point) [
  | none ↦ none
  | some (reading, value) ↦
      sum_squares std event points
        (std.add sum.0 (std.mul value value), reading.source_time_ns, reading.received_time_ns)
]

-- `outputs_.front()`
abbrev pub front : List String → String
front [] = ""
front (output ∷ outputs) = output

unfoldable pub process_inference : Platform → InferenceProcessor → ℤ → Event → Event
unfolding sum_squares
process_inference std p now_ns event =
    elim (sum_squares std event p.inputs (std.zero, now_ns, now_ns)) [
      | none ↦ event
      | some (sum, source_time, received_time) ↦
          record (push_reading event (
            derived_reading (front p.outputs)
              (of_double (std.sqrt (std.div sum (std.of_size (length p.inputs))))) source_time
              received_time)) { model_version = "demo-rms-v1" }
    ]
