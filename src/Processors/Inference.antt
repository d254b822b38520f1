-- ===== src/Processors/Inference.antt =====
-- What the inference processor emits, and when.
use mini_gateway.Prelude.{◌≡◌, String, Option, none, some, List, [], ◌∷◌, Any, length, All₂}
use mini_gateway.Prelude.Int.{ℤ}
use mini_gateway.Model.{of_double, Reading, Event}
use mini_gateway.Model.Std.{Double, Platform}
use mini_gateway.Processors.{InferenceProcessor, front, good_input, derived_reading, push_reading}

-- A reading with its value as a number.
abbrev pub Input : Type 0
Input = Reading × Double

abbrev pub squares : Platform → List Input → Double → Double
squares std [] sum = sum
squares std ((reading, value) ∷ inputs) sum = squares std inputs (std.add sum (std.mul value value))

-- The times of the last reading, or those given.
abbrev pub last_times : List Input → ℤ × ℤ → ℤ × ℤ
last_times [] times = times
last_times ((reading, value) ∷ inputs) times =
    last_times inputs (reading.source_time_ns, reading.received_time_ns)

-- What the loop finds.
data Summed (std : Platform) (event : Event) (points : List String) (sum : Double) (times : ℤ × ℤ)
    : Option (Double × ℤ × ℤ) → Type 0 where
  missing : Any (λ p. good_input std event p ≡ none) points → Summed std event points sum times none
  complete :
      (inputs : List Input)
      → All₂ (λ p i. good_input std event p ≡ some i) points inputs
      → Summed std event points sum times
          (some (squares std inputs sum, (last_times inputs times).0, (last_times inputs times).1))

-- What the processor does with an event: nothing, where an input is missing, or one derived reading
-- for all the inputs.
pub data IsInferred (std : Platform) (p : InferenceProcessor) (now_ns : ℤ) (event : Event)
    : Event → Type 0 where
  passed :
      Any (λ point. good_input std event point ≡ none) p.inputs
      → IsInferred std p now_ns event event
  inferred :
      (inputs : List Input)
      → All₂ (λ point i. good_input std event point ≡ some i) p.inputs inputs
      → IsInferred std p now_ns event
          (record (push_reading event (
            derived_reading
              (front p.outputs)
              (of_double
                (std.sqrt (std.div (squares std inputs std.zero) (std.of_size (length p.inputs)))))
              (last_times inputs (now_ns, now_ns)).0
              (last_times inputs (now_ns, now_ns)).1)) { model_version = "demo-rms-v1" })
