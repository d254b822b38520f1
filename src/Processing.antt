-- ===== src/Processing.antt =====
-- include/gateway/processing.hpp and src/core/processing.cpp: the pipeline of data processors. A
-- processor is an external object: the type `P` of its states and its `process` are parameters.
-- `W` is the state behind the control sink, which a processor may change by submitting controls.
pub mod Isolated
mod Tests
use mini_gateway.Prelude.{
  ℕ, Bool, true, false, Option, none, some, List, [], ◌∷◌, increment, if◌then◌else◌, Error,
  invalid_argument, Result, ok, err, ◌>>=◌,
}
use mini_gateway.Prelude.Int.{ℤ}
use mini_gateway.Model.{Event}
use mini_gateway.Control.{DeviceControlRequest, ControlSubmitResult, stopping}

-- `ControlSink`, for a submission without a completion
abbrev pub ControlSink : Type 0 → Type 0
ControlSink W = DeviceControlRequest → W → ControlSubmitResult × W

pub record ProcessingContext (W : Type 0) : Type 0 where
  pub now_ns : ℤ
  pub control : Option (ControlSink W)

unfoldable pub submit_control :
    {W : Type 0} → ProcessingContext W → DeviceControlRequest → W → ControlSubmitResult × W
submit_control context request w = elim context.control [
  | none ↦ (stopping, w)
  | some control ↦ control request w
]

pub record ProcessingStats : Type 0 where
  pub events : ℕ
  pub processor_errors : ℕ

pub record ProcessingPipeline (P W : Type 0) : Type 0 where
  pub processors : List P
  pub control : Option (ControlSink W)
  pub events : ℕ
  pub processor_errors : ℕ

-- What a call of `process` leaves: the processor, the event and the world, and whether it threw.
pub record Processed (P W : Type 0) : Type 0 where
  pub processor : P
  pub event : Event
  pub world : W
  pub threw : Bool

-- the constructor's loop, over pointers that may be null
unfoldable pub check_processors : {P : Type 0} → List (Option P) → Result (List P)
check_processors [] = ok []
check_processors (none ∷ ps) =
    err (invalid_argument "processing pipeline contains a null processor")
check_processors (some p ∷ ps) = do qs ← check_processors ps; ok (p ∷ qs)

module _ {P W : Type 0} where
  unfoldable pub create : List (Option P) → Option (ControlSink W) → Result (ProcessingPipeline P W)
  unfolding check_processors
  create processors control = do
    ps ← check_processors processors
    ok (record { processors = ps; control = control; events = 0; processor_errors = 0 })

  unfoldable pub set_control_sink :
      Option (ControlSink W) → ProcessingPipeline P W → ProcessingPipeline P W
  set_control_sink control pipeline = record pipeline { control = control }

  unfoldable pub stats : ProcessingPipeline P W → ProcessingStats
  stats pipeline = record { events = pipeline.events; processor_errors = pipeline.processor_errors }

module _ {P W : Type 0} (process_one : P → ProcessingContext W → Event → W → Processed P W) where
  -- the loop of `process`, with `processor_errors_`
  unfoldable pub process_each :
      ProcessingContext W → List P → Event → W → ℕ → List P × Event × W × ℕ
  process_each context [] event w errors = ([], event, w, errors)
  process_each context (p ∷ ps) event w errors =
      let done = process_one p context event w in
      let (ps', event', w', errors') =
        process_each context ps done.event done.world
          (if done.threw then increment errors else errors) in
      (done.processor ∷ ps', event', w', errors')

  unfoldable pub process :
      ProcessingPipeline P W → ℤ → Event → W → ProcessingPipeline P W × Event × W
  unfolding process_each
  process pipeline now_ns event w =
      let context : ProcessingContext W = record { now_ns = now_ns; control = pipeline.control } in
      let (ps, event', w', errors) =
        process_each context pipeline.processors event w pipeline.processor_errors in
      (
        record pipeline {
          processors = ps;
          processor_errors = errors;
          events = increment pipeline.events;
        },
        event',
        w',
      )
