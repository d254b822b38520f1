-- ===== src/Processing/Tests.antt =====
-- A pipeline of two processors, one of which throws.
use mini_gateway.Prelude.{ℕ, ◌≡◌, refl, Bool, true, false, none, [], ◌∷◌}
use mini_gateway.Prelude.Int.{pos}
use mini_gateway.Model.{Event}
use mini_gateway.Processing.{ProcessingContext, ProcessingPipeline, Processed, process}
use mini_gateway.Processing.Isolated.{process-CallsEach}

abbrev event : Event
event = record {
  event_id = "d-1-0";
  device_id = "d";
  source = "s";
  readings = [];
  model_version = "";
}

-- A processor is a Boolean: it throws, after it has written its event, when it is true.
abbrev relabel : Bool → ProcessingContext ℕ → Event → ℕ → Processed Bool ℕ
relabel throws context event w = record {
  processor = false;
  event = record event { model_version = "relabelled" };
  world = w;
  threw = throws;
}

abbrev pipeline : ProcessingPipeline Bool ℕ
pipeline = record {
  processors = true ∷ false ∷ [];
  control = none;
  events = 4;
  processor_errors = 7;
}

counted : (process relabel pipeline (pos 3) event 0).0.processor_errors ≡ 8
unfolding process
counted = refl

process-CallsEach_example : (process relabel pipeline (pos 3) event 0).0.events ≡ 5
unfolding process
process-CallsEach_example = (process-CallsEach relabel pipeline (pos 3) event 0).3
