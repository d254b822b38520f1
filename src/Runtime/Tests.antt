-- ===== src/Runtime/Tests.antt =====
-- A runtime with two publishers, of which the second fails to start, a polled and a pushing driver and
-- a source of controls; a poll of a group; and the work on two batches.
use mini_gateway.Prelude.{
  ℕ, ◌+◌, ◌%◌, ◌≡◌, refl, Bool, true, false, not, none, List, [], ◌∷◌, str_eq, ok, err, foreign,
  Result, u64_mod, lookup, member, insert, reverse,
}
use mini_gateway.Prelude.Int.{ℤ, pos}
use mini_gateway.Model.{GatewayConfig, CollectionGroup, RawBatch, Event}
use mini_gateway.Model.Whole.{whole}
use mini_gateway.BoundedQueue.{try_push}
use mini_gateway.Scheduler.{ScheduleTask, create_policy}
use mini_gateway.Processing.{ProcessingContext, Processed}
use mini_gateway.Runtime.{poll, push, find_group, find_device}
use mini_gateway.Runtime.Lifecycle.{
  Act, Plugins, Starts, Runtime, Progress, shut_down, start, stop, begin, rollback,
}
use mini_gateway.Runtime.Lifecycle.Collect.{collect, publisher_started, publisher_stopped}
use mini_gateway.Runtime.Lifecycle.Rollback.{start-IsUndone}
use mini_gateway.Runtime.Lifecycle.Undo.{IsRollback, rollback-IsRollback}
use mini_gateway.Runtime.Lifecycle.Stop.{stop-IsShutDown}
use mini_gateway.Runtime.Configure.{DriverInstance, validate_and_configure, make_tasks}
use mini_gateway.Runtime.Configure.Valid.{validate_and_configure-IsConfigured}
use mini_gateway.Runtime.Work.{
  Counters, PollAnswers, Acquisition, poll_group, EventPublishResult, accepted, publish_event,
  Processing, process_batches,
}
use mini_gateway.Runtime.Work.Counts.{answers_of, publish_event_lem, process_batches_counts}

abbrev plugins : Plugins
plugins = record {
  publishers = "mqtt" ∷ "log" ∷ [];
  drivers = "pump" ∷ "meter" ∷ [];
  sources = 0 ∷ [];
  driver_modes = ("pump", poll) ∷ ("meter", push) ∷ [];
}

abbrev failing : Starts
failing = record {
  publisher = λ p. not (str_eq p "log");
  driver = λ d. true;
  dispatcher = true;
  worker = true;
  source = λ s. true;
  create_scheduler = true;
  scheduler = true;
}

abbrev running : Runtime
running = record (begin plugins) {
  started = true;
  accepting_controls = true;
  scheduler = true;
  worker = true;
}

abbrev stuck : Progress
stuck = record {
  publishers = "mqtt" ∷ [];
  drivers = "pump" ∷ [];
  sources = 0 ∷ 1 ∷ [];
  dispatcher = true;
  worker = true;
  scheduler = false;
  acts = [];
}

it_threw : (start failing (begin plugins)).threw ≡ true
unfolding start
it_threw = refl

start-IsUndone_example :
    collect publisher_stopped (start failing (begin plugins)).acts
    ≡ reverse (collect publisher_started (start failing (begin plugins)).acts)
start-IsUndone_example = (start-IsUndone failing (begin plugins) refl it_threw).0.publishers

both_stopped : collect publisher_stopped (start failing (begin plugins)).acts ≡ "log" ∷ "mqtt" ∷ []
unfolding start rollback
both_stopped = refl

rollback-IsRollback_example : IsRollback stuck (rollback stuck)
rollback-IsRollback_example = rollback-IsRollback stuck

stop-IsShutDown_example :
    (acts : List Act) × (after : Runtime) × (stop running ≡ shut_down acts after)
unfolding lookup
stop-IsShutDown_example =
    let (acts, after, done, facts) =
      stop-IsShutDown (λ d. true) running refl refl refl ((poll, refl), ((push, refl), tt)) in
    (acts, after, done)

abbrev group : CollectionGroup
group = record { id = "fast"; device_id = "pump"; interval = 100; timeout = 50; points = "p" ∷ [] }

abbrev config : GatewayConfig
config = record {
  raw_queue_capacity = 1;
  control_queue_capacity = 1;
  devices = [];
  groups = group ∷ [];
}

abbrev batch : RawBatch
batch = record { device_id = "pump"; source = "test"; samples = [] }

abbrev late_poll : PollAnswers
late_poll = record {
  now = 10;
  has_gate = true;
  try_lock_until = true;
  poll = λ g deadline. ok batch;
  after = 60_000_000;
}

abbrev task : ScheduleTask
task = record {
  group_id = "fast";
  interval = 100;
  next_due = 0;
  stable_order = 0;
  skipped_cycles = 0;
}

abbrev counters : Counters
counters = record {
  polls = 0;
  poll_errors = 0;
  deadline_misses = 0;
  poll_queue_full = 0;
  delivered_events = 0;
  attempts = 0;
  accepted = 0;
  unavailable = 0;
  rejected = 0;
  errors = 0;
}

abbrev acquisition : Acquisition
acquisition = record {
  counters = counters;
  raw_queue = record {
    capacity = 1;
    queue = batch ∷ [];
    closed = false;
    accepted = 1;
    rejected_full = 0;
  };
}

-- The batch is late and finds the queue full.
late_and_full :
    (poll_group config ("pump" ∷ []) late_poll task acquisition).1.counters
    ≡ record counters { polls = 1; deadline_misses = 1; poll_queue_full = 1 }
unfolding poll_group find_group try_push
late_and_full = refl

-- A publisher is a Boolean, whether it throws; the world counts the calls.
abbrev offer : Bool → Event → ℕ → Result EventPublishResult × ℕ
offer true event w = (err foreign, w + 1)
offer false event w = (ok accepted, w + 1)

abbrev keep : Bool → ProcessingContext ℕ → Event → ℕ → Processed Bool ℕ
keep throws context event w = record {
  processor = throws;
  event = event;
  world = w;
  threw = throws;
}

abbrev event : Event
event = record { event_id = "e"; device_id = "d"; source = "s"; readings = []; model_version = "" }

publish_event_lem_example :
    let (w, after) = publish_event offer (true ∷ false ∷ []) event 0 counters in
    (w ≡ 2)
    × (after.attempts % u64_mod ≡ 2)
    × (after.accepted % u64_mod ≡ 1)
    × (after.unavailable % u64_mod ≡ 0)
    × (after.rejected % u64_mod ≡ 0)
    × (after.errors % u64_mod ≡ 1)
unfolding answers_of
publish_event_lem_example = publish_event_lem offer (true ∷ false ∷ []) event 0 counters

abbrev processing : Processing Bool ℕ
processing = record {
  normalizer = record {
    points = [];
    event_sequence = 0;
    batches = 0;
    readings = 0;
    bad_readings = 0;
  };
  pipeline = record { processors = true ∷ []; control = none; events = 0; processor_errors = 0 };
  counters = counters;
  world = 0;
}

abbrev work : List (ℤ × ℤ × RawBatch)
work = (pos 1, pos 2, batch) ∷ (pos 3, pos 4, batch) ∷ []

process_batches_counts_example :
    (process_batches whole keep offer (true ∷ false ∷ []) work processing).counters.delivered_events
      % u64_mod
    ≡ 2
process_batches_counts_example =
    (process_batches_counts whole keep offer (true ∷ false ∷ []) work processing).0

abbrev pump : DriverInstance
pump = record {
  device_id = "pump";
  has_driver = true;
  configure = λ device. ok tt;
  capabilities = ok poll;
}

abbrev plant : GatewayConfig
plant = record config {
  devices =
      record {
        id = "pump";
        driver = record { type = "sim"; settings_json = "{}"; library = "" };
        connection = [];
        points = [];
      }
      ∷ [];
}

plant_configured : validate_and_configure plant (pump ∷ []) [] ≡ ok (("pump", poll) ∷ [])
unfolding validate_and_configure find_device member insert lookup
plant_configured = refl

validate_and_configure-IsConfigured_example :
    create_policy (make_tasks 5 0 plant.groups) ≡ ok (make_tasks 5 0 plant.groups)
validate_and_configure-IsConfigured_example =
    (validate_and_configure-IsConfigured plant (pump ∷ []) [] 5 plant_configured).schedule
