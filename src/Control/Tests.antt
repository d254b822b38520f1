-- ===== src/Control/Tests.antt =====
-- A dispatcher that accepts two requests, executes one and cancels the other.
use mini_gateway.Prelude.{
  count, ◌+◌, ◌%◌, ◌≡◌, refl, Bool, true, false, List, some, [], ◌∷◌, ok, u64_mod,
}
use mini_gateway.Control.{DeviceControlRequest, succeeded, no_deadline}
use mini_gateway.Control.Queue.{ControlOperation}
use mini_gateway.Control.Queue as Queue
use mini_gateway.Control.Dispatcher.{
  Dispatcher, create, submit, begin_join, begin_stop, valid_request, start, cancel, end_stop,
  end_join, complete, cancelled_result, lock_gate, unlock_gate, call_driver, deliver,
}
use mini_gateway.Control.Execute.{Answers, execute}
use mini_gateway.Control.Execute.Course.{outcomes}
use mini_gateway.Control.Execute.Outcome.{execute-IsExecution}
use mini_gateway.Control.Lifecycle.{
  System, Call, start_dispatcher, submit_request, take_operation, execute_operation, request_stop,
  cancel_operation, finish_stop, join_dispatcher, finish_join, begin, step, run,
}
use mini_gateway.Control.Lifecycle.Sound.{held}
use mini_gateway.Control.Service.{Trace, new_service, service_of, observe, accepted_of}
use mathlib.Mathlib.Data.Multiset.Defs.{of_list}
use mathlib.Mathlib.Data.Multiset.AddSub.{add}
use mini_gateway.Control.Service.Refines.{run-create-Trace}
use mini_gateway.Control.Lifecycle.Once.{run-create-conserved, run-create-joined}
use mini_gateway.Control.Lifecycle.Delivered.{deliveries, completions, run-deliveries}

abbrev set_speed : DeviceControlRequest
set_speed = record {
  request_id = "r1";
  device_id = "pump";
  command = "set_speed";
  arguments = [];
  deadline = 100;
}

abbrev stop_pump : DeviceControlRequest
stop_pump = record set_speed { request_id = "r2"; command = "stop"; deadline = no_deadline }

-- The driver answers under an identifier of its own.
abbrev in_time : Answers
in_time = record {
  execution_started = 20;
  driver = ok true;
  now = 21;
  gate = some (ok true);
  lock = ok tt;
  try_lock_until = ok true;
  before_call = 22;
  control = λ request.
      ok (record { request_id = "modbus-7"; status = succeeded; outputs = []; message = "" });
  after_call = 30;
  finished = 31;
}

abbrev operation : ControlOperation
operation = record { request = set_speed; completion = some 1; enqueued_at = 10 }

abbrev created : Dispatcher
created = record {
  queue = record {
    capacity = 2;
    queue = [];
    closed = false;
    max_size = 0;
    accepted = 0;
    rejected_full = 0;
    cancelled = 0;
  };
  started = false;
  stopping = false;
  stop_request_complete = false;
  join_in_progress = false;
  joined = false;
  stats = record {
    submitted = 0;
    accepted = 0;
    queue_full = 0;
    unknown_device = 0;
    invalid_requests = 0;
    stopping = 0;
    executed = 0;
    succeeded = 0;
    unsupported = 0;
    invalid_argument = 0;
    timeouts = 0;
    cancelled = 0;
    failed = 0;
    queue_wait_ns = 0;
    execution_ns = 0;
  };
}

abbrev calls : List Call
calls =
    start_dispatcher
    ∷ submit_request set_speed (some 1) (ok true) 10
    ∷ submit_request stop_pump (some 2) (ok true) 11
    ∷ take_operation
    ∷ request_stop true
    ∷ execute_operation in_time
    ∷ cancel_operation
    ∷ finish_stop
    ∷ take_operation
    ∷ join_dispatcher
    ∷ finish_join false
    ∷ []

is_created : create 2 true ≡ ok created
unfolding create Queue.create
is_created = refl

executed :
    (execute in_time operation created.stats).1
    ≡ lock_gate
      ∷ call_driver set_speed
      ∷ unlock_gate
      ∷ deliver 1 (record { request_id = "r1"; status = succeeded; outputs = []; message = "" })
      ∷ []
unfolding execute complete
executed = refl

late_call : (execute (record in_time { before_call = 100 }) operation created.stats).0.timeouts ≡ 1
unfolding execute complete
late_call = refl

any : ControlOperation → Bool
any _ = true

is_joined : (run (begin created) calls).dispatcher.joined ≡ true
unfolding run step begin_join begin_stop submit valid_request start Queue.try_push Queue.wait_pop
    Queue.cancel_pending Queue.close cancel end_stop end_join execute complete cancelled_result
is_joined = refl

execute-IsExecution_example :
    outcomes (execute in_time operation created.stats).0 % u64_mod
    ≡ (outcomes created.stats + 1) % u64_mod
execute-IsExecution_example = (execute-IsExecution in_time operation created.stats).counted

run-create-conserved_example :
    let s : System = run (begin created) calls in
    count any s.accepted
    ≡ count any s.completed
      + count any (held s.worker)
      + count any s.cancelling
      + count any s.dispatcher.queue.queue
run-create-conserved_example = run-create-conserved any 2 true calls is_created

run-create-joined_example :
    count any (run (begin created) calls).accepted ≡ count any (run (begin created) calls).completed
run-create-joined_example = run-create-joined any 2 true calls is_created is_joined

run-deliveries_example :
    deliveries (run (begin created) calls).effects
    ≡ completions (run (begin created) calls).completed
run-deliveries_example = run-deliveries created calls

all_told : deliveries (run (begin created) calls).effects ≡ (1, "r1") ∷ (2, "r2") ∷ []
unfolding run step begin_join begin_stop submit valid_request start Queue.try_push Queue.wait_pop
    Queue.cancel_pending Queue.close cancel end_stop end_join execute complete cancelled_result
all_told = refl

run-create-Trace_example :
    Trace new_service (observe (begin created) calls) (service_of (run (begin created) calls))
    × (of_list (accepted_of (observe (begin created) calls))
        ≡ add
            (of_list (service_of (run (begin created) calls)).completed)
            (service_of (run (begin created) calls)).pending)
run-create-Trace_example = run-create-Trace 2 true calls is_created
