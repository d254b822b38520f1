-- ===== src/Control/Dispatcher.antt =====
-- `DeviceControlDispatcher` of src/core/control.cpp. What the dispatcher asks of others (the
-- clock, the resolvers, the gate, the driver) is a record of their answers, in the order in which
-- the code asks; what it does to others is a list of effects. Each section under the lifecycle mutex is
-- one step; the statistics have a mutex of their own.
pub mod Submit
use mini_gateway.Prelude.{
  ℕ, ◌-◌, Bool, true, false, not, ◌&&◌, ◌||◌, String, Option, none, some, List, [], ◌∷◌, ◌++◌, leb,
  ltb, ◌==◌, if◌then◌else◌, is_empty, increment, saturating_add, Result, ok, err, ◌>>=◌, Error,
  invalid_argument, logic_error, runtime_error, out_of_range, foreign,
}
use mini_gateway.Control.{
  DeviceControlRequest, DeviceControlResult, DeviceControlStatus, succeeded, unsupported, timeout,
  cancelled, failed, ControlSubmitResult, accepted, queue_full, unknown_device, invalid_request,
  stopping, ControlStats, ControlQueueStats, no_deadline,
}
use mini_gateway.Control.Queue.{
  ControlCompletion, ControlOperation, ControlQueue, try_push, close, cancel_pending,
}
use mini_gateway.Control.Queue as Queue

pub record Dispatcher : Type 0 where
  pub queue : ControlQueue
  pub started : Bool
  pub stopping : Bool
  pub stop_request_complete : Bool
  pub join_in_progress : Bool
  pub joined : Bool
  pub stats : ControlStats

-- An effect on the gate, the driver or the source of the request.
pub data Effect : Type 0 where
  lock_gate : Effect
  unlock_gate : Effect
  call_driver : DeviceControlRequest → Effect
  deliver : ℕ → DeviceControlResult → Effect

-- A resolver returns a driver or null, or throws.
abbrev pub is_resolved : Result Bool → Bool
is_resolved (ok found) = found
is_resolved (err thrown) = false

abbrev pub no_stats : ControlStats
no_stats = record {
  submitted = 0;
  accepted = 0;
  queue_full = 0;
  unknown_device = 0;
  invalid_requests = 0;
  stopping = 0;
  executed = 0;
  succeeded = 0;
  unsupported = 0;
  invalid_argument = 0;
  timeouts = 0;
  cancelled = 0;
  failed = 0;
  queue_wait_ns = 0;
  execution_ns = 0;
}

-- the constructor; `has_resolver` is whether the driver resolver is not empty
unfoldable pub create : ℕ → Bool → Result Dispatcher
create queue_capacity has_resolver = do
  queue ← Queue.create queue_capacity
  if has_resolver
      then ok (record {
        queue = queue;
        started = false;
        stopping = false;
        stop_request_complete = false;
        join_in_progress = false;
        joined = false;
        stats = no_stats;
      })
      else err (invalid_argument "control dispatcher requires a driver resolver")

unfoldable pub start : Dispatcher → Result Dispatcher
start d =
    if d.started
    then err (logic_error "control dispatcher has already been started")
    else if d.stopping
    then err (logic_error "control dispatcher has already been stopped")
    else ok (record d { started = true })

unfoldable pub valid_request : DeviceControlRequest → Bool
valid_request request = not (is_empty request.device_id) && not (is_empty request.command)

-- the `switch` of `submit`
unfoldable pub count_submission : ControlSubmitResult → ControlStats → ControlStats
count_submission accepted s = record s { accepted = increment s.accepted }
count_submission queue_full s = record s { queue_full = increment s.queue_full }
count_submission unknown_device s = record s { unknown_device = increment s.unknown_device }
count_submission invalid_request s = record s { invalid_requests = increment s.invalid_requests }
count_submission stopping s = record s { stopping = increment s.stopping }

-- `driver` is the answer of the driver resolver, `now` that of the clock.
unfoldable pub submit :
    DeviceControlRequest
    → ControlCompletion
    → Result Bool
    → ℕ
    → Dispatcher
    → ControlSubmitResult × Dispatcher
unfolding count_submission
submit request completion driver now d =
    let s = record d.stats { submitted = increment d.stats.submitted } in
    if not (valid_request request)
    then (invalid_request, record d { stats = count_submission invalid_request s })
    else if not d.started || d.stopping
    then (stopping, record d { stats = count_submission stopping s })
    else if not (is_resolved driver)
    then (unknown_device, record d { stats = count_submission unknown_device s })
    else let (result, queue) = try_push request completion now d.queue in
      (result, record d { queue = queue; stats = count_submission result s })

-- the `switch` of `complete`
unfoldable pub count_status : DeviceControlStatus → ControlStats → ControlStats
count_status succeeded s = record s { succeeded = increment s.succeeded }
count_status unsupported s = record s { unsupported = increment s.unsupported }
count_status DeviceControlStatus.invalid_argument s = record s {
  invalid_argument = increment s.invalid_argument;
}
count_status timeout s = record s { timeouts = increment s.timeouts }
count_status cancelled s = record s { cancelled = increment s.cancelled }
count_status failed s = record s { failed = increment s.failed }

-- the call of the completion, whose exceptions are dropped
abbrev pub delivery : ControlCompletion → DeviceControlResult → List Effect
delivery none result = []
delivery (some completion) result = deliver completion result ∷ []

unfoldable pub complete :
    ControlOperation → DeviceControlResult → ControlStats → ControlStats × List Effect
unfolding count_status
complete operation result s = (count_status result.status s, delivery operation.completion result)

unfoldable pub cancelled_result : DeviceControlRequest → DeviceControlResult
cancelled_result request = record {
  request_id = request.request_id;
  status = cancelled;
  outputs = [];
  message = "control request cancelled during shutdown";
}

-- The first section of `request_stop`: what it takes out of the queue, or `none` where a stop was
-- requested before. `reserved` is false where `cancel_pending` throws for want of memory.
unfoldable pub begin_stop : Bool → Dispatcher → Option (List ControlOperation × Dispatcher)
begin_stop reserved d =
    if d.stopping
    then none
    else let q = close d.queue in
      let (operations, q') = if reserved then cancel_pending q else ([], q) in
      some (operations, record d { stopping = true; queue = q' })

-- one turn of its loop over what it took
unfoldable pub cancel : ControlOperation → Dispatcher → Dispatcher × List Effect
cancel operation d =
    let (s, effects) = complete operation (cancelled_result operation.request) d.stats in
    (record d { stats = s }, effects)

-- its last section
unfoldable pub end_stop : Dispatcher → Dispatcher
end_stop d = record d { stop_request_complete = true }

-- What `join` finds under the lifecycle mutex: it returns, it waits on the condition variable, or it
-- goes on to join the worker.
pub data Joining : Type 0 where
  returned : Joining
  waiting : Joining
  join_worker : Dispatcher → Joining

unfoldable pub begin_join : Dispatcher → Joining
begin_join d =
    if not d.started
    then returned
    else if not d.stop_request_complete
    then waiting
    else if d.joined
    then returned
    else if d.join_in_progress
    then waiting
    else join_worker (record d { join_in_progress = true })

-- after `worker_.join()`, which has returned or thrown
unfoldable pub end_join : Bool → Dispatcher → Dispatcher
end_join threw d =
    if threw
    then record d { join_in_progress = false }
    else record d { join_in_progress = false; joined = true }

unfoldable pub stats : Dispatcher → ControlStats
stats d = d.stats

unfoldable pub queue_stats : Dispatcher → ControlQueueStats
queue_stats d = Queue.stats d.queue
