-- ===== src/Control/Lifecycle.antt =====
-- The threads of a `DeviceControlDispatcher`: sources that submit, the worker, the threads that stop and
-- join. A run is the list of their calls in the order in which the mutexes admit them.
pub mod Sound
pub mod Stops
pub mod Joins
pub mod Once
pub mod Delivered
use mini_gateway.Prelude.{
  ℕ, ◌+◌, Bool, true, false, not, ◌&&◌, Option, none, some, List, [], ◌∷◌, ◌++◌, if◌then◌else◌,
  Result, ok, err,
}
use mini_gateway.Control.{DeviceControlRequest, ControlSubmitResult, accepted}
use mini_gateway.Control.Queue.{
  ControlCompletion, ControlOperation, Popped, blocked, finished, popped, wait_pop,
}
use mini_gateway.Control.Dispatcher.{
  Dispatcher, Effect, deliver, start, submit, begin_stop, cancel, end_stop, Joining, returned,
  waiting, join_worker, begin_join, end_join,
}
use mini_gateway.Control.Execute.{Answers, execute}

-- The worker thread, between the statements of `run`.
pub data Worker : Type 0 where
  not_started : Worker
  idle : Worker
  running : ControlOperation → Worker
  exited : Worker

-- The dispatcher and its threads; `cancelling` is what `request_stop` has still to complete. The
-- history: the operations that `submit` accepted and those that were completed, and the effects.
pub record System : Type 0 where
  pub dispatcher : Dispatcher
  pub worker : Worker
  pub cancelling : List ControlOperation
  pub accepted : List ControlOperation
  pub completed : List ControlOperation
  pub effects : List Effect

pub data Call : Type 0 where
  start_dispatcher : Call
  submit_request : DeviceControlRequest → ControlCompletion → Result Bool → ℕ → Call
  take_operation : Call
  execute_operation : Answers → Call
  request_stop : Bool → Call
  cancel_operation : Call
  finish_stop : Call
  join_dispatcher : Call
  finish_join : Bool → Call

abbrev pub begin : Dispatcher → System
begin d = record {
  dispatcher = d;
  worker = not_started;
  cancelling = [];
  accepted = [];
  completed = [];
  effects = [];
}

unfoldable pub after_start : System → Result Dispatcher → System
after_start s (ok d) = record s { dispatcher = d; worker = idle }
after_start s (err thrown) = s

unfoldable pub after_submit : ControlOperation → System → ControlSubmitResult × Dispatcher → System
after_submit operation s (accepted, d) = record s {
  dispatcher = d;
  accepted = s.accepted ++ operation ∷ [];
}
after_submit operation s (_, d) = record s { dispatcher = d }

-- A worker that finds `wait_pop` false returns from `run`.
unfoldable pub after_take : System → Popped → System
after_take s blocked = s
after_take s finished = record s { worker = exited }
after_take s (popped operation q) = record s {
  worker = running operation;
  dispatcher = record s.dispatcher { queue = q };
}

unfoldable pub take : System → Worker → System
unfolding after_take
take s idle = after_take s (wait_pop s.dispatcher.queue)
take s _ = s

unfoldable pub run_operation : Answers → System → Worker → System
run_operation a s (running operation) =
    let (stats, effects) = execute a operation s.dispatcher.stats in
    record s {
      worker = idle;
      dispatcher = record s.dispatcher { stats = stats };
      completed = s.completed ++ operation ∷ [];
      effects = s.effects ++ effects;
    }
run_operation a s _ = s

unfoldable pub after_stop : System → Option (List ControlOperation × Dispatcher) → System
after_stop s none = s
after_stop s (some (operations, d)) = record s { dispatcher = d; cancelling = operations }

unfoldable pub cancel_next : System → List ControlOperation → System
cancel_next s [] = s
cancel_next s (operation ∷ rest) =
    let (d, effects) = cancel operation s.dispatcher in
    record s {
      dispatcher = d;
      cancelling = rest;
      completed = s.completed ++ operation ∷ [];
      effects = s.effects ++ effects;
    }

-- The loop of `request_stop` has ended.
unfoldable pub stop_finished : System → List ControlOperation → System
stop_finished s [] =
    if s.dispatcher.stopping then record s { dispatcher = end_stop s.dispatcher } else s
stop_finished s (_ ∷ _) = s

unfoldable pub after_join : System → Joining → System
after_join s returned = s
after_join s waiting = s
after_join s (join_worker d) = record s { dispatcher = d }

-- `worker_.join()` returns once the worker has returned; it may throw at any time.
unfoldable pub joined_worker : Bool → System → Worker → System
joined_worker false s exited =
    if s.dispatcher.join_in_progress
    then record s { dispatcher = end_join false s.dispatcher }
    else s
joined_worker true s worker =
    if s.dispatcher.join_in_progress
    then record s { dispatcher = end_join true s.dispatcher }
    else s
joined_worker _ s _ = s

unfoldable pub step : System → Call → System
unfolding after_start after_submit take run_operation after_stop cancel_next stop_finished
    after_join joined_worker
step s start_dispatcher = after_start s (start s.dispatcher)
step s (submit_request request completion driver now) =
    after_submit (record { request = request; completion = completion; enqueued_at = now }) s
      (submit request completion driver now s.dispatcher)
step s take_operation = take s s.worker
step s (execute_operation a) = run_operation a s s.worker
step s (request_stop reserved) = after_stop s (begin_stop reserved s.dispatcher)
step s cancel_operation = cancel_next s s.cancelling
step s finish_stop = stop_finished s s.cancelling
step s join_dispatcher = after_join s (begin_join s.dispatcher)
step s (finish_join threw) = joined_worker threw s s.worker

unfoldable pub run : System → List Call → System
run s [] = s
run s (c ∷ cs) = run (step s c) cs
