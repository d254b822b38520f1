-- ===== src/Control/Service.antt =====
-- What the device control dispatcher of src/core/control.cpp promises, without its threads, its queue and
-- its statistics: it accepts operations until it is closed, and completes what it has accepted, each
-- once, in any order. What is pending is a multiset, which forgets where an operation is.
pub mod Steps
pub mod Conserved
pub mod Refines
use mini_gateway.Prelude.{◌≡◌, Bool, true, false, not, if◌then◌else◌, List, [], ◌∷◌, ◌++◌}
use mini_gateway.Control.{ControlSubmitResult}
use mini_gateway.Control.Queue.{ControlOperation}
use mini_gateway.Control.Dispatcher.{submit}
use mini_gateway.Control.Lifecycle.{
  System, Worker, running, Call, submit_request, execute_operation, cancel_operation, step,
}
use mini_gateway.Control.Lifecycle.Sound.{held}
use mathlib.Mathlib.Data.Multiset.Defs.{Multiset, of_list}
use mathlib.Mathlib.Data.Multiset.ZeroCons.{cons}

pub record Service : Type 0 where
  pub accepting : Bool
  pub pending : Multiset ControlOperation
  pub completed : List ControlOperation

-- What is seen of one call: a submission with its answer, or another call, and whether it is one that
-- may complete an operation.
pub data Event : Type 0 where
  submitted : ControlOperation → ControlSubmitResult → Event
  called : Bool → Event

abbrev pub is_accepted : ControlSubmitResult → Bool
is_accepted ControlSubmitResult.accepted = true
is_accepted _ = false

-- What one call may do to the service. An operation is accepted by its own submission only, and is
-- then pending; a call that works on operations may complete one that is pending; any other call
-- leaves the operations as they are, and may close the service.
pub data Serves : Event → Service → Service → Type 0 where
  rests :
      {works : Bool} {s t : Service}
      → t.accepting ≡ s.accepting
      → t.pending ≡ s.pending
      → t.completed ≡ s.completed
      → Serves (called works) s t
  refuses :
      {operation : ControlOperation} {result : ControlSubmitResult} {s t : Service}
      → is_accepted result ≡ false
      → t.accepting ≡ s.accepting
      → t.pending ≡ s.pending
      → t.completed ≡ s.completed
      → Serves (submitted operation result) s t
  accepts :
      {operation : ControlOperation} {s t : Service}
      → s.accepting ≡ true
      → t.accepting ≡ true
      → t.pending ≡ cons operation s.pending
      → t.completed ≡ s.completed
      → Serves (submitted operation ControlSubmitResult.accepted) s t
  completes :
      (operation : ControlOperation) {s t : Service}
      → t.accepting ≡ s.accepting
      → s.pending ≡ cons operation t.pending
      → t.completed ≡ s.completed ++ (operation ∷ [])
      → Serves (called true) s t
  closes :
      {s t : Service}
      → s.accepting ≡ true
      → t.accepting ≡ false
      → t.pending ≡ s.pending
      → t.completed ≡ s.completed
      → Serves (called false) s t

-- Any number of steps, the last one last, with what is seen of them.
pub data Trace : Service → List Event → Service → Type 0 where
  starts : {s : Service} → Trace s [] s
  goes_on :
      {s t u : Service} {events : List Event} {event : Event}
      → Trace s events t
      → Serves event t u
      → Trace s (events ++ event ∷ []) u

-- The operations whose submission was answered with `Accepted`, in order.
abbrev pub accepted_one : Event → List ControlOperation
accepted_one (submitted operation result) = if is_accepted result then operation ∷ [] else []
accepted_one (called works) = []

unfoldable pub accepted_of : List Event → List ControlOperation
accepted_of [] = []
accepted_of (event ∷ events) = accepted_one event ++ accepted_of events

abbrev pub new_service : Service
new_service = record { accepting = true; pending = of_list []; completed = [] }

-- The operations that the worker holds, those that are being cancelled, and those in the queue.
abbrev pub waiting_operations : System → List ControlOperation
waiting_operations s = held s.worker ++ (s.cancelling ++ s.dispatcher.queue.queue)

abbrev pub service_of : System → Service
service_of s = record {
  accepting = not s.dispatcher.stopping;
  pending = of_list (waiting_operations s);
  completed = s.completed;
}

-- What is seen of a call of the dispatcher's threads, and of a run of them.
unfoldable pub event_of : System → Call → Event
event_of s (submit_request request completion driver now) =
    submitted (record { request = request; completion = completion; enqueued_at = now })
      (submit request completion driver now s.dispatcher).0
event_of s (execute_operation a) = called true
event_of s cancel_operation = called true
event_of s _ = called false

unfoldable pub observe : System → List Call → List Event
observe s [] = []
observe s (c ∷ calls) = event_of s c ∷ observe (step s c) calls
