-- ===== src/Control/Queue.antt =====
-- `ControlQueue` of src/core/control.cpp and control_internal.hpp: the bounded queue of accepted
-- operations. Each method runs under the queue's mutex, so one call is one step. A completion is
-- known by a number; an empty `std::function` is `none`.
use mini_gateway.Prelude.{
  ℕ, max, ◌≡◌, refl, ap, Bool, true, false, Option, List, [], ◌∷◌, ◌++◌, leb, ◌==◌, if◌then◌else◌,
  length, increment, Result, ok, err, invalid_argument,
}
use mini_gateway.Control.{
  DeviceControlRequest, ControlSubmitResult, accepted, queue_full, stopping, ControlQueueStats,
}

abbrev pub ControlCompletion : Type 0
ControlCompletion = Option ℕ

pub record ControlOperation : Type 0 where
  pub request : DeviceControlRequest
  pub completion : ControlCompletion
  pub enqueued_at : ℕ

pub record ControlQueue : Type 0 where
  pub capacity : ℕ
  pub queue : List ControlOperation
  pub closed : Bool
  pub max_size : ℕ
  pub accepted : ℕ
  pub rejected_full : ℕ
  pub cancelled : ℕ

-- the constructor
unfoldable pub create : ℕ → Result ControlQueue
create capacity =
    if capacity == 0
    then err (invalid_argument "control queue capacity must be positive")
    else ok (record {
      capacity = capacity;
      queue = [];
      closed = false;
      max_size = 0;
      accepted = 0;
      rejected_full = 0;
      cancelled = 0;
    })

-- `now` is what `ControlClock::now()` reads.
unfoldable pub try_push :
    DeviceControlRequest → ControlCompletion → ℕ → ControlQueue → ControlSubmitResult × ControlQueue
try_push request completion now q =
    if q.closed
    then (stopping, q)
    else if leb q.capacity (length q.queue)
    then (queue_full, record q { rejected_full = increment q.rejected_full })
    else let queue =
        q.queue ++ record { request = request; completion = completion; enqueued_at = now } ∷ [] in
      (
        accepted,
        record q {
          queue = queue;
          max_size = max q.max_size (length queue);
          accepted = increment q.accepted;
        },
      )

-- The outcome of `wait_pop`: it waits, it returns false, or it returns true with an operation.
pub data Popped : Type 0 where
  blocked : Popped
  finished : Popped
  popped : ControlOperation → ControlQueue → Popped

unfoldable pub wait_pop : ControlQueue → Popped
wait_pop q = elim q.queue [
  | [] ↦ if q.closed then finished else blocked
  | operation ∷ rest ↦ popped operation (record q { queue = rest })
]

unfoldable pub close : ControlQueue → ControlQueue
close q = record q { closed = true }

-- the loop of `cancel_pending`: what is cancelled, and `cancelled_`
unfoldable pub pop_all : List ControlOperation → ℕ → List ControlOperation × ℕ
pop_all [] cancelled = ([], cancelled)
pop_all (operation ∷ rest) cancelled =
    let (operations, cancelled') = pop_all rest (increment cancelled) in
    (operation ∷ operations, cancelled')

unfoldable pub cancel_pending : ControlQueue → List ControlOperation × ControlQueue
unfolding pop_all
cancel_pending q =
    let (operations, cancelled) = pop_all q.queue q.cancelled in
    (operations, record q { queue = []; cancelled = cancelled })

unfoldable pub is_closed : ControlQueue → Bool
is_closed q = q.closed

unfoldable pub stats : ControlQueue → ControlQueueStats
stats q = record {
  size = length q.queue;
  capacity = q.capacity;
  max_size = q.max_size;
  accepted = q.accepted;
  rejected_full = q.rejected_full;
  cancelled = q.cancelled;
}

pub pop_all_lem :
    (operations : List ControlOperation) (cancelled : ℕ)
    → (pop_all operations cancelled).0 ≡ operations
unfolding pop_all
pop_all_lem [] cancelled = refl
pop_all_lem (operation ∷ rest) cancelled =
    ap (◌∷◌ operation) (pop_all_lem rest (increment cancelled))
