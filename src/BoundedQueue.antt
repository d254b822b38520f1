-- ===== src/BoundedQueue.antt =====
-- include/gateway/bounded_queue.hpp: the queue of raw batches between the drivers and the
-- processing worker. Each method runs under the queue's mutex, so one call is one step; `wait_pop`
-- on an open, empty queue waits on the condition variable, which is the outcome `blocked`.
pub mod Fifo
pub mod Drain
mod Tests
use mini_gateway.Prelude.{
  ℕ, Bool, true, false, not, ◌||◌, List, [], ◌∷◌, ◌++◌, leb, ◌==◌, if◌then◌else◌, length, increment,
  Result, ok, err, Error, invalid_argument,
}

pub data EnqueueResult : Type 0 where
  accepted full stopping : EnqueueResult

pub record QueueStats : Type 0 where
  pub size : ℕ
  pub capacity : ℕ
  pub accepted : ℕ
  pub rejected_full : ℕ

-- The oldest entry is the head of the list.
pub record BoundedQueue {ℓ} (T : Type ℓ) : Type ℓ where
  pub capacity : ℕ
  pub queue : List T
  pub closed : Bool
  pub accepted : ℕ
  pub rejected_full : ℕ

-- The outcome of `wait_pop`: it waits, it returns false, or it returns true with a value.
pub data Popped {ℓ} (T : Type ℓ) : Type ℓ where
  blocked : Popped T
  finished : Popped T
  value : T → BoundedQueue T → Popped T

module _ {ℓ} {T : Type ℓ} where
  -- the constructor
  unfoldable pub create : ℕ → Result (BoundedQueue T)
  create capacity =
      if capacity == 0
      then err (invalid_argument "queue capacity must be positive")
      else ok (record {
        capacity = capacity;
        queue = [];
        closed = false;
        accepted = 0;
        rejected_full = 0;
      })

  unfoldable pub try_push : T → BoundedQueue T → EnqueueResult × BoundedQueue T
  try_push x q =
      if q.closed
      then (stopping, q)
      else if leb q.capacity (length q.queue)
      then (full, record q { rejected_full = increment q.rejected_full })
      else (accepted, record q { queue = q.queue ++ x ∷ []; accepted = increment q.accepted })

  abbrev pub has_items : List T → Bool
  has_items [] = false
  has_items (x ∷ xs) = true

  -- the part of `wait_pop` behind the wait
  unfoldable pub pop_front : List T → BoundedQueue T → Popped T
  pop_front [] q = finished
  pop_front (x ∷ xs) q = value x (record q { queue = xs })

  unfoldable pub wait_pop : BoundedQueue T → Popped T
  unfolding pop_front
  wait_pop q = if q.closed || has_items q.queue then pop_front q.queue q else blocked

  unfoldable pub close : BoundedQueue T → BoundedQueue T
  close q = record q { closed = true }

  unfoldable pub is_closed : BoundedQueue T → Bool
  is_closed q = q.closed

  unfoldable pub stats : BoundedQueue T → QueueStats
  stats q = record {
    size = length q.queue;
    capacity = q.capacity;
    accepted = q.accepted;
    rejected_full = q.rejected_full;
  }
