-- ===== src/Runtime/Work/Poll.antt =====
-- What one poll of a collection group does.
use mini_gateway.Prelude.{
  ◌^◌, ◌≤◌, ◌<◌, ℕ, ◌+◌, ◌*◌, ◌≡◌, Bool, true, false, String, concat, List, increment, Result, ok,
  err, Error, logic_error, ltb,
}
use mini_gateway.Model.{GatewayConfig, CollectionGroup, RawBatch}
use mini_gateway.BoundedQueue.{EnqueueResult, full, try_push}
use mini_gateway.Scheduler.{ScheduleTask, time_point_max}
use mini_gateway.Runtime.{find_group}
use mini_gateway.Runtime.Work.{PollAnswers, Acquisition, find_driver}

-- The group's timeout after the first look at the clock.
abbrev pub deadline_of : PollAnswers → CollectionGroup → ℕ
deadline_of a group = a.now + group.timeout * 1_000_000

-- The timeout can be converted to nanoseconds and added to the time without an overflow.
abbrev pub HasDeadline : PollAnswers → CollectionGroup → Type 0
HasDeadline a group = (group.timeout * 1_000_000 < 2 ^ 63) × (deadline_of a group ≤ time_point_max)

-- Where a poll is late, and where its batch is refused, by how much the counter grows.
abbrev pub count_if : Bool → ℕ → ℕ
count_if true n = increment n
count_if false n = n

abbrev pub is_full : EnqueueResult → Bool
is_full full = true
is_full _ = false

-- The group of the task, whose device has a driver.
abbrev IsDriven : GatewayConfig → List String → ScheduleTask → CollectionGroup → Type 0
IsDriven config drivers task group =
    (find_group config task.group_id ≡ ok group)
    × ((driver : String) × (find_driver drivers group.device_id ≡ ok driver))

-- Why a poll throws.
pub data Fails (config : GatewayConfig) (drivers : List String) (a : PollAnswers)
    (task : ScheduleTask) : Error → Type 0 where
  unknown_group :
      (thrown : Error)
      → find_group config task.group_id ≡ err thrown
      → Fails config drivers a task thrown
  no_driver :
      (group : CollectionGroup) (thrown : Error)
      → find_group config task.group_id ≡ ok group
      → find_driver drivers group.device_id ≡ err thrown
      → Fails config drivers a task thrown
  no_gate :
      (group : CollectionGroup)
      → IsDriven config drivers task group
      → a.has_gate ≡ false
      → Fails config drivers a task
          (logic_error (concat "device does not have an I/O gate: " group.device_id))
  poll_threw :
      (group : CollectionGroup) (thrown : Error)
      → IsDriven config drivers task group
      → (a.has_gate ≡ true) × (a.try_lock_until ≡ true)
      → a.poll group (deadline_of a group) ≡ err thrown
      → Fails config drivers a task thrown

-- The three ways in which a poll ends.
pub data IsPolled (config : GatewayConfig) (drivers : List String) (a : PollAnswers)
    (task : ScheduleTask) (s : Acquisition) : Result (Unit {0}) → Acquisition → Type 0 where
  threw :
      (thrown : Error) (after : Acquisition)
      → Fails config drivers a task thrown
      → after.raw_queue ≡ s.raw_queue
      → after.counters ≡ record s.counters { poll_errors = increment s.counters.poll_errors }
      → IsPolled config drivers a task s (err thrown) after
  missed :
      (group : CollectionGroup) (after : Acquisition)
      → IsDriven config drivers task group
      → (a.has_gate ≡ true) × (a.try_lock_until ≡ false)
      → after.raw_queue ≡ s.raw_queue
      → after.counters
        ≡ record s.counters { deadline_misses = increment s.counters.deadline_misses }
      → IsPolled config drivers a task s (ok tt) after
  polled :
      (group : CollectionGroup) (batch : RawBatch) (after : Acquisition)
      → IsDriven config drivers task group
      → (a.has_gate ≡ true) × (a.try_lock_until ≡ true)
      → a.poll group (deadline_of a group) ≡ ok batch
      → after.raw_queue ≡ (try_push batch s.raw_queue).1
      → after.counters.poll_errors ≡ s.counters.poll_errors
      → after.counters.polls ≡ increment s.counters.polls
      → after.counters.poll_queue_full
        ≡ count_if (is_full (try_push batch s.raw_queue).0) s.counters.poll_queue_full
      → after.counters.deadline_misses
        ≡ count_if (ltb (deadline_of a group) a.after) s.counters.deadline_misses
      → IsPolled config drivers a task s (ok tt) after

module _ (config : GatewayConfig) (drivers : List String) (a : PollAnswers) (task : ScheduleTask)
    (s : Acquisition) where
  abbrev outcome : Result Acquisition → Result (Unit {0}) × Acquisition
  outcome (ok after) = (ok tt, after)
  outcome (err thrown) = (
    err thrown,
    record s { counters = record s.counters { poll_errors = increment s.counters.poll_errors } },
  )

  EndsPoll : Result Acquisition → Type 0
  EndsPoll r = IsPolled config drivers a task s (outcome r).0 (outcome r).1
