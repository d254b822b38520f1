-- ===== src/Runtime/Work.antt =====
-- The work of the runtime's threads in src/core/runtime.cpp: `poll_group`, which the scheduler calls,
-- and `publish_event` and the loop of `process_batches`, which the processing worker runs. Drivers,
-- publishers and processors are plugins: their types and calls are parameters, and `W` is the
-- world that they change.
pub mod Counts
pub mod Poll
use mini_gateway.Prelude.{
  ℕ, ◌+◌, ◌*◌, Bool, true, false, not, String, concat, Option, none, some, List, [], ◌∷◌, ltb,
  if◌then◌else◌, increment, Result, ok, err, ◌>>=◌, Error, invalid_argument, logic_error,
}
use mini_gateway.Prelude.Int.{ℤ}
use mini_gateway.Model.{GatewayConfig, CollectionGroup, RawBatch, Event}
use mini_gateway.Model.Std.{Platform}
use mini_gateway.BoundedQueue.{BoundedQueue, EnqueueResult, full, try_push}
use mini_gateway.Scheduler.{ScheduleTask, milliseconds_after}
use mini_gateway.Normalizer.{Normalizer, normalize}
use mini_gateway.Processing.{ProcessingPipeline, ProcessingContext, Processed, process}
use mini_gateway.Runtime.{find_if, find_group}

pub record Counters : Type 0 where
  pub polls : ℕ
  pub poll_errors : ℕ
  pub deadline_misses : ℕ
  pub poll_queue_full : ℕ
  pub delivered_events : ℕ
  pub attempts : ℕ
  pub accepted : ℕ
  pub unavailable : ℕ
  pub rejected : ℕ
  pub errors : ℕ

-- `find_driver`, by the ids of the driver instances
unfoldable pub find_driver : List String → String → Result String
unfolding find_if
find_driver drivers device_id = elim (find_if (λ d. d) device_id drivers) [
  | none ↦ err (invalid_argument (concat "group references device without driver: " device_id))
  | some driver ↦ ok driver
]

-- The answers to one `poll_group`, in the order in which it asks; times are as in the scheduler's model.
pub record PollAnswers : Type 0 where
  pub now : ℕ
  pub has_gate : Bool
  pub try_lock_until : Bool
  pub poll : CollectionGroup → ℕ → Result RawBatch
  pub after : ℕ

pub record Acquisition : Type 0 where
  pub counters : Counters
  pub raw_queue : BoundedQueue RawBatch

-- from the return of `poll` to the end of the `try` block
unfoldable pub enqueue : PollAnswers → ℕ → RawBatch → Acquisition → Acquisition
enqueue a deadline batch s =
    let c = s.counters in
    let (result, queue) = try_push batch s.raw_queue in
    record {
      counters = record c {
        deadline_misses =
            if ltb deadline a.after then increment c.deadline_misses else c.deadline_misses;
        poll_queue_full = elim result [
          | full ↦ increment c.poll_queue_full
          | _ ↦ c.poll_queue_full
        ];
        polls = increment c.polls;
      };
      raw_queue = queue;
    }

-- from the gate on
unfoldable pub poll_device : PollAnswers → CollectionGroup → Acquisition → Result Acquisition
unfolding enqueue
poll_device a group s =
    let deadline = milliseconds_after a.now group.timeout in
    if not a.has_gate
    then err (logic_error (concat "device does not have an I/O gate: " group.device_id))
    else if not a.try_lock_until
    then ok (record s {
      counters = record s.counters { deadline_misses = increment s.counters.deadline_misses };
    })
    else do batch ← a.poll group deadline; ok (enqueue a deadline batch s)

-- the `try` block, which changes nothing before it throws
unfoldable pub try_poll :
    GatewayConfig → List String → PollAnswers → ScheduleTask → Acquisition → Result Acquisition
unfolding find_driver poll_device
try_poll config drivers a task s = do
  group ← find_group config task.group_id
  driver ← find_driver drivers group.device_id
  poll_device a group s

-- The exception is counted and thrown again, for the scheduler.
unfoldable pub poll_group :
    GatewayConfig
    → List String
    → PollAnswers
    → ScheduleTask
    → Acquisition
    → Result (Unit {0}) × Acquisition
unfolding try_poll
poll_group config drivers a task s = elim (try_poll config drivers a task s) [
  | ok s' ↦ (ok tt, s')
  | err thrown ↦ (
    err thrown,
    record s { counters = record s.counters { poll_errors = increment s.counters.poll_errors } },
  )
]

pub data EventPublishResult : Type 0 where
  accepted unavailable rejected : EventPublishResult

-- the `switch` of `publish_event`, and its `catch`
unfoldable pub count_publish : Result EventPublishResult → Counters → Counters
count_publish (ok accepted) c = record c { accepted = increment c.accepted }
count_publish (ok unavailable) c = record c { unavailable = increment c.unavailable }
count_publish (ok rejected) c = record c { rejected = increment c.rejected }
count_publish (err thrown) c = record c { errors = increment c.errors }

module _ {Q W : Type 0} (publish : Q → Event → W → Result EventPublishResult × W) where
  unfoldable pub publish_event : List Q → Event → W → Counters → W × Counters
  unfolding count_publish
  publish_event [] event w c = (w, c)
  publish_event (q ∷ qs) event w c =
      let (result, w') = publish q event w in
      publish_event qs event w'
        (count_publish result (record c { attempts = increment c.attempts }))

-- What the processing worker works on.
pub record Processing (P W : Type 0) : Type 0 where
  pub normalizer : Normalizer
  pub pipeline : ProcessingPipeline P W
  pub counters : Counters
  pub world : W

module _ {P Q W : Type 0} (std : Platform)
    (process_one : P → ProcessingContext W → Event → W → Processed P W)
    (publish : Q → Event → W → Result EventPublishResult × W) (publishers : List Q) where
  -- one turn of the loop; the times are those that `normalize` and `process` read
  unfoldable pub process_batch : ℤ → ℤ → RawBatch → Processing P W → Processing P W
  unfolding publish_event
  process_batch received_at now_ns batch s =
      let (event, normalizer) = normalize std s.normalizer received_at batch in
      let (pipeline, event', w) = process process_one s.pipeline now_ns event s.world in
      let delivered = record s.counters {
        delivered_events = increment s.counters.delivered_events;
      } in
      let (w', counters) = publish_event publish publishers event' w delivered in
      record { normalizer = normalizer; pipeline = pipeline; counters = counters; world = w' }

  -- the loop, on the batches that `wait_pop` gives with their times
  unfoldable pub process_batches : List (ℤ × ℤ × RawBatch) → Processing P W → Processing P W
  unfolding process_batch
  process_batches [] s = s
  process_batches ((received_at, now_ns, batch) ∷ rest) s =
      process_batches rest (process_batch received_at now_ns batch s)
