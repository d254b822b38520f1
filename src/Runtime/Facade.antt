-- ===== src/Runtime/Facade.antt =====
-- What src/core/runtime.cpp passes on to its parts: `submit_control` to the dispatcher, and `stats`, which
-- collects the counters of them all.
use mini_gateway.Prelude.{ℕ, Bool, not, Option, none, some, if◌then◌else◌, Result}
use mini_gateway.Model.{RawBatch}
use mini_gateway.BoundedQueue.{BoundedQueue, QueueStats}
use mini_gateway.BoundedQueue as BoundedQueue
use mini_gateway.Normalizer.{Normalizer, NormalizerStats}
use mini_gateway.Normalizer as Normalizer
use mini_gateway.Processing.{ProcessingPipeline, ProcessingStats}
use mini_gateway.Processing as Processing
use mini_gateway.Scheduler.Engine.{SchedulerEngine, SchedulerStats}
use mini_gateway.Scheduler.Engine as Engine
use mini_gateway.Control.{
  DeviceControlRequest, ControlSubmitResult, stopping, ControlQueueStats, ControlStats,
}
use mini_gateway.Control.Queue.{ControlCompletion}
use mini_gateway.Control.Dispatcher.{Dispatcher}
use mini_gateway.Control.Dispatcher as Dispatcher
use mini_gateway.Runtime.Work.{Counters}

-- `driver` and `now` are what the dispatcher asks for.
unfoldable pub submit_control :
    Bool
    → DeviceControlRequest
    → ControlCompletion
    → Result Bool
    → ℕ
    → Option Dispatcher
    → ControlSubmitResult × Option Dispatcher
unfolding Dispatcher.submit
submit_control accepting_controls request completion driver now none = (stopping, none)
submit_control accepting_controls request completion driver now (some d) =
    if not accepting_controls
    then (stopping, some d)
    else let (result, d') = Dispatcher.submit request completion driver now d in (result, some d')

pub record AcquisitionStats : Type 0 where
  pub polls : ℕ
  pub errors : ℕ
  pub deadline_misses : ℕ
  pub queue_full : ℕ

pub record EventPublisherStats : Type 0 where
  pub attempts : ℕ
  pub accepted : ℕ
  pub unavailable : ℕ
  pub rejected : ℕ
  pub errors : ℕ

pub record RuntimeStats : Type 0 where
  pub raw_queue : QueueStats
  pub control_queue : ControlQueueStats
  pub control : ControlStats
  pub normalizer : NormalizerStats
  pub processing : ProcessingStats
  pub acquisition : AcquisitionStats
  pub scheduler : SchedulerStats
  pub event_publishers : EventPublisherStats
  pub delivered_events : ℕ

-- `ControlQueueStats{}`
abbrev pub no_queue_stats : ControlQueueStats
no_queue_stats = record {
  size = 0;
  capacity = 0;
  max_size = 0;
  accepted = 0;
  rejected_full = 0;
  cancelled = 0;
}

unfoldable pub stats :
    {P W : Type 0}
    → BoundedQueue RawBatch
    → Option Dispatcher
    → Normalizer
    → ProcessingPipeline P W
    → Option SchedulerEngine
    → Counters
    → RuntimeStats
unfolding BoundedQueue.stats Normalizer.stats Processing.stats Dispatcher.queue_stats
stats raw_queue control_dispatcher normalizer pipeline scheduler c = record {
  raw_queue = BoundedQueue.stats raw_queue;
  control_queue = elim control_dispatcher [
    | none ↦ no_queue_stats
    | some d ↦ Dispatcher.queue_stats d
  ];
  control = elim control_dispatcher [ none ↦ Dispatcher.no_stats | some d ↦ Dispatcher.stats d ];
  normalizer = Normalizer.stats normalizer;
  processing = Processing.stats pipeline;
  acquisition = record {
    polls = c.polls;
    errors = c.poll_errors;
    deadline_misses = c.deadline_misses;
    queue_full = c.poll_queue_full;
  };
  scheduler = elim scheduler [ none ↦ Engine.no_stats | some e ↦ e.stats ];
  event_publishers = record {
    attempts = c.attempts;
    accepted = c.accepted;
    unavailable = c.unavailable;
    rejected = c.rejected;
    errors = c.errors;
  };
  delivered_events = c.delivered_events;
}
