-- ===== src/Scheduler/Engine.antt =====
-- `SchedulerEngine` of include/gateway/scheduler.hpp and src/core/scheduler.cpp. The clock readings
-- of one round of `run` and the outcome of the poll callback come from outside: a `Turn`.
pub mod Turns
pub mod Fair
pub mod Rounds
pub mod Counts
use mini_gateway.Prelude.{
  ℕ, ◌+◌, ◌-◌, ◌%◌, ◌^◌, ltb, u64_mod, Bool, true, false, Option, none, some, List, [], ◌∷◌,
  if◌then◌else◌, set, increment, saturating_add, Error, invalid_argument, logic_error, Result, ok,
  err, ◌>>=◌, ◌>>◌, throw_if, not,
}
use mini_gateway.Scheduler.{ScheduleTask, Slot, select_due, next_wakeup, on_complete}

-- `nonnegative_nanoseconds(later - earlier)`; the difference wraps around to 64 bits, signed
abbrev pub nonnegative_nanoseconds : ℕ → ℕ → ℕ
nonnegative_nanoseconds later earlier =
    let value = (later + u64_mod - earlier) % u64_mod in if ltb value (2 ^ 63) then value else 0

pub record SchedulerStats : Type 0 where
  pub executed : ℕ
  pub errors : ℕ
  pub lateness_ns : ℕ
  pub duration_ns : ℕ
  pub skipped_cycles : ℕ

-- The policy is its task list; the callback is the environment's.
pub record SchedulerEngine : Type 0 where
  pub tasks : List ScheduleTask
  pub started : Bool
  pub stopping : Bool
  pub stats : SchedulerStats

abbrev pub no_stats : SchedulerStats
no_stats = record { executed = 0; errors = 0; lateness_ns = 0; duration_ns = 0; skipped_cycles = 0 }

-- the constructor: a policy or null, and whether the callback is callable
unfoldable pub create_engine : Option (List ScheduleTask) → Bool → Result SchedulerEngine
create_engine none poll = err (invalid_argument "schedule policy must not be null")
create_engine (some tasks) poll = do
  throw_if (not poll) (invalid_argument "poll callback must not be empty")
  ok (record { tasks = tasks; started = false; stopping = false; stats = no_stats })

unfoldable pub start : SchedulerEngine → Result SchedulerEngine
start e = do
  throw_if e.started (logic_error "scheduler has already been started")
  ok (record e { stopping = false; started = true })

unfoldable pub request_stop : SchedulerEngine → SchedulerEngine
request_stop e = record e { stopping = true }

-- `now`, `started_at`, `finished_at`, and whether the callback threw
pub record Turn : Type 0 where
  pub now : ℕ
  pub started_at : ℕ
  pub finished_at : ℕ
  pub failed : Bool

-- A round of the loop leaves it, waits until a time, or polls a task; `stuck` stands for a
-- rescheduling that does not end.
pub data Outcome : Type 0 where
  stopped : Outcome
  waits : ℕ → Outcome
  polled : Slot → SchedulerEngine → Outcome
  stuck : Outcome

-- the statistics of one poll, but for the skipped cycles
abbrev pub record_poll : SchedulerStats → ScheduleTask → Turn → SchedulerStats
record_poll s task turn = record s {
  executed = increment s.executed;
  errors = if turn.failed then increment s.errors else s.errors;
  lateness_ns =
      saturating_add s.lateness_ns (nonnegative_nanoseconds turn.started_at task.next_due);
  duration_ns =
      saturating_add s.duration_ns (nonnegative_nanoseconds turn.finished_at turn.started_at);
}

-- from `lock.lock()` to the end of the round, with the result of `on_complete`
unfoldable pub finish_poll : SchedulerEngine → Slot → Turn → Option ScheduleTask → Outcome
finish_poll e slot turn none = stuck
finish_poll e slot turn (some completed) =
    let stats = record_poll e.stats slot.task turn in
    polled slot (record e {
      tasks = set e.tasks slot.index completed;
      stats = record stats {
        skipped_cycles =
            saturating_add stats.skipped_cycles
              (completed.skipped_cycles - slot.task.skipped_cycles);
      };
    })

unfoldable pub poll_selected : SchedulerEngine → Turn → Option Slot → Outcome
unfolding finish_poll
poll_selected e turn none = waits (next_wakeup e.tasks)
poll_selected e turn (some slot) = finish_poll e slot turn (on_complete slot.task turn.finished_at)

-- one round of the loop of `run`
unfoldable pub run_once : SchedulerEngine → Turn → Outcome
unfolding poll_selected
run_once e turn = if e.stopping then stopped else poll_selected e turn (select_due e.tasks turn.now)

abbrev pub after : SchedulerEngine → Outcome → SchedulerEngine
after e stopped = e
after e (waits t) = e
after e (polled slot next) = next
after e stuck = e

-- `run`, over the rounds that the environment gives
unfoldable pub run : SchedulerEngine → List Turn → SchedulerEngine
run e [] = e
run e (turn ∷ turns) = run (after e (run_once e turn)) turns
