-- ===== src/Scheduler/Engine/Rounds.antt =====
-- The rounds of the engine's loop, one after the other.
use mini_gateway.Prelude.{ℕ, ◌≤◌, ◌<◌, List, [], ◌∷◌}
use mini_gateway.Scheduler.{ScheduleTask, time_point_max}
use mini_gateway.Scheduler.Complete.{HasRoom}
use mini_gateway.Scheduler.Engine.{SchedulerEngine, Turn, run_once, after}
use mini_gateway.Scheduler.Engine.Turns.{IsRunnable, RunsOnce}

-- Every round does what a round is to do, on what the rounds before it left.
abbrev pub RunsAll : SchedulerEngine → List Turn → Type 0
RunsAll e [] = Unit
RunsAll e (turn ∷ turns) =
    RunsOnce e turn (run_once e turn) × RunsAll (after e (run_once e turn)) turns

-- A task as the policy admits it, whose interval leaves room up to a time.
abbrev pub IsSafe : ℕ → ScheduleTask → Type 0
IsSafe limit t = IsRunnable t × HasRoom limit t

-- A round that starts before the last time of the clock, and whose poll does not finish before it starts,
-- nor after the limit.
abbrev pub EndsBy : ℕ → Turn → Type 0
EndsBy limit turn =
    (turn.now < time_point_max) × (turn.now ≤ turn.finished_at) × (turn.finished_at ≤ limit)
