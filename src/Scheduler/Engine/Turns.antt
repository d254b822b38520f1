-- ===== src/Scheduler/Engine/Turns.antt =====
-- What the rounds of the engine do.
use mini_gateway.Prelude.{
  ◌≤◌, ◌<◌, ◌≡◌, refl, subst, ap, Bool, true, false, Option, none, some, arith, set, All,
  All-get_elem?, u64_max, increment, if◌then◌else◌,
}
use mini_gateway.Scheduler.{ScheduleTask, Slot, select_due, on_complete, time_point_max}
use mini_gateway.Scheduler.Select.{Chosen, select_due-Chosen, next_wakeup_lem}
use mini_gateway.Scheduler.Complete.{HasRoom, on_complete_lem}
use mini_gateway.Scheduler.Engine.{
  SchedulerEngine, Turn, Outcome, stopped, waits, polled, stuck, finish_poll, poll_selected,
  run_once,
}

-- A task as the policy's constructor admits it, with a counter in range.
abbrev pub IsRunnable : ScheduleTask → Type 0
IsRunnable t = (0 < t.interval) × (t.skipped_cycles ≤ u64_max)

-- What a round may do: it leaves the loop when stopping; it waits when no task is due, for a time
-- after now; or it polls a due task that precedes every due task, and puts it back rescheduled
-- after the completion, the other tasks as they were.
abbrev pub RunsOnce : SchedulerEngine → Turn → Outcome → Type 0
RunsOnce e turn stopped = e.stopping ≡ true
RunsOnce e turn (waits wakeup) =
    (e.stopping ≡ false) × All (λ t. turn.now < t.next_due) e.tasks × (turn.now < wakeup)
RunsOnce e turn (polled slot next) =
    (e.stopping ≡ false)
    × Chosen turn.now (some slot) e.tasks
    × ((t : ScheduleTask) × (next.tasks ≡ set e.tasks slot.index t)
        × (turn.finished_at < t.next_due)
        × IsRunnable t
        × (t.group_id ≡ slot.task.group_id)
        × (t.interval ≡ slot.task.interval)
        × (next.stats.executed ≡ increment e.stats.executed))
RunsOnce e turn stuck = ⊥

finish_poll-RunsOnce :
    (e : SchedulerEngine) (turn : Turn) (slot : Slot)
    → e.stopping ≡ false
    → Chosen turn.now (some slot) e.tasks
    → IsRunnable slot.task
    → HasRoom turn.finished_at slot.task
    → turn.now ≤ turn.finished_at
    → RunsOnce e turn (finish_poll e slot turn (on_complete slot.task turn.finished_at))
unfolding finish_poll
finish_poll-RunsOnce e turn slot going chosen (pos, bound) room order =
    let here : HasRoom slot.task.next_due slot.task =
      (room.0, omega (arith, room.1, chosen.1, order)) in
    let (k, e', past, first) = on_complete_lem slot.task turn.finished_at pos here room bound in
    rw e' (going, chosen, (_, refl, past, (pos, ground arith), refl, refl, refl))

poll_selected-RunsOnce :
    (e : SchedulerEngine) (turn : Turn) (selected : Option Slot)
    → select_due e.tasks turn.now ≡ selected
    → e.stopping ≡ false
    → All IsRunnable e.tasks
    → All (HasRoom turn.finished_at) e.tasks
    → turn.now < time_point_max
    → turn.now ≤ turn.finished_at
    → RunsOnce e turn (poll_selected e turn selected)
unfolding poll_selected
poll_selected-RunsOnce e turn none same going ready room clock order = (
  going,
  subst (λ o. Chosen turn.now o e.tasks) same (select_due-Chosen e.tasks turn.now),
  (next_wakeup_lem e.tasks turn.now clock same).0,
)
poll_selected-RunsOnce e turn (some slot) same going ready room clock order =
    let chosen : Chosen turn.now (some slot) e.tasks =
      subst (λ o. Chosen turn.now o e.tasks) same (select_due-Chosen e.tasks turn.now) in
    finish_poll-RunsOnce e turn slot going chosen
      (All-get_elem? IsRunnable e.tasks slot.index ready chosen.0)
      (All-get_elem? (HasRoom turn.finished_at) e.tasks slot.index room chosen.0) order

-- On tasks with positive intervals and counters of 64 bits, if the interval of each task, in
-- nanoseconds, is a 64-bit signed number and can be added to the time of the completion without an
-- overflow, if the round starts before the last time of the clock and its poll does not finish
-- before it starts: the round comes to an end, and does one of three things. It leaves the loop
-- because a stop is requested; or no task is due, and it waits for a time after now; or it polls a
-- due task that precedes every due task, counts the execution, and puts the task back with a due
-- time past the completion and all other tasks as they were.
pub run_once-RunsOnce :
    (e : SchedulerEngine) (turn : Turn)
    → All IsRunnable e.tasks
    → All (HasRoom turn.finished_at) e.tasks
    → turn.now < time_point_max
    → turn.now ≤ turn.finished_at
    → RunsOnce e turn (run_once e turn)
unfolding run_once
run_once-RunsOnce e turn ready room clock order = go e.stopping refl
  where
    go :
        (b : Bool)
        → e.stopping ≡ b
        → RunsOnce e turn
            (if b then stopped else poll_selected e turn (select_due e.tasks turn.now))
    go true is = is
    go false is =
        poll_selected-RunsOnce e turn (select_due e.tasks turn.now) refl is ready room clock order

-- The task that an outcome polls.
abbrev slot_of : Outcome → Option Slot
slot_of (polled slot next) = some slot
slot_of _ = none

finish_poll-slot :
    (e : SchedulerEngine) (slot : Slot) (turn : Turn) (completed : Option ScheduleTask) {s : Slot}
    → slot_of (finish_poll e slot turn completed) ≡ some s
    → some slot ≡ some s
unfolding finish_poll
finish_poll-slot e slot turn none h = absurd cc
finish_poll-slot e slot turn (some completed) h = h

poll_selected-slot :
    (e : SchedulerEngine) (turn : Turn) (selected : Option Slot) {s : Slot}
    → slot_of (poll_selected e turn selected) ≡ some s
    → selected ≡ some s
unfolding poll_selected
poll_selected-slot e turn none h = absurd cc
poll_selected-slot e turn (some slot) h =
    finish_poll-slot e slot turn (on_complete slot.task turn.finished_at) h

-- A poll is of the task that was chosen, whatever its rescheduling does.
pub polled-Chosen :
    (e : SchedulerEngine) (turn : Turn) {slot : Slot} {next : SchedulerEngine}
    → run_once e turn ≡ polled slot next
    → Chosen turn.now (some slot) e.tasks
unfolding run_once
polled-Chosen e turn {slot} same =
    subst (λ o. Chosen turn.now o e.tasks) (go e.stopping (ap slot_of same))
      (select_due-Chosen e.tasks turn.now)
  where
    go :
        (b : Bool)
        → slot_of (if b then stopped else poll_selected e turn (select_due e.tasks turn.now))
          ≡ some slot
        → select_due e.tasks turn.now ≡ some slot
    go true h = absurd cc
    go false h = poll_selected-slot e turn (select_due e.tasks turn.now) h
