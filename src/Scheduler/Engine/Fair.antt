-- ===== src/Scheduler/Engine/Fair.antt =====
-- Tasks take turns: the one just polled waits for those that fell due meanwhile.
use mini_gateway.Prelude.{
  ℕ, ◌≤◌, ◌<◌, ◌≡◌, ◌≢◌, subst, ap, ◌∙◌, some, arith, get_elem?, set, All, All-get_elem?,
  get_elem?-set_ne, get_elem?-set_eq,
}
use mini_gateway.Scheduler.{ScheduleTask, Slot, time_point_max}
use mini_gateway.Scheduler.Select.{Outranks}
use mini_gateway.Scheduler.Complete.{HasRoom}
use mini_gateway.Scheduler.Engine.{SchedulerEngine, Turn, polled, run_once}
use mini_gateway.Scheduler.Engine.Turns.{IsRunnable, RunsOnce, run_once-RunsOnce, polled-Chosen}

Outranks-le :
    (now : ℕ) (t u : ScheduleTask) → u.next_due ≤ now → Outranks now t u → t.next_due ≤ u.next_due
Outranks-le now t u due p = ground arith

-- On tasks with positive intervals and counters of 64 bits, if the interval of each task, in
-- nanoseconds, is a 64-bit signed number and can be added to the end of a poll without an overflow,
-- and the poll starts before the last time of the clock and does not finish before it starts: if
-- another task was due by the time the poll finished, the next poll after that time is not of the
-- same task again.
pub polled-polled :
    (e next last : SchedulerEngine) (turn later : Turn) (slot slot' : Slot) (j : ℕ)
    (other : ScheduleTask)
    → All IsRunnable e.tasks
    → All (HasRoom turn.finished_at) e.tasks
    → turn.now < time_point_max
    → turn.now ≤ turn.finished_at
    → run_once e turn ≡ polled slot next
    → get_elem? e.tasks j ≡ some other
    → slot.index ≢ j
    → other.next_due ≤ turn.finished_at
    → turn.finished_at ≤ later.now
    → run_once next later ≡ polled slot' last
    → slot'.index ≢ slot.index
polled-polled e next last turn later slot slot' j other ready room clock order first at j_ne due
      past second same =
    let (_, _, (t, tasks, after, _, _, _, _)) =
      subst (RunsOnce e turn) first (run_once-RunsOnce e turn ready room clock order) in
    let (here, _, before) = polled-Chosen next later second in
    let here' : get_elem? (set e.tasks slot.index t) slot.index ≡ some slot'.task =
      subst (λ i. get_elem? (set e.tasks slot.index t) i ≡ some slot'.task) same
        (subst (λ ts. get_elem? ts slot'.index ≡ some slot'.task) tasks here) in
    let is_t : slot'.task ≡ t = get_elem?-set_eq e.tasks slot.index t here' in
    let there : get_elem? next.tasks j ≡ some other =
      ap (λ ts. get_elem? ts j) tasks ∙ get_elem?-set_ne e.tasks slot.index j t j_ne ∙ at in
    let first_again = All-get_elem? (Outranks later.now slot'.task) next.tasks j before there in
    absurd (
      omega (
        arith,
        Outranks-le later.now slot'.task other (omega arith) first_again,
        ap (λ (u : ScheduleTask). u.next_due) is_t,
      ))
