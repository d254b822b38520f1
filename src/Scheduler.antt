-- ===== src/Scheduler.antt =====
-- include/gateway/scheduler.hpp and src/core/scheduler.cpp: the fixed-interval policy and the
-- engine that polls one task at a time. A time point is a 64-bit signed count of nanoseconds, kept
-- here as its distance from the smallest one, -2^63: the order of time points is then the order of
-- ℕ, and a sum is taken modulo 2^64. An interval is a number of milliseconds, not negative here.
pub mod Admit
pub mod Select
pub mod Complete
pub mod Engine
mod Tests
use mini_gateway.Prelude.{
  ℕ, zero, suc, ◌+◌, ◌-◌, ◌*◌, ◌%◌, ◌^◌, ◌≤◌, ◌<◌, String, concat, ◌≡◌, refl, Bool, true, false,
  ◌&&◌, ◌||◌, not, Option, none, some, List, [], ◌∷◌, ltb, leb, ◌==◌, str_eq, is_empty,
  if◌then◌else◌, length, set, member, u64_max, u64_mod, increment, saturating_add, Error,
  invalid_argument, logic_error, Result, ok, err, ◌>>=◌, ◌>>◌, throw_if,
}

pub record ScheduleTask : Type 0 where
  pub group_id : String
  pub interval : ℕ
  pub next_due : ℕ
  pub stable_order : ℕ
  pub skipped_cycles : ℕ

-- A time point and a number of milliseconds, which is converted to 64-bit nanoseconds and added. Both
-- wrap around where the signed arithmetic overflows.
abbrev pub milliseconds_after : ℕ → ℕ → ℕ
milliseconds_after time milliseconds = (time + milliseconds * 1_000_000 % u64_mod) % u64_mod

-- `TimePoint::max()`, the last of the 2^64 time points
abbrev pub time_point_max : ℕ
time_point_max = 2 ^ 64 - 1

-- the loop of the policy's constructor, with the ids seen so far
unfoldable pub check_tasks : List String → List ScheduleTask → Result (Unit {0})
check_tasks group_ids [] = ok tt
check_tasks group_ids (t ∷ ts) = do
  throw_if (is_empty t.group_id) (invalid_argument "schedule group id must not be empty")
  throw_if (leb t.interval 0)
      (invalid_argument (concat "schedule task interval must be positive: " t.group_id))
  throw_if (member t.group_id group_ids)
      (invalid_argument (concat "duplicate schedule group id: " t.group_id))
  check_tasks (t.group_id ∷ group_ids) ts

-- the constructor of `FixedIntervalSequentialPolicy`
unfoldable pub create_policy : List ScheduleTask → Result (List ScheduleTask)
unfolding check_tasks
create_policy tasks = do check_tasks [] tasks; ok tasks

-- A pointer into `tasks_`: the position, and the task found there.
pub record Slot : Type 0 where
  pub index : ℕ
  pub task : ScheduleTask

abbrev pub earlier : ScheduleTask → ScheduleTask → Bool
earlier t s =
    ltb t.next_due s.next_due || (t.next_due == s.next_due && ltb t.stable_order s.stable_order)

-- `selected == nullptr || …`
abbrev pub better : ScheduleTask → Option Slot → Bool
better t none = true
better t (some s) = earlier t s.task

-- the loop of `select_due` from position `i` on
unfoldable pub select_from : ℕ → ℕ → Option Slot → List ScheduleTask → Option Slot
select_from now i selected [] = selected
select_from now i selected (t ∷ ts) =
    select_from now (suc i)
      (if ltb now t.next_due
        then selected
        else if better t selected
        then some (record { index = i; task = t })
        else selected)
      ts

unfoldable pub select_due : List ScheduleTask → ℕ → Option Slot
unfolding select_from
select_due tasks now = select_from now 0 none tasks

-- the comparison of `next_wakeup`
abbrev pub wakes_before : ScheduleTask → ScheduleTask → Bool
wakes_before lhs rhs =
    if not (lhs.next_due == rhs.next_due)
    then ltb lhs.next_due rhs.next_due
    else ltb lhs.stable_order rhs.stable_order

-- one comparison of `std::min_element`, which keeps the first of equal elements
unfoldable pub smaller : ScheduleTask → ScheduleTask → ScheduleTask
smaller t smallest = if wakes_before t smallest then t else smallest

unfoldable pub min_from : ScheduleTask → List ScheduleTask → ScheduleTask
min_from smallest [] = smallest
min_from smallest (t ∷ ts) = min_from (smaller t smallest) ts

unfoldable pub next_wakeup : List ScheduleTask → ℕ
unfolding min_from smaller
next_wakeup [] = time_point_max
next_wakeup (t ∷ ts) = (min_from t ts).next_due

-- the body of the `while` loop of `on_complete`
abbrev pub skip_cycle : ScheduleTask → ScheduleTask
skip_cycle t = record t {
  next_due = milliseconds_after t.next_due t.interval;
  skipped_cycles = if ltb t.skipped_cycles u64_max then t.skipped_cycles + 1 else t.skipped_cycles;
}

-- the loop, on fuel: `none` means that the fuel ran out
unfoldable pub catch_up : ℕ → ℕ → ScheduleTask → Option ScheduleTask
catch_up zero finished_at t = none
catch_up (suc fuel) finished_at t =
    let rest = catch_up fuel finished_at (skip_cycle t) in
    if leb t.next_due finished_at then rest else some t

-- There are 2^64 time points, so a loop of more rounds comes back to one that it has left before, and
-- does not end: this fuel runs out only then.
unfoldable pub on_complete : ScheduleTask → ℕ → Option ScheduleTask
unfolding catch_up
on_complete t finished_at =
    catch_up (suc u64_mod) finished_at
      (record t { next_due = milliseconds_after t.next_due t.interval })
