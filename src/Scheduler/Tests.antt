-- ===== src/Scheduler/Tests.antt =====
-- Runs of the scheduler, and the theorems at concrete inputs.
use mini_gateway.Prelude.{
  ℕ, suc, ◌+◌, ◌*◌, ◌%◌, ◌≤◌, ◌<◌, min, ◌≡◌, ◌≢◌, refl, ◌⊎◌, true, false, none, some, List, [], ◌∷◌,
  arith, All, u64_max, u64_mod, String, ◌^◌, ok, err, saturating_add, member, invalid_argument,
}
use mini_gateway.Scheduler.{
  ScheduleTask, milliseconds_after, catch_up, create_policy, select_due, next_wakeup, on_complete,
}
use mini_gateway.Scheduler.Admit.{IsSchedule, create_policy-Admits}
use mini_gateway.Scheduler.Select.{Chosen, select_due-Chosen, next_wakeup_lem}
use mini_gateway.Scheduler.Complete.{HasRoom, on_complete_lem, on_complete_endless}
use mini_gateway.Scheduler.Engine.{SchedulerEngine, Turn, no_stats, run_once, run, after}
use mini_gateway.Scheduler.Engine.Turns.{IsRunnable, RunsOnce, run_once-RunsOnce}
use mini_gateway.Scheduler.Engine.Fair.{polled-polled}
use mini_gateway.Scheduler.Engine.Counts.{polls_of, failures_of, run_counts}

-- every 10 ms, due at 12 ms
abbrev fast : ScheduleTask
fast = record {
  group_id = "fast";
  interval = 10;
  next_due = 12_000_000;
  stable_order = 0;
  skipped_cycles = 0;
}

-- every 50 ms, due at 12 ms
abbrev slow : ScheduleTask
slow = record {
  group_id = "slow";
  interval = 50;
  next_due = 12_000_000;
  stable_order = 1;
  skipped_cycles = 0;
}

abbrev plan : List ScheduleTask
plan = fast ∷ slow ∷ []

create_policy_rejects :
    (create_policy (fast ∷ fast ∷ []) ≡ err (invalid_argument "duplicate schedule group id: fast"))
    × (create_policy (record fast { interval = 0 } ∷ [])
        ≡ err (invalid_argument "schedule task interval must be positive: fast"))
unfolding create_policy member
create_policy_rejects = (refl, refl)

select_due_tie : select_due plan 20_000_000 ≡ some (record { index = 0; task = fast })
unfolding select_due
select_due_tie = refl

on_complete_late :
    on_complete fast 45_000_000 ≡ some (record fast { next_due = 52_000_000; skipped_cycles = 3 })
unfolding on_complete
on_complete_late = refl

-- An interval of 2^58 milliseconds is admitted, but is 0 nanoseconds in 64 bits: the task stays due.
abbrev endless : ScheduleTask
endless = record fast { interval = 2 ^ 58 }

endless_is_admitted : create_policy (endless ∷ []) ≡ ok (endless ∷ [])
unfolding create_policy member
endless_is_admitted = refl

on_complete_endless_example :
    (on_complete endless 45_000_000 ≡ none)
    × ((rounds : ℕ)
        → catch_up rounds 45_000_000
            (record endless { next_due = milliseconds_after 12_000_000 (2 ^ 58) })
          ≡ none)
on_complete_endless_example =
    on_complete_endless endless 45_000_000 (omega arith) refl (omega arith)

create_policy-Admits_example :
    (IsSchedule plan × (create_policy plan ≡ ok plan))
    ⊎ ((¬ IsSchedule plan) × ((text : String) × (create_policy plan ≡ err (invalid_argument text))))
create_policy-Admits_example = create_policy-Admits plan

select_due-Chosen_example : Chosen 20_000_000 (select_due plan 20_000_000) plan
select_due-Chosen_example = select_due-Chosen plan 20_000_000

next_wakeup_lem_example :
    (5 < next_wakeup plan)
    × All (λ t. next_wakeup plan ≤ t.next_due) plan
    × ((plan ≡ []) ⊎ (select_due plan (next_wakeup plan) ≢ none))
unfolding select_due
next_wakeup_lem_example = next_wakeup_lem plan 5 (omega arith) refl

on_complete_lem_example :
    (k : ℕ) × (on_complete fast 45_000_000
      ≡ some (record fast {
        next_due = 12_000_000 + suc k * 10_000_000;
        skipped_cycles = min (0 + k) u64_max;
      }))
    × (45_000_000 < 12_000_000 + suc k * 10_000_000)
    × ((k ≡ 0) ⊎ (12_000_000 + k * 10_000_000 ≤ 45_000_000))
on_complete_lem_example =
    on_complete_lem fast 45_000_000 (omega arith) (omega arith) (omega arith) (omega arith)

abbrev engine : SchedulerEngine
engine = record { tasks = plan; started = true; stopping = false; stats = no_stats }

abbrev first : Turn
first = record {
  now = 20_000_000;
  started_at = 20_000_100;
  finished_at = 45_000_000;
  failed = false;
}

abbrev second : Turn
second = record {
  now = 60_000_000;
  started_at = 60_000_000;
  finished_at = 61_000_000;
  failed = true;
}

plan-IsRunnable : All IsRunnable plan
plan-IsRunnable = omega arith

plan-HasRoom : All (HasRoom first.finished_at) plan
plan-HasRoom = omega arith

run_once-RunsOnce_example : RunsOnce engine first (run_once engine first)
run_once-RunsOnce_example =
    run_once-RunsOnce engine first plan-IsRunnable plan-HasRoom (omega arith) (omega arith)

run_counts_example :
    ((run engine (first ∷ second ∷ [])).stats.executed % u64_mod
      ≡ (0 + polls_of engine (first ∷ second ∷ [])) % u64_mod)
    × ((run engine (first ∷ second ∷ [])).stats.errors % u64_mod
        ≡ (0 + failures_of engine (first ∷ second ∷ [])) % u64_mod)
    × (failures_of engine (first ∷ second ∷ []) ≤ polls_of engine (first ∷ second ∷ []))
run_counts_example = run_counts engine (first ∷ second ∷ [])

-- The task polled first is due again when the second poll starts, but `slow` has waited longer.
abbrev after_first : SchedulerEngine
after_first = after engine (run_once engine first)

polled-polled_example : ◌≢◌ {A = ℕ} 1 0
unfolding run_once select_due on_complete saturating_add
polled-polled_example =
    polled-polled engine after_first (after after_first (run_once after_first second)) first second
      (record { index = 0; task = fast }) (record { index = 1; task = slow }) 1 slow plan-IsRunnable
      plan-HasRoom (omega arith) (omega arith) refl refl (omega arith) (omega arith) (omega arith)
      refl
