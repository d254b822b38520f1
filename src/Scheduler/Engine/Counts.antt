-- ===== src/Scheduler/Engine/Counts.antt =====
-- The statistics over many rounds.
use mini_gateway.Prelude.{ℕ, ◌+◌, ◌%◌, ◌≤◌, ◌≡◌, List, [], ◌∷◌, arith, u64_mod, if◌then◌else◌}
use mini_gateway.Scheduler.Engine.{
  SchedulerEngine, Turn, Outcome, stopped, polled, run_once, after, run,
}

-- Whether a round polled a task, and whether the callback threw.
abbrev polls : Outcome → ℕ
polls (polled slot next) = 1
polls _ = 0

abbrev failures : Outcome → Turn → ℕ
failures (polled slot next) turn = if turn.failed then 1 else 0
failures _ turn = 0

pub polls_of : SchedulerEngine → List Turn → ℕ
polls_of e [] = 0
polls_of e (turn ∷ turns) = polls (run_once e turn) + polls_of (after e (run_once e turn)) turns

pub failures_of : SchedulerEngine → List Turn → ℕ
failures_of e [] = 0
failures_of e (turn ∷ turns) =
    failures (run_once e turn) turn + failures_of (after e (run_once e turn)) turns

counts_once :
    (e : SchedulerEngine) (turn : Turn)
    → let next = after e (run_once e turn) in
      (next.stats.executed % u64_mod ≡ (e.stats.executed + polls (run_once e turn)) % u64_mod)
      × (next.stats.errors % u64_mod ≡ (e.stats.errors + failures (run_once e turn) turn) % u64_mod)
unfolding run_once
counts_once e turn = ground arith

failures-le : (o : Outcome) (turn : Turn) → failures o turn ≤ polls o
failures-le stopped turn = omega arith
failures-le (polled slot next) turn = ground arith
failures-le o turn = omega arith

pub failures_of-le :
    (e : SchedulerEngine) (turns : List Turn) → failures_of e turns ≤ polls_of e turns
unfolding failures_of polls_of
failures_of-le e [] = omega arith
failures_of-le e (turn ∷ turns) =
    omega
      (arith, failures-le (run_once e turn) turn, failures_of-le (after e (run_once e turn)) turns)

run_counts_from :
    (e : SchedulerEngine) (turns : List Turn)
    → ((run e turns).stats.executed % u64_mod ≡ (e.stats.executed + polls_of e turns) % u64_mod)
      × ((run e turns).stats.errors % u64_mod ≡ (e.stats.errors + failures_of e turns) % u64_mod)
unfolding run polls_of failures_of
run_counts_from e [] = (omega arith, omega arith)
run_counts_from e (turn ∷ turns) =
    let next = after e (run_once e turn) in
    let (polled_all, failed_all) = run_counts_from next turns in
    let (polled_one, failed_one) = counts_once e turn in
    (omega (arith, polled_all, polled_one), omega (arith, failed_all, failed_one))

-- Over any rounds, `executed` grows by the number of polls and `errors` by the number of polls that
-- threw, modulo 2^64, and no more polls throw than there are.
pub run_counts :
    (e : SchedulerEngine) (turns : List Turn)
    → ((run e turns).stats.executed % u64_mod ≡ (e.stats.executed + polls_of e turns) % u64_mod)
      × ((run e turns).stats.errors % u64_mod ≡ (e.stats.errors + failures_of e turns) % u64_mod)
      × (failures_of e turns ≤ polls_of e turns)
run_counts e turns =
    ((run_counts_from e turns).0, (run_counts_from e turns).1, failures_of-le e turns)
