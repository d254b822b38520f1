-- ===== src/Scheduler/Complete.antt =====
-- The rescheduling of a completed task: `on_complete` keeps the phase, skips the missed cycles and
-- counts them, as long as its sums stay within the time points.
use mini_gateway.Prelude.{
  ℕ, zero, suc, ◌+◌, ◌-◌, ◌*◌, ◌%◌, ◌^◌, ◌≤◌, ◌<◌, min, ◌≡◌, refl, ap, ◌∙◌, ◌⊎◌, inl, inr, none,
  some, arith, leb, ltb, if◌then◌else◌, u64_max, u64_mod, le→leb, Bool-cases,
}
use mini_gateway.Scheduler.{
  ScheduleTask, time_point_max, milliseconds_after, skip_cycle, catch_up, on_complete,
}

-- The exact number of nanoseconds of an interval.
abbrev pub period : ScheduleTask → ℕ
period t = t.interval * 1_000_000

-- The interval can be converted to nanoseconds and added to the time without an overflow.
abbrev pub HasRoom : ℕ → ScheduleTask → Type 0
HasRoom time t = (period t < 2 ^ 63) × (time + period t ≤ time_point_max)

milliseconds_after_lem :
    (time : ℕ) (t : ScheduleTask)
    → HasRoom time t
    → milliseconds_after time t.interval ≡ time + period t
milliseconds_after_lem time t (small, room) = omega arith

-- `t` moved on by `k` intervals, as `k` rounds of the loop do.
abbrev pub moved : ScheduleTask → ℕ → ScheduleTask
moved t k = record t {
  next_due = t.next_due + k * period t;
  skipped_cycles = min (t.skipped_cycles + k) u64_max;
}

-- a round without an overflow
abbrev skip : ScheduleTask → ScheduleTask
skip t = record t {
  next_due = t.next_due + period t;
  skipped_cycles = if ltb t.skipped_cycles u64_max then t.skipped_cycles + 1 else t.skipped_cycles;
}

skip_cycle_lem : (t : ScheduleTask) → HasRoom t.next_due t → skip_cycle t ≡ skip t
skip_cycle_lem t room = rw (milliseconds_after_lem t.next_due t room) refl

moved_one_more : (t : ScheduleTask) (k : ℕ) → moved (skip t) k ≡ moved t (suc k)
moved_one_more t k = ground arith

catch_up_moves :
    (fuel finished_at : ℕ) (t : ScheduleTask)
    → 0 < t.interval
    → HasRoom finished_at t
    → t.skipped_cycles ≤ u64_max
    → suc finished_at - t.next_due < fuel
    → (k : ℕ) × (catch_up fuel finished_at t ≡ some (moved t k))
      × (finished_at < (moved t k).next_due)
      × ((k ≡ 0) ⊎ ((moved t k).next_due ≤ finished_at + period t))
unfolding catch_up
catch_up_moves zero finished_at t pos room bound h = absurd (omega arith)
catch_up_moves (suc fuel) finished_at t pos room bound h =
    elim (Bool-cases (leb t.next_due finished_at)) [
      | inr done ↦ (0, rw done (ground arith), ground arith, inl refl)
      | inl late ↦
          let here : HasRoom t.next_due t = (room.0, ground arith) in
          let (k, e, after, near) =
            catch_up_moves fuel finished_at (skip t) pos room (ground arith) (ground arith) in
          (
            suc k,
            rw (late, skip_cycle_lem t here) (rw (← moved_one_more t k) e),
            ground (arith, after),
            inr (ground (arith, near, late)),
          )
    ]

moved_due :
    (t : ScheduleTask) (k : ℕ)
    → t.next_due + period t + k * period t ≡ t.next_due + suc k * period t
moved_due t k = grind arith

moved_next :
    (t : ScheduleTask) (k : ℕ)
    → some (moved (record t { next_due = t.next_due + period t }) k)
      ≡ some (record t {
        next_due = t.next_due + suc k * period t;
        skipped_cycles = min (t.skipped_cycles + k) u64_max;
      })
moved_next t k =
    ap
      (λ due.
        some (record t { next_due = due; skipped_cycles = min (t.skipped_cycles + k) u64_max }))
      (moved_due t k)

near_next :
    (t : ScheduleTask) (k finished_at : ℕ)
    → (k ≡ 0) ⊎ (t.next_due + period t + k * period t ≤ finished_at + period t)
    → (k ≡ 0) ⊎ (t.next_due + k * period t ≤ finished_at)
near_next t k finished_at (inl first) = inl first
near_next t k finished_at (inr near) = inr (grind (arith, near))

-- For a task with a positive interval, whose interval in nanoseconds is a 64-bit signed number and
-- can be added to its due time and to the time of the completion without an overflow, the loop of
-- `on_complete` ends. The task is then due after the completion, a whole number of intervals after
-- its old due time: the first such time past the completion, or the very next cycle; each interval
-- beyond the first is one skipped cycle, counted up to the largest 64-bit value.
pub on_complete_lem :
    (t : ScheduleTask) (finished_at : ℕ)
    → 0 < t.interval
    → HasRoom t.next_due t
    → HasRoom finished_at t
    → t.skipped_cycles ≤ u64_max
    → (k : ℕ) × (on_complete t finished_at
        ≡ some (record t {
          next_due = t.next_due + suc k * period t;
          skipped_cycles = min (t.skipped_cycles + k) u64_max;
        }))
      × (finished_at < t.next_due + suc k * period t)
      × ((k ≡ 0) ⊎ (t.next_due + k * period t ≤ finished_at))
unfolding on_complete
on_complete_lem t finished_at pos here room bound =
    let next : ScheduleTask = record t { next_due = t.next_due + period t } in
    let (k, e, after, near) =
      catch_up_moves (suc u64_mod) finished_at next pos room bound (omega (arith, room.1)) in
    (
      k,
      ap (λ due. catch_up (suc u64_mod) finished_at (record t { next_due = due }))
            (milliseconds_after_lem t.next_due t here)
          ∙ e
          ∙ moved_next t k,
      omega (arith, after, moved_due t k),
      near_next t k finished_at near,
    )

-- Moving on by an interval of a whole number of 2^64 nanoseconds leads nowhere.
same_time :
    (time milliseconds : ℕ)
    → time < u64_mod
    → milliseconds * 1_000_000 % u64_mod ≡ 0
    → milliseconds_after time milliseconds ≡ time
same_time time milliseconds h whole = rw whole (omega arith)

catch_up_stays :
    (fuel finished_at : ℕ) (t : ScheduleTask)
    → milliseconds_after t.next_due t.interval ≡ t.next_due
    → t.next_due ≤ finished_at
    → catch_up fuel finished_at t ≡ none
unfolding catch_up
catch_up_stays zero finished_at t stays late = refl
catch_up_stays (suc fuel) finished_at t stays late = rw (le→leb t.next_due finished_at late) (
    catch_up_stays fuel finished_at (skip_cycle t)
      (ap (λ due. milliseconds_after due t.interval) stays) (omega (arith, stays, late)))

-- Where the interval in nanoseconds wraps around to 0, as 2^58 milliseconds do, and the task was due
-- by the time of the completion, the loop of `on_complete` never ends: no number of rounds leaves it.
pub on_complete_endless :
    (t : ScheduleTask) (finished_at : ℕ)
    → t.next_due < u64_mod
    → t.interval * 1_000_000 % u64_mod ≡ 0
    → t.next_due ≤ finished_at
    → (on_complete t finished_at ≡ none)
      × ((rounds : ℕ)
          → catch_up rounds finished_at
              (record t { next_due = milliseconds_after t.next_due t.interval })
            ≡ none)
unfolding on_complete
on_complete_endless t finished_at small whole late =
    let stays : milliseconds_after t.next_due t.interval ≡ t.next_due =
      same_time t.next_due t.interval small whole in
    let never : (rounds : ℕ)
        → catch_up rounds finished_at
            (record t { next_due = milliseconds_after t.next_due t.interval })
          ≡ none =
      λ rounds.
        catch_up_stays rounds finished_at
          (record t { next_due = milliseconds_after t.next_due t.interval })
          (ap (λ due. milliseconds_after due t.interval) stays) (omega (arith, stays, late)) in
    (never (suc u64_mod), never)
