-- ===== src/Scheduler/Select.antt =====
-- Which task `select_due` and `next_wakeup` choose.
use mini_gateway.Prelude.{
  ℕ, suc, ◌≤◌, ◌<◌, ◌≡◌, ◌≢◌, subst, refl, ◌⊎◌, inl, inr, Option, none, some, List, [], ◌∷◌, ◌++◌,
  arith, length, get_elem?, All, Bool-cases, ltb, ltb→lt, All-append, All-imp,
  get_elem?-append_left, get_elem?-append_length, append-nil, append_assoc, length-append,
  if◌then◌else◌,
}
use mini_gateway.Scheduler.{
  time_point_max, ScheduleTask, Slot, better, earlier, select_from, select_due, smaller, min_from,
  next_wakeup, wakes_before,
}

-- `t` comes before `u`, or they tie: by due time, then by the order in the configuration.
abbrev pub Precedes : ScheduleTask → ScheduleTask → Type 0
Precedes t u =
    (t.next_due < u.next_due) ⊎ ((t.next_due ≡ u.next_due) × (t.stable_order ≤ u.stable_order))

-- `t` comes before `u`, or `u` is not due.
abbrev pub Outranks : ℕ → ScheduleTask → ScheduleTask → Type 0
Outranks now t u = (now < u.next_due) ⊎ Precedes t u

-- `selected` is a due task of the list, and precedes every due task of it.
abbrev pub Chosen : ℕ → Option Slot → List ScheduleTask → Type 0
Chosen now none tasks = All (λ t. now < t.next_due) tasks
Chosen now (some s) tasks =
    (get_elem? tasks s.index ≡ some s.task)
    × (s.task.next_due ≤ now)
    × All (λ t. Outranks now s.task t) tasks

-- A later choice precedes all that an earlier one preceded.
Precedes-trans : (t u v : ScheduleTask) → Precedes t u → Precedes u v → Precedes t v
Precedes-trans t u v p q = ground arith

Outranks-trans :
    (now : ℕ) (t s u : ScheduleTask) → Precedes t s → Outranks now s u → Outranks now t u
Outranks-trans now t s u p (inl later) = inl later
Outranks-trans now t s u p (inr q) = inr (Precedes-trans t s u p q)

-- one round of the loop of `select_due`
select_round : ℕ → Option Slot → List ScheduleTask → ScheduleTask → Option Slot
select_round now selected seen t =
    if ltb now t.next_due
    then selected
    else if better t selected
    then some (record { index = length seen; task = t })
    else selected

select_round-Chosen :
    (now : ℕ) (selected : Option Slot) (seen : List ScheduleTask) (t : ScheduleTask)
    → Chosen now selected seen
    → Chosen now (select_round now selected seen t) (seen ++ t ∷ [])
unfolding select_round
select_round-Chosen now none seen t h = elim (Bool-cases (ltb now t.next_due)) [
  | inl later ↦ rw later (All-append (λ u. now < u.next_due) seen (t ∷ []) h (ltb→lt _ _ later, tt))
  | inr due ↦ rw due (
    get_elem?-append_length seen [] t,
    ground arith,
    All-append (Outranks now t) seen (t ∷ [])
        (All-imp (λ u. now < u.next_due) (Outranks now t) seen (λ u later. inl later) h)
        (inr (inr (refl, omega arith)), tt),
  )
]
select_round-Chosen now (some s) seen t h = elim (Bool-cases (ltb now t.next_due)) [
  | inl later ↦ rw later (keep (inl (ltb→lt _ _ later)))
  | inr due ↦ rw due (elim (Bool-cases (earlier t s.task)) [
    | inl won ↦ rw won (
      get_elem?-append_length seen [] t,
      ground arith,
      All-append (Outranks now t) seen (t ∷ [])
          (All-imp (Outranks now s.task) (Outranks now t) seen
            (λ u. Outranks-trans now t s.task u (ground arith)) h.2)
          (inr (inr (refl, omega arith)), tt),
    )
    | inr lost ↦ rw lost (keep (inr (ground arith)))
  ])
]
  where
    keep : Outranks now s.task t → Chosen now (some s) (seen ++ t ∷ [])
    keep f = (
      get_elem?-append_left seen (t ∷ []) s.index h.0,
      h.1,
      All-append (Outranks now s.task) seen (t ∷ []) h.2 (f, tt),
    )

select_from-Chosen :
    (now i : ℕ) (selected : Option Slot) (seen rest : List ScheduleTask)
    → i ≡ length seen
    → Chosen now selected seen
    → Chosen now (select_from now i selected rest) (seen ++ rest)
unfolding select_from select_round
select_from-Chosen now i selected seen [] e h = rw append-nil h
select_from-Chosen now i selected seen (t ∷ ts) e h =
    rw (e, ← append_assoc seen (t ∷ []) ts)
      (select_from-Chosen now (suc (length seen)) (select_round now selected seen t)
        (seen ++ t ∷ []) ts (omega (arith, length-append seen (t ∷ [])))
        (select_round-Chosen now selected seen t h))

-- `select_due` returns null exactly when no task is due; otherwise it returns a task of the policy,
-- at its position, that is due and precedes every due task.
pub select_due-Chosen :
    (tasks : List ScheduleTask) (now : ℕ) → Chosen now (select_due tasks now) tasks
unfolding select_due
select_due-Chosen tasks now = select_from-Chosen now 0 none [] tasks refl tt

smaller-le :
    (t s : ScheduleTask)
    → ((smaller t s).next_due ≤ t.next_due) × ((smaller t s).next_due ≤ s.next_due)
unfolding smaller
smaller-le t s = ground arith

min_from-le :
    (s : ScheduleTask) (ts : List ScheduleTask)
    → ((min_from s ts).next_due ≤ s.next_due) × All (λ u. (min_from s ts).next_due ≤ u.next_due) ts
unfolding min_from
min_from-le s [] = (omega arith, tt)
min_from-le s (t ∷ ts) =
    let (first, rest) = min_from-le (smaller t s) ts in
    (omega (arith, smaller-le t s), (omega (arith, smaller-le t s), rest))

smaller-cases : (P : ScheduleTask → Type 0) (t s : ScheduleTask) → P t → P s → P (smaller t s)
unfolding smaller
smaller-cases P t s pt ps = elim (Bool-cases (wakes_before t s)) [
  | inl wins ↦ rw wins pt
  | inr loses ↦ rw loses ps
]

min_from-All :
    (P : ScheduleTask → Type 0) (s : ScheduleTask) (ts : List ScheduleTask)
    → P s
    → All P ts
    → P (min_from s ts)
unfolding min_from
min_from-All P s [] p h = p
min_from-All P s (t ∷ ts) p h = min_from-All P (smaller t s) ts (smaller-cases P t s h.0 p) h.1

chosen_none :
    (now : ℕ) (tasks : List ScheduleTask)
    → select_due tasks now ≡ none
    → All (λ t. now < t.next_due) tasks
chosen_none now tasks e = subst (λ o. Chosen now o tasks) e (select_due-Chosen tasks now)

-- While no task is due at `now`, a time before the last of the clock, `next_wakeup` lies after `now` and not after any due time, and at
-- that time, unless there are no tasks, `select_due` finds one: the engine's wait misses no task
-- and ends with a task to run.
pub next_wakeup_lem :
    (tasks : List ScheduleTask) (now : ℕ)
    → now < time_point_max
    → select_due tasks now ≡ none
    → (now < next_wakeup tasks)
      × All (λ t. next_wakeup tasks ≤ t.next_due) tasks
      × ((tasks ≡ []) ⊎ (select_due tasks (next_wakeup tasks) ≢ none))
unfolding next_wakeup
next_wakeup_lem [] now h e = (h, tt, inl refl)
next_wakeup_lem (t ∷ ts) now h e = (
  min_from-All (λ u. now < u.next_due) t ts (chosen_none now (t ∷ ts) e).0
      (chosen_none now (t ∷ ts) e).1,
  ((min_from-le t ts).0, (min_from-le t ts).1),
  inr λ asleep.
      let late = chosen_none (min_from t ts).next_due (t ∷ ts) asleep in
      not-lt_self (min_from-All (λ u. (min_from t ts).next_due < u.next_due) t ts late.0 late.1),
)
  where
    not-lt_self : {n : ℕ} → n < n → ⊥
    not-lt_self h = omega arith
