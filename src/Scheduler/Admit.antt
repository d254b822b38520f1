-- ===== src/Scheduler/Admit.antt =====
-- Which task lists the policy's constructor admits.
use mini_gateway.Prelude.{
  Bool, true, ◌⊎◌, inl, inr, ap, Result, err, invalid_argument, throw_if, ◌>>◌, is_empty, leb, ◌<◌,
  ◌≡◌, ◌≢◌, refl, false, List, [], ◌∷◌, String, map, arith, All, Distinct, Fresh, Fresh-cons,
  Fresh-uncons, Fresh-nil, member, member-Absent, eq_iff, ok,
}
use mini_gateway.Scheduler.{ScheduleTask, check_tasks, create_policy}

-- Every task has a group id and a positive interval, and no two have the same id.
abbrev pub IsSchedule : List ScheduleTask → Type 0
IsSchedule tasks =
    All (λ t. (t.group_id ≢ "") × (0 < t.interval)) tasks × Distinct (map (λ t. t.group_id) tasks)

check_tasks_sound :
    (seen : List String) (tasks : List ScheduleTask)
    → check_tasks seen tasks ≡ ok tt
    → IsSchedule tasks × Fresh seen (map (λ t. t.group_id) tasks)
unfolding check_tasks
check_tasks_sound seen [] h = ((tt, tt), tt)
check_tasks_sound seen (t ∷ ts) h =
    let checked : check_tasks (t.group_id ∷ seen) ts ≡ ok tt = ground arith in
    let new : member t.group_id seen ≡ false = ground arith in
    let ((valid, distinct), fresh) = check_tasks_sound (t.group_id ∷ seen) ts checked in
    let (absent, rest) = Fresh-uncons t.group_id seen (map (λ u. u.group_id) ts) fresh in
    (
      (((ground (arith, eq_iff t.group_id ""), ground arith), valid), (absent, distinct)),
      ((member-Absent t.group_id seen).0 new, rest),
    )

check_tasks_complete :
    (seen : List String) (tasks : List ScheduleTask)
    → IsSchedule tasks
    → Fresh seen (map (λ t. t.group_id) tasks)
    → check_tasks seen tasks ≡ ok tt
unfolding check_tasks
check_tasks_complete seen [] v f = refl
check_tasks_complete seen (t ∷ ts) (((named, positive), valid), (absent, distinct)) (new, rest) =
    ground (
      arith,
      eq_iff t.group_id "",
      (member-Absent t.group_id seen).1 new,
      check_tasks_complete (t.group_id ∷ seen) ts (valid, distinct)
          (Fresh-cons t.group_id seen (map (λ u. u.group_id) ts) absent rest),
    )

-- What the loop throws is always an `invalid_argument`.
check_tasks_ends :
    (seen : List String) (tasks : List ScheduleTask)
    → (check_tasks seen tasks ≡ ok tt)
      ⊎ ((text : String) × (check_tasks seen tasks ≡ err (invalid_argument text)))
unfolding check_tasks
check_tasks_ends seen [] = inl refl
check_tasks_ends seen (t ∷ ts) =
    checks (is_empty t.group_id) (leb t.interval 0) (member t.group_id seen) _ _ _
      (check_tasks_ends (t.group_id ∷ seen) ts)
  where
    checks :
        (unnamed slow known : Bool) (a b c : String) {rest : Result (Unit {0})}
        → (rest ≡ ok tt) ⊎ ((text : String) × (rest ≡ err (invalid_argument text)))
        → let all =
            (throw_if unnamed (invalid_argument a)
              >> (throw_if slow (invalid_argument b)
                  >> (throw_if known (invalid_argument c) >> rest))) in
          (all ≡ ok tt) ⊎ ((text : String) × (all ≡ err (invalid_argument text)))
    checks true slow known a b c h = inr (_, refl)
    checks false true known a b c h = inr (_, refl)
    checks false false true a b c h = inr (_, refl)
    checks false false false a b c h = h

-- The constructor ends in one of two ways. Every task has a group id and a positive interval and the
-- ids are distinct, and it keeps the list as it is; or not, and it throws an `invalid_argument`.
pub create_policy-Admits :
    (tasks : List ScheduleTask)
    → (IsSchedule tasks × (create_policy tasks ≡ ok tasks))
      ⊎ ((¬ IsSchedule tasks)
          × ((text : String) × (create_policy tasks ≡ err (invalid_argument text))))
unfolding create_policy
create_policy-Admits tasks = go (check_tasks_ends [] tasks)
  where
    go :
        (check_tasks [] tasks ≡ ok tt)
          ⊎ ((text : String) × (check_tasks [] tasks ≡ err (invalid_argument text)))
        → (IsSchedule tasks × ((check_tasks [] tasks >> ok tasks) ≡ ok tasks))
          ⊎ ((¬ IsSchedule tasks)
              × ((text : String) × ((check_tasks [] tasks >> ok tasks)
                    ≡ err (invalid_argument text))))
    go (inl passed) = inl ((check_tasks_sound [] tasks passed).0, ap (λ r. r >> ok tasks) passed)
    go (inr (text, threw)) = inr (
      λ v.
          let passed = check_tasks_complete [] tasks v (Fresh-nil (map (λ t. t.group_id) tasks)) in
          absurd cc,
      (text, ap (λ r. r >> ok tasks) threw),
    )

-- A list of valid tasks is kept.
pub create_policy_keeps :
    (tasks : List ScheduleTask) → IsSchedule tasks → create_policy tasks ≡ ok tasks
create_policy_keeps tasks v = elim (create_policy-Admits tasks) [
  | inl (valid, kept) ↦ kept
  | inr (invalid, threw) ↦ absurd (invalid v)
]
