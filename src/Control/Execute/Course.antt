-- ===== src/Control/Execute/Course.antt =====
-- What one execution does to the gate, the driver and the source, and what it counts.
use mini_gateway.Prelude.{
  ℕ, ◌+◌, ◌%◌, ◌<◌, ◌≡◌, refl, sym, subst, ◌∙◌, ap, ◌⊎◌, inr, Bool, true, false, not, ◌&&◌, String,
  Option, none, some, List, [], ◌∷◌, ◌++◌, leb, ◌==◌, if◌then◌else◌, arith, u64_mod, increment,
  saturating_add, Result, ok, err, invalid_argument, logic_error, runtime_error, out_of_range,
  foreign,
}
use mini_gateway.Control.{
  DeviceControlResult, DeviceControlStatus, timeout, failed, ControlStats, no_deadline, succeeded,
  unsupported, cancelled,
}
use mini_gateway.Control.Queue.{ControlOperation}
use mini_gateway.Control.Dispatcher.{
  Effect, lock_gate, unlock_gate, call_driver, complete, delivery, count_status,
}
use mini_gateway.Control.Execute.{
  Answers, failure, finish, returned_result, driver_result, execute_locked, nonnegative_nanoseconds,
  unlock,
}

-- The completions that the dispatcher has counted, by whatever status.
abbrev pub outcomes : ControlStats → ℕ
outcomes s = s.succeeded + s.unsupported + s.invalid_argument + s.timeouts + s.cancelled + s.failed

abbrev pub driver_calls : List Effect → ℕ
driver_calls [] = 0
driver_calls (call_driver request ∷ effects) = 1 + driver_calls effects
driver_calls (_ ∷ effects) = driver_calls effects

abbrev pub has_gate : Option (Result Bool) → Bool
has_gate none = false
has_gate (some gate) = true

-- The deadline had not passed when the operation was looked at, nor when the gate had been taken.
abbrev pub IsInTime : Answers → ControlOperation → Type 0
IsInTime a operation =
    (a.now < operation.request.deadline)
    × ((operation.request.deadline ≡ no_deadline) ⊎ (a.before_call < operation.request.deadline))

-- The effects before the completion and the result of it, in a dispatcher with or without gates.
pub data Course (a : Answers) (operation : ControlOperation)
    : Bool → List Effect → DeviceControlResult → Type 0 where
  not_called :
      {gated : Bool} (status : DeviceControlStatus) (message : String)
      → (status ≡ failed) ⊎ (status ≡ timeout)
      → Course a operation gated [] (failure operation status message)
  expired :
      (message : String)
      → Course a operation true (lock_gate ∷ unlock_gate ∷ []) (failure operation timeout message)
  called :
      IsInTime a operation
      → Course a operation false
          (call_driver operation.request ∷ [])
          (driver_result a operation (a.control operation.request))
  called_gated :
      IsInTime a operation
      → Course a operation true
          (lock_gate ∷ call_driver operation.request ∷ unlock_gate ∷ [])
          (driver_result a operation (a.control operation.request))

pub record IsExecution (a : Answers) (operation : ControlOperation) (s : ControlStats)
    (after : ControlStats × List Effect) : Type 0 where
  pub effects : List Effect
  pub result : DeviceControlResult
  pub course : Course a operation (has_gate a.gate) effects result
  pub delivered : after.1 ≡ effects ++ delivery operation.completion result
  pub correlated : result.request_id ≡ operation.request.request_id
  pub counted : outcomes after.0 % u64_mod ≡ (outcomes s + 1) % u64_mod
  pub calls : after.0.executed % u64_mod ≡ (s.executed + driver_calls effects) % u64_mod

-- Whatever the driver answers or throws, the result carries the identifier of the request.
pub driver_result_correlated :
    (a : Answers) (operation : ControlOperation) (answer : Result DeviceControlResult)
    → (driver_result a operation answer).request_id ≡ operation.request.request_id
unfolding driver_result returned_result failure
driver_result_correlated a operation (ok answer) = ground arith
driver_result_correlated a operation (err (invalid_argument what)) = refl
driver_result_correlated a operation (err (logic_error what)) = refl
driver_result_correlated a operation (err (runtime_error what)) = refl
driver_result_correlated a operation (err (out_of_range what)) = refl
driver_result_correlated a operation (err foreign) = refl

count_status_lem :
    (status : DeviceControlStatus) (s : ControlStats)
    → (outcomes (count_status status s) % u64_mod ≡ (outcomes s + 1) % u64_mod)
      × ((count_status status s).executed ≡ s.executed)
unfolding count_status
count_status_lem succeeded s = (omega arith, refl)
count_status_lem unsupported s = (omega arith, refl)
count_status_lem DeviceControlStatus.invalid_argument s = (omega arith, refl)
count_status_lem timeout s = (omega arith, refl)
count_status_lem cancelled s = (omega arith, refl)
count_status_lem failed s = (omega arith, refl)

pub finish-IsExecution :
    (a : Answers) (operation : ControlOperation) (before s : ControlStats) (effects : List Effect)
    (result : DeviceControlResult)
    → Course a operation (has_gate a.gate) effects result
    → result.request_id ≡ operation.request.request_id
    → outcomes s ≡ outcomes before
    → s.executed % u64_mod ≡ (before.executed + driver_calls effects) % u64_mod
    → IsExecution a operation before (finish a operation s effects result)
unfolding finish complete
finish-IsExecution a operation before s effects result course correlated same calls = record {
  effects = effects;
  result = result;
  course = course;
  delivered = refl;
  correlated = correlated;
  counted = (count_status_lem result.status timed).0 ∙ ap (λ n. (n + 1) % u64_mod) same;
  calls = ap (λ n. n % u64_mod) (count_status_lem result.status timed).1 ∙ calls;
}
  where
    timed : ControlStats
    timed = record s {
      execution_ns =
          saturating_add s.execution_ns (nonnegative_nanoseconds a.finished a.execution_started);
    }

abbrev pub taken : Bool → List Effect
taken true = lock_gate ∷ []
taken false = []

pub execute_locked-IsExecution :
    (a : Answers) (operation : ControlOperation) (before s : ControlStats)
    → outcomes s ≡ outcomes before
    → s.executed ≡ before.executed
    → a.now < operation.request.deadline
    → (locked : Bool) → has_gate a.gate ≡ locked
    → IsExecution a operation before (execute_locked a operation locked s (taken locked))
unfolding execute_locked failure
execute_locked-IsExecution a operation before s same calls unexpired locked gated =
    go locked gated late refl
  where
    late : Bool
    late =
        not (operation.request.deadline == no_deadline)
        && leb operation.request.deadline a.before_call

    expired_result : DeviceControlResult
    expired_result = failure operation timeout "control request deadline expired before driver call"

    answered : DeviceControlResult
    answered = driver_result a operation (a.control operation.request)

    past :
        (locked : Bool)
        → has_gate a.gate ≡ locked
        → Course a operation (has_gate a.gate) (taken locked ++ unlock locked) expired_result
    past true gated =
        subst (λ g. Course a operation g (lock_gate ∷ unlock_gate ∷ []) expired_result) (sym gated)
          (expired "control request deadline expired before driver call")
    past false gated =
        not_called timeout "control request deadline expired before driver call" (inr refl)

    served :
        (locked : Bool)
        → has_gate a.gate ≡ locked
        → IsInTime a operation
        → Course a operation
            (has_gate a.gate)
            (taken locked ++ call_driver operation.request ∷ unlock locked)
            answered
    served true gated t =
        subst
          (λ g.
            Course a operation g (lock_gate ∷ call_driver operation.request ∷ unlock_gate ∷ [])
              answered)
          (sym gated) (called_gated t)
    served false gated t =
        subst (λ g. Course a operation g (call_driver operation.request ∷ []) answered) (sym gated)
          (called t)

    counted_calls :
        (locked : Bool)
        → s.executed % u64_mod
          ≡ (before.executed + driver_calls (taken locked ++ unlock locked)) % u64_mod
    counted_calls true = omega (arith, calls)
    counted_calls false = omega (arith, calls)

    counted_call :
        (locked : Bool)
        → increment s.executed % u64_mod
          ≡ (before.executed
              + driver_calls (taken locked ++ call_driver operation.request ∷ unlock locked))
            % u64_mod
    counted_call true = omega (arith, calls)
    counted_call false = omega (arith, calls)

    in_time : late ≡ false → IsInTime a operation
    in_time h = (unexpired, ground arith)

    go :
        (locked : Bool)
        → has_gate a.gate ≡ locked
        → (b : Bool) → late ≡ b
        → IsExecution a operation before (
            if b
            then finish a operation s (taken locked ++ unlock locked) expired_result
            else finish a operation
                (record s { executed = increment s.executed })
                (taken locked ++ call_driver operation.request ∷ unlock locked)
                answered)
    go locked gated true h =
        finish-IsExecution a operation before s (taken locked ++ unlock locked) expired_result
          (past locked gated) refl same (counted_calls locked)
    go locked gated false h =
        finish-IsExecution a operation before (record s { executed = increment s.executed })
          (taken locked ++ call_driver operation.request ∷ unlock locked) answered
          (served locked gated (in_time h))
          (driver_result_correlated a operation (a.control operation.request)) same
          (counted_call locked)
