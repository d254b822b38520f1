-- ===== src/Control/Execute.antt =====
-- `DeviceControlDispatcher::execute` of src/core/control.cpp: what the worker does with an
-- operation that it has taken from the queue.
pub mod Course
pub mod Outcome
use mini_gateway.Prelude.{
  ℕ, ◌-◌, Bool, true, false, not, ◌&&◌, String, Option, none, some, List, [], ◌∷◌, ◌++◌, leb, ltb,
  ◌==◌, if◌then◌else◌, is_empty, increment, saturating_add, Result, ok, err, Error,
  invalid_argument, logic_error, runtime_error, out_of_range, foreign,
}
use mini_gateway.Control.{
  DeviceControlRequest, DeviceControlResult, DeviceControlStatus, timeout, failed, ControlStats,
  no_deadline,
}
use mini_gateway.Control.Queue.{ControlOperation}
use mini_gateway.Control.Dispatcher.{
  Effect, lock_gate, unlock_gate, call_driver, is_resolved, complete,
}

-- The answers to one `execute`. `gate` is `none` where the dispatcher has no gate resolver; `locked`
-- is the answer of `lock` (which returns) or of `try_lock_until`.
pub record Answers : Type 0 where
  pub execution_started : ℕ
  pub driver : Result Bool
  pub now : ℕ
  pub gate : Option (Result Bool)
  pub lock : Result (Unit {0})
  pub try_lock_until : Result Bool
  pub before_call : ℕ
  pub control : DeviceControlRequest → Result DeviceControlResult
  pub after_call : ℕ
  pub finished : ℕ

-- `nonnegative_nanoseconds(later - earlier)`
unfoldable pub nonnegative_nanoseconds : ℕ → ℕ → ℕ
nonnegative_nanoseconds later earlier = if leb later earlier then 0 else later - earlier

unfoldable pub failure : ControlOperation → DeviceControlStatus → String → DeviceControlResult
failure operation status message = record {
  request_id = operation.request.request_id;
  status = status;
  outputs = [];
  message = message;
}

-- The closure `finish`, after the effects so far.
unfoldable pub finish :
    Answers
    → ControlOperation
    → ControlStats
    → List Effect
    → DeviceControlResult
    → ControlStats × List Effect
finish a operation s effects result =
    let elapsed = nonnegative_nanoseconds a.finished a.execution_started in
    let (s', delivered) =
      complete operation result
        (record s { execution_ns = saturating_add s.execution_ns elapsed }) in
    (s', effects ++ delivered)

-- `gate_lock.unlock()` where it owns the lock
abbrev pub unlock : Bool → List Effect
unlock true = unlock_gate ∷ []
unlock false = []

-- the rest of the `try` block, once the driver has returned
unfoldable pub returned_result :
    Answers → ControlOperation → DeviceControlResult → DeviceControlResult
returned_result a operation answer =
    let result = record answer { request_id = operation.request.request_id } in
    if ltb operation.request.deadline a.after_call
    then record result {
      status = timeout;
      message =
          if is_empty result.message
          then "control request completed after its deadline"
          else result.message;
    }
    else result

-- `error.what()`
unfoldable pub driver_result :
    Answers → ControlOperation → Result DeviceControlResult → DeviceControlResult
unfolding returned_result failure
driver_result a operation (ok answer) = returned_result a operation answer
driver_result a operation (err (invalid_argument what)) = failure operation failed what
driver_result a operation (err (logic_error what)) = failure operation failed what
driver_result a operation (err (runtime_error what)) = failure operation failed what
driver_result a operation (err (out_of_range what)) = failure operation failed what
driver_result a operation (err foreign) =
    failure operation failed "driver control failed with an unknown exception"

-- from the second check of the deadline on; `owns_lock` is whether the gate is held
unfoldable pub execute_locked :
    Answers → ControlOperation → Bool → ControlStats → List Effect → ControlStats × List Effect
unfolding finish driver_result failure
execute_locked a operation owns_lock s effects =
    let request = operation.request in
    if not (request.deadline == no_deadline) && leb request.deadline a.before_call
    then finish a operation s (effects ++ unlock owns_lock)
        (failure operation timeout "control request deadline expired before driver call")
    else finish a operation (record s { executed = increment s.executed })
        (effects ++ call_driver request ∷ unlock owns_lock)
        (driver_result a operation (a.control request))

-- whether the gate is locked, by `lock` or by `try_lock_until`
unfoldable pub is_locked : Answers → ControlOperation → Bool
is_locked a operation =
    if operation.request.deadline == no_deadline
    then elim a.lock [ ok u ↦ true | err thrown ↦ false ]
    else is_resolved a.try_lock_until

-- from the gate resolver on
unfoldable pub execute_gated :
    Answers → ControlOperation → Option (Result Bool) → ControlStats → ControlStats × List Effect
unfolding finish execute_locked is_locked failure
execute_gated a operation none s = execute_locked a operation false s []
execute_gated a operation (some gate) s =
    if not (is_resolved gate)
    then finish a operation s [] (failure operation failed "device I/O gate is unavailable")
    else if not (is_locked a operation)
    then finish a operation s [] (failure operation timeout "timed out waiting for device I/O")
    else execute_locked a operation true s (lock_gate ∷ [])

unfoldable pub execute : Answers → ControlOperation → ControlStats → ControlStats × List Effect
unfolding finish execute_gated failure
execute a operation before =
    let waited = nonnegative_nanoseconds a.execution_started operation.enqueued_at in
    let s = record before { queue_wait_ns = saturating_add before.queue_wait_ns waited } in
    if not (is_resolved a.driver)
    then finish a operation s [] (failure operation failed "device is no longer available")
    else if leb operation.request.deadline a.now
    then finish a operation s []
        (failure operation timeout "control request deadline expired before execution")
    else execute_gated a operation a.gate s
