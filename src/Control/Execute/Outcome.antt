-- ===== src/Control/Execute/Outcome.antt =====
-- Every execution ends in one completion.
use mini_gateway.Prelude.{
  ◌<◌, ◌≡◌, refl, ap, inl, inr, Bool, true, false, not, Option, none, some, [], ◌∷◌, leb,
  if◌then◌else◌, arith, Result, saturating_add,
}
use mini_gateway.Control.{DeviceControlResult, timeout, failed, ControlStats}
use mini_gateway.Control.Queue.{ControlOperation}
use mini_gateway.Control.Dispatcher.{lock_gate, is_resolved}
use mini_gateway.Control.Execute.{
  Answers, failure, finish, execute_locked, execute_gated, execute, is_locked,
  nonnegative_nanoseconds,
}
use mini_gateway.Control.Execute.Course.{
  outcomes, IsExecution, Course, not_called, has_gate, finish-IsExecution,
  execute_locked-IsExecution,
}

module _ (a : Answers) (operation : ControlOperation) (before s : ControlStats) where
  refused-IsExecution :
      (result : DeviceControlResult)
      → Course a operation (has_gate a.gate) [] result
      → result.request_id ≡ operation.request.request_id
      → outcomes s ≡ outcomes before
      → s.executed ≡ before.executed
      → IsExecution a operation before (finish a operation s [] result)
  refused-IsExecution result course correlated same calls =
      finish-IsExecution a operation before s [] result course correlated same
        (omega (arith, calls))

  execute_gated-IsExecution :
      outcomes s ≡ outcomes before
      → s.executed ≡ before.executed
      → a.now < operation.request.deadline
      → (gate : Option (Result Bool)) → a.gate ≡ gate
      → IsExecution a operation before (execute_gated a operation gate s)
  unfolding execute_gated failure
  execute_gated-IsExecution same calls unexpired none is =
      execute_locked-IsExecution a operation before s same calls unexpired false (ap has_gate is)
  execute_gated-IsExecution same calls unexpired (some gate) is =
      go (is_resolved gate) (is_locked a operation)
    where
      no_gate : DeviceControlResult
      no_gate = failure operation failed "device I/O gate is unavailable"

      locked_out : DeviceControlResult
      locked_out = failure operation timeout "timed out waiting for device I/O"

      go :
          (resolved locked : Bool)
          → IsExecution a operation before (
              if not resolved
              then finish a operation s [] no_gate
              else if not locked
              then finish a operation s [] locked_out
              else execute_locked a operation true s (lock_gate ∷ []))
      go false locked =
          refused-IsExecution no_gate
            (not_called failed "device I/O gate is unavailable" (inl refl)) refl same calls
      go true false =
          refused-IsExecution locked_out
            (not_called timeout "timed out waiting for device I/O" (inr refl)) refl same calls
      go true true =
          execute_locked-IsExecution a operation before s same calls unexpired true (ap has_gate is)

-- Whatever the clock, the resolvers, the gate and the driver answer, or throw, an execution ends in
-- one completion, after all its other effects, whose result carries the identifier of the request
-- and is counted once among the statuses (modulo 2^64). Before it, the gate that was taken has
-- been released; the driver is called at most once, with the request as it was submitted, with the
-- gate held where the dispatcher has gates, and only when the deadline had not passed at the two
-- looks at the clock; each such call is counted in `executed`. Without a call the result is a
-- failure or a timeout; with one it is what `driver_result` makes of the driver's answer.
pub execute-IsExecution :
    (a : Answers) (operation : ControlOperation) (before : ControlStats)
    → IsExecution a operation before (execute a operation before)
unfolding execute failure
execute-IsExecution a operation before =
    go (is_resolved a.driver) (leb operation.request.deadline a.now) refl
  where
    s : ControlStats
    s = record before {
      queue_wait_ns =
          saturating_add before.queue_wait_ns
            (nonnegative_nanoseconds a.execution_started operation.enqueued_at);
    }

    no_driver : DeviceControlResult
    no_driver = failure operation failed "device is no longer available"

    late : DeviceControlResult
    late = failure operation timeout "control request deadline expired before execution"

    go :
        (resolved expired : Bool)
        → leb operation.request.deadline a.now ≡ expired
        → IsExecution a operation before (
            if not resolved
            then finish a operation s [] no_driver
            else if expired
            then finish a operation s [] late
            else execute_gated a operation a.gate s)
    go false expired h =
        refused-IsExecution a operation before s no_driver
          (not_called failed "device is no longer available" (inl refl)) refl refl refl
    go true true h =
        refused-IsExecution a operation before s late
          (not_called timeout "control request deadline expired before execution" (inr refl)) refl
          refl refl
    go true false h =
        execute_gated-IsExecution a operation before s refl refl (ground arith) a.gate refl
