-- ===== src/Control/Lifecycle/Delivered.antt =====
-- What the sources are told over a run of the dispatcher's threads.
use mini_gateway.Prelude.{
  ℕ, ◌≡◌, refl, sym, ap, ◌∙◌, Bool, true, false, String, Option, none, some, List, [], ◌∷◌, ◌++◌,
  arith, Result, ok, err,
}
use mini_gateway.Control.{DeviceControlResult, ControlStats, ControlSubmitResult, accepted}
use mini_gateway.Control.Queue.{
  ControlOperation, ControlCompletion, blocked, finished, popped, wait_pop, Popped,
}
use mini_gateway.Control.Dispatcher.{
  Dispatcher, Effect, lock_gate, unlock_gate, call_driver, deliver, delivery, cancel, complete,
  cancelled_result, start, submit, begin_stop, begin_join, Joining, returned, waiting, join_worker,
}
use mini_gateway.Control.Execute.{Answers, execute}
use mini_gateway.Control.Execute.Course.{
  IsExecution, Course, not_called, expired, called, called_gated,
}
use mini_gateway.Control.Execute.Outcome.{execute-IsExecution}
use mini_gateway.Control.Lifecycle.{
  System, Worker, not_started, idle, running, exited, Call, start_dispatcher, submit_request,
  take_operation, execute_operation, request_stop, cancel_operation, finish_stop, join_dispatcher,
  finish_join, begin, step, run, after_start, after_submit, after_take, take, run_operation,
  after_stop, cancel_next, stop_finished, after_join, joined_worker,
}

-- The completions called, with the identifier in the result of each, in order.
abbrev pub deliveries : List Effect → List (ℕ × String)
deliveries [] = []
deliveries (deliver completion result ∷ effects) =
    (completion, result.request_id) ∷ deliveries effects
deliveries (_ ∷ effects) = deliveries effects

-- The completions that come with operations, with the identifier in the request of each.
abbrev pub completions : List ControlOperation → List (ℕ × String)
completions [] = []
completions (operation ∷ operations) = elim operation.completion [
  | none ↦ completions operations
  | some completion ↦ (completion, operation.request.request_id) ∷ completions operations
]

deliveries-append : (xs ys : List Effect) → deliveries (xs ++ ys) ≡ deliveries xs ++ deliveries ys
deliveries-append [] ys = refl
deliveries-append (deliver completion result ∷ xs) ys =
    ap (λ ds. (completion, result.request_id) ∷ ds) (deliveries-append xs ys)
deliveries-append (lock_gate ∷ xs) ys = deliveries-append xs ys
deliveries-append (unlock_gate ∷ xs) ys = deliveries-append xs ys
deliveries-append (call_driver request ∷ xs) ys = deliveries-append xs ys

completions-append :
    (xs ys : List ControlOperation) → completions (xs ++ ys) ≡ completions xs ++ completions ys
completions-append [] ys = refl
completions-append (operation ∷ xs) ys = go operation.completion (completions-append xs ys)
  where
    go :
        (c : ControlCompletion)
        → completions (xs ++ ys) ≡ completions xs ++ completions ys
        → (elim c [
          | none ↦ completions (xs ++ ys)
          | some completion ↦ (completion, operation.request.request_id) ∷ completions (xs ++ ys)
        ])
          ≡ (elim c [
            | none ↦ completions xs
            | some completion ↦ (completion, operation.request.request_id) ∷ completions xs
          ])
            ++ completions ys
    go none rest = rest
    go (some completion) rest = ap (λ ds. (completion, operation.request.request_id) ∷ ds) rest

delivery_lem :
    (operation : ControlOperation) (result : DeviceControlResult)
    → result.request_id ≡ operation.request.request_id
    → deliveries (delivery operation.completion result) ≡ completions (operation ∷ [])
delivery_lem operation result e = go operation.completion
  where
    go :
        (c : ControlCompletion)
        → deliveries (delivery c result) ≡ (elim c [
          | none ↦ []
          | some completion ↦ (completion, operation.request.request_id) ∷ []
        ])
    go none = refl
    go (some completion) = ap (λ i. (completion, i) ∷ []) e

Course-silent :
    {a : Answers} {operation : ControlOperation} {gated : Bool} {effects : List Effect}
    {result : DeviceControlResult}
    → Course a operation gated effects result
    → deliveries effects ≡ []
Course-silent (not_called status message h) = refl
Course-silent (expired message) = refl
Course-silent (called t) = refl
Course-silent (called_gated t) = refl

execute-deliveries :
    (a : Answers) (operation : ControlOperation) (s : ControlStats)
    → deliveries (execute a operation s).1 ≡ completions (operation ∷ [])
execute-deliveries a operation s = go (execute-IsExecution a operation s)
  where
    go :
        IsExecution a operation s (execute a operation s)
        → deliveries (execute a operation s).1 ≡ completions (operation ∷ [])
    go h =
        ap deliveries h.delivered
        ∙ deliveries-append h.effects (delivery operation.completion h.result)
        ∙ ap (λ ds. ds ++ deliveries (delivery operation.completion h.result))
            (Course-silent h.course)
        ∙ delivery_lem operation h.result h.correlated

abbrev AreTold : System → Type 0
AreTold s = deliveries s.effects ≡ completions s.completed

tell :
    (effects more : List Effect) (completed : List ControlOperation) (operation : ControlOperation)
    → deliveries effects ≡ completions completed
    → deliveries more ≡ completions (operation ∷ [])
    → deliveries (effects ++ more) ≡ completions (completed ++ operation ∷ [])
tell effects more completed operation h k =
    deliveries-append effects more
    ∙ ap (λ ds. ds ++ deliveries more) h
    ∙ ap (λ ds. completions completed ++ ds) k
    ∙ sym (completions-append completed (operation ∷ []))

after_submit-AreTold :
    (operation : ControlOperation) (s : System) (r : ControlSubmitResult × Dispatcher)
    → AreTold s
    → AreTold (after_submit operation s r)
unfolding after_submit
after_submit-AreTold operation s (accepted, d) h = h
after_submit-AreTold operation s (ControlSubmitResult.queue_full, d) h = h
after_submit-AreTold operation s (ControlSubmitResult.unknown_device, d) h = h
after_submit-AreTold operation s (ControlSubmitResult.invalid_request, d) h = h
after_submit-AreTold operation s (ControlSubmitResult.stopping, d) h = h

take-AreTold : (s : System) (w : Worker) → AreTold s → AreTold (take s w)
unfolding take after_take
take-AreTold s idle h = go (wait_pop s.dispatcher.queue)
  where
    go : (popped : Popped) → AreTold (after_take s popped)
    go blocked = h
    go finished = h
    go (popped operation q) = h
take-AreTold s not_started h = h
take-AreTold s (running operation) h = h
take-AreTold s exited h = h

run_operation-AreTold :
    (a : Answers) (s : System) (w : Worker) → AreTold s → AreTold (run_operation a s w)
unfolding run_operation
run_operation-AreTold a s (running operation) h =
    tell s.effects (execute a operation s.dispatcher.stats).1 s.completed operation h
      (execute-deliveries a operation s.dispatcher.stats)
run_operation-AreTold a s not_started h = h
run_operation-AreTold a s idle h = h
run_operation-AreTold a s exited h = h

cancel_next-AreTold :
    (s : System) (operations : List ControlOperation)
    → AreTold s
    → AreTold (cancel_next s operations)
unfolding cancel_next cancel complete cancelled_result
cancel_next-AreTold s [] h = h
cancel_next-AreTold s (operation ∷ rest) h =
    tell s.effects (delivery operation.completion (cancelled_result operation.request)) s.completed
      operation h (delivery_lem operation (cancelled_result operation.request) refl)

stop_finished-AreTold :
    (s : System) (operations : List ControlOperation)
    → AreTold s
    → AreTold (stop_finished s operations)
unfolding stop_finished
stop_finished-AreTold s [] h = ground arith
stop_finished-AreTold s (operation ∷ rest) h = h

joined_worker-AreTold :
    (threw : Bool) (s : System) (w : Worker) → AreTold s → AreTold (joined_worker threw s w)
unfolding joined_worker
joined_worker-AreTold true s w h = ground arith
joined_worker-AreTold false s exited h = ground arith
joined_worker-AreTold false s not_started h = h
joined_worker-AreTold false s idle h = h
joined_worker-AreTold false s (running operation) h = h

step-AreTold : (s : System) (c : Call) → AreTold s → AreTold (step s c)
unfolding step after_start after_stop after_join
step-AreTold s start_dispatcher h = go (start s.dispatcher)
  where
    go : (r : Result Dispatcher) → AreTold (after_start s r)
    go (ok d) = h
    go (err thrown) = h
step-AreTold s (submit_request request completion driver now) h =
    after_submit-AreTold (record { request = request; completion = completion; enqueued_at = now })
      s (submit request completion driver now s.dispatcher) h
step-AreTold s take_operation h = take-AreTold s s.worker h
step-AreTold s (execute_operation a) h = run_operation-AreTold a s s.worker h
step-AreTold s (request_stop reserved) h = go (begin_stop reserved s.dispatcher)
  where
    go : (r : Option (List ControlOperation × Dispatcher)) → AreTold (after_stop s r)
    go none = h
    go (some (operations, d)) = h
step-AreTold s cancel_operation h = cancel_next-AreTold s s.cancelling h
step-AreTold s finish_stop h = stop_finished-AreTold s s.cancelling h
step-AreTold s join_dispatcher h = go (begin_join s.dispatcher)
  where
    go : (j : Joining) → AreTold (after_join s j)
    go returned = h
    go waiting = h
    go (join_worker d) = h
step-AreTold s (finish_join threw) h = joined_worker-AreTold threw s s.worker h

run-AreTold : (calls : List Call) (s : System) → AreTold s → AreTold (run s calls)
unfolding run
run-AreTold [] s h = h
run-AreTold (c ∷ cs) s h = run-AreTold cs (step s c) (step-AreTold s c h)

-- From the start of a dispatcher, after any calls of any threads in any order: the completions called so far
-- are those of the completed operations, each called once, in the order in which they were
-- completed, and each with a result that carries the request identifier of its own operation. An
-- operation without a completion has no call.
pub run-deliveries :
    (d : Dispatcher) (calls : List Call)
    → deliveries (run (begin d) calls).effects ≡ completions (run (begin d) calls).completed
run-deliveries d calls = run-AreTold calls (begin d) refl
