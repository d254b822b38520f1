-- ===== src/Control/Service/Refines.antt =====
-- The dispatcher with its threads refines the service.
use mini_gateway.Prelude.{
  ◌++◌, ◌∙◌, true, append-nil, append_assoc, subst, sym, ℕ, ◌≡◌, refl, ap, Bool, not, List, [], ◌∷◌,
  ok,
}
use mini_gateway.Control.Dispatcher.{Dispatcher, create}
use mini_gateway.Control.Lifecycle.{
  System, Call, start_dispatcher, submit_request, take_operation, execute_operation, request_stop,
  cancel_operation, finish_stop, join_dispatcher, finish_join, begin, step, run,
}
use mini_gateway.Control.Lifecycle.Sound.{IsSound}
use mini_gateway.Control.Lifecycle.Once.{step-IsSound, begin-IsSound, IsNew, create-IsNew}
use mini_gateway.Control.Service.{
  Service, Serves, Trace, starts, goes_on, new_service, service_of, event_of, observe, accepted_of,
}
use mini_gateway.Control.Service.{Event}
use mini_gateway.Control.Service.Conserved.{Trace-IsConserved}
use mathlib.Mathlib.Data.Multiset.Defs.{of_list}
use mathlib.Mathlib.Data.Multiset.AddSub.{add}
use mini_gateway.Control.Service.Steps.{
  any, start-Serves, take-Serves, execute-Serves, cancel-Serves, submit-Serves, begin_stop-Serves,
  finish_stop-Serves, join-Serves, finish_join-Serves,
}

step-Serves :
    (s : System) (c : Call)
    → IsSound any s
    → Serves (event_of s c) (service_of s) (service_of (step s c))
unfolding event_of
step-Serves s start_dispatcher h = start-Serves s h
step-Serves s (submit_request request completion driver now) h =
    submit-Serves s request completion driver now
step-Serves s take_operation h = take-Serves s
step-Serves s (execute_operation a) h = execute-Serves s a
step-Serves s (request_stop reserved) h = begin_stop-Serves s reserved h
step-Serves s cancel_operation h = cancel-Serves s
step-Serves s finish_stop h = finish_stop-Serves s
step-Serves s join_dispatcher h = join-Serves s
step-Serves s (finish_join threw) h = finish_join-Serves s threw

run-Trace :
    (first : Service) (events : List Event) (calls : List Call) (s : System)
    → IsSound any s
    → Trace first events (service_of s)
    → Trace first (events ++ observe s calls) (service_of (run s calls))
unfolding run observe
run-Trace first events [] s h t =
    subst (λ es. Trace first es (service_of s)) (sym (append-nil events)) t
run-Trace first events (c ∷ calls) s h t =
    subst (λ es. Trace first es (service_of (run (step s c) calls)))
      (append_assoc events (event_of s c ∷ []) (observe (step s c) calls))
      (run-Trace first (events ++ event_of s c ∷ []) calls (step s c) (step-IsSound any s c h)
        (goes_on t (step-Serves s c h)))

service_of-begin : (d : Dispatcher) → IsNew d → service_of (begin d) ≡ new_service
service_of-begin d new =
    ap (λ b. record { accepting = not b; pending = of_list d.queue.queue; completed = [] })
      new.not_stopping
    ∙ ap (λ q. record { accepting = true; pending = of_list q; completed = [] }) new.queue_empty

-- The dispatcher implements its specification: from a new dispatcher, whatever calls its threads make,
-- in any order, what can be seen of it goes through steps of the service, one for each call: a
-- submission answered with `Accepted`, and no other call, makes its own operation pending, and only
-- while the service accepts; an operation leaves the pending ones, which form a multiset, only when
-- it is completed, by the worker or by the thread that stops; a closed service stays closed. So at
-- any time the operations that were accepted are, as a multiset, those completed and those pending.
pub run-create-Trace :
    (capacity : ℕ) (has_resolver : Bool) (calls : List Call) {d : Dispatcher}
    → create capacity has_resolver ≡ ok d
    → let events = observe (begin d) calls in
      let t = service_of (run (begin d) calls) in
      Trace new_service events t
      × (of_list (accepted_of events) ≡ add (of_list t.completed) t.pending)
run-create-Trace capacity has_resolver calls {d} e =
    let trace : Trace new_service (observe (begin d) calls) (service_of (run (begin d) calls)) =
      run-Trace new_service [] calls (begin d) (begin-IsSound any capacity has_resolver e) (
        subst (λ s. Trace new_service [] s)
          (sym (service_of-begin d (create-IsNew capacity has_resolver e))) starts) in
    (trace, Trace-IsConserved new_service _ _ trace refl)
