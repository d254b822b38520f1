-- ===== src/Control/Lifecycle/Once.antt =====
-- The guarantees of the dispatcher over whole runs of its threads.
use mini_gateway.Prelude.{
  count, ℕ, ◌+◌, ◌≡◌, refl, sym, subst, Bool, true, false, List, [], ◌∷◌, arith, ok, ap, ◌∙◌,
}
use mini_gateway.Control.Queue.{ControlOperation, ControlCompletion}
use mini_gateway.Control.Queue as Queue
use mini_gateway.Control.Dispatcher.{Dispatcher, create}
use mini_gateway.Control.Lifecycle.{
  System, not_started, exited, Call, start_dispatcher, submit_request, take_operation,
  execute_operation, request_stop, cancel_operation, finish_stop, join_dispatcher, finish_join,
  begin, step, run,
}
use mini_gateway.Control.Lifecycle.Sound.{
  held, IsSound, start-IsSound, take-IsSound, execute-IsSound, ExitIsClean, JoinIsClean,
  StopIsClean, StartIsClean, RunIsClean, BusyIsClean,
}
use mini_gateway.Control.Lifecycle.Stops.{cancel-IsSound, finish_stop-IsSound, stop-IsSound}
use mini_gateway.Control.Lifecycle.Joins.{join-IsSound, finish_join-IsSound, submit-IsSound}

pub record IsNew (d : Dispatcher) : Type 0 where
  pub queue_empty : d.queue.queue ≡ []
  pub not_closed : d.queue.closed ≡ false
  pub unstarted : d.started ≡ false
  pub not_stopping : d.stopping ≡ false
  pub not_complete : d.stop_request_complete ≡ false
  pub not_busy : d.join_in_progress ≡ false
  pub not_joined : d.joined ≡ false

pub create-IsNew :
    (capacity : ℕ) (has_resolver : Bool) {d : Dispatcher}
    → create capacity has_resolver ≡ ok d
    → IsNew d
unfolding create Queue.create
create-IsNew capacity has_resolver h = ground arith

module _ (p : ControlOperation → Bool) where
  pub step-IsSound : (s : System) (c : Call) → IsSound p s → IsSound p (step s c)
  step-IsSound s start_dispatcher h = start-IsSound p s h
  step-IsSound s (submit_request request completion driver now) h =
      submit-IsSound p s request completion driver now h
  step-IsSound s take_operation h = take-IsSound p s h
  step-IsSound s (execute_operation a) h = execute-IsSound p s a h
  step-IsSound s (request_stop reserved) h = stop-IsSound p s reserved h
  step-IsSound s cancel_operation h = cancel-IsSound p s h
  step-IsSound s finish_stop h = finish_stop-IsSound p s h
  step-IsSound s join_dispatcher h = join-IsSound p s h
  step-IsSound s (finish_join threw) h = finish_join-IsSound p s threw h

  run-IsSound : (calls : List Call) (s : System) → IsSound p s → IsSound p (run s calls)
  unfolding run
  run-IsSound [] s h = h
  run-IsSound (c ∷ cs) s h = run-IsSound cs (step s c) (step-IsSound s c h)

  pub begin-IsSound :
      (capacity : ℕ) (has_resolver : Bool) {d : Dispatcher}
      → create capacity has_resolver ≡ ok d
      → IsSound p (begin d)
  begin-IsSound capacity has_resolver {d} h = record {
    conserved = omega (arith, ap (count p) new.queue_empty);
    closed = new.not_closed ∙ sym new.not_stopping;
    start = subst (λ b. StartIsClean b not_started) (sym new.unstarted) refl;
    going = subst (λ b. RunIsClean b []) (sym new.not_stopping) refl;
    exit = tt;
    stop = subst (λ b. StopIsClean b d.stopping []) (sym new.not_complete) tt;
    busy = subst (λ b. BusyIsClean b d.stop_request_complete) (sym new.not_busy) tt;
    join = subst (λ b. JoinIsClean b d.stop_request_complete not_started) (sym new.not_joined) tt;
  }
    where
      new : IsNew d
      new = create-IsNew capacity has_resolver h

  -- From a new dispatcher, after any calls of any threads in any order: every operation that `submit`
  -- accepted is in exactly one place, completed, in the worker's hands, taken by `request_stop`
  -- to be cancelled, or in the queue. (For any test `p` of operations, as many as satisfy it have
  -- been accepted as are in these places.)
  pub run-create-conserved :
      (capacity : ℕ) (has_resolver : Bool) (calls : List Call) {d : Dispatcher}
      → create capacity has_resolver ≡ ok d
      → let s : System = run (begin d) calls in
        count p s.accepted
        ≡ count p s.completed
          + count p (held s.worker)
          + count p s.cancelling
          + count p s.dispatcher.queue.queue
  run-create-conserved capacity has_resolver calls {d} e =
      (run-IsSound calls (begin d) (begin-IsSound capacity has_resolver e)).conserved

  all_completed :
      (s : System)
      → IsSound p s
      → (joined : Bool) → s.dispatcher.joined ≡ joined
      → joined ≡ true
      → count p s.accepted ≡ count p s.completed
  all_completed s h false e j = absurd cc
  all_completed s h true e j =
      let join : (s.dispatcher.stop_request_complete ≡ true) × (s.worker ≡ exited) =
        subst (λ b. JoinIsClean b s.dispatcher.stop_request_complete s.worker) e h.join in
      let stop : (s.dispatcher.stopping ≡ true) × (s.cancelling ≡ []) =
        subst (λ b. StopIsClean b s.dispatcher.stopping s.cancelling) join.0 h.stop in
      let exit : (s.dispatcher.queue.closed ≡ true) × (s.dispatcher.queue.queue ≡ []) =
        subst (λ w. ExitIsClean w s.dispatcher.queue) join.1 h.exit in
      omega (
        arith,
        h.conserved,
        ap (λ w. count p (held w)) join.1,
        ap (count p) stop.1,
        ap (count p) exit.1,
      )

  -- Once `join` has joined the worker, every operation that was ever accepted has been completed
  -- exactly once, executed or cancelled, whatever the order in which the threads ran and even when
  -- `cancel_pending` threw.
  pub run-create-joined :
      (capacity : ℕ) (has_resolver : Bool) (calls : List Call) {d : Dispatcher}
      → create capacity has_resolver ≡ ok d
      → (run (begin d) calls).dispatcher.joined ≡ true
      → count p (run (begin d) calls).accepted ≡ count p (run (begin d) calls).completed
  run-create-joined capacity has_resolver calls {d} e joined =
      all_completed (run (begin d) calls)
        (run-IsSound calls (begin d) (begin-IsSound capacity has_resolver e)) true joined refl
