-- ===== src/Control/Lifecycle/Stops.antt =====
-- What the steps of the dispatcher's threads keep: the sources' and those of the threads that stop
-- and join.
use mini_gateway.Prelude.{
  count-append, count, ◌≡◌, refl, ap, subst, Bool, true, false, none, some, List, [], ◌∷◌, arith,
  if◌then◌else◌,
}
use mini_gateway.Control.Queue.{ControlOperation, ControlQueue, close, cancel_pending, pop_all_lem}
use mini_gateway.Control.Dispatcher.{begin_stop, cancel, complete, end_stop}
use mini_gateway.Control.Lifecycle.{
  System, Worker, not_started, idle, running, exited, request_stop, cancel_operation, finish_stop,
  after_stop, cancel_next, stop_finished, step,
}
use mini_gateway.Control.Lifecycle.Sound.{
  ExitIsClean, StopIsClean, JoinIsClean, RunIsClean, BusyIsClean, IsSound,
}

module _ (p : ControlOperation → Bool) where
  pub cancel-IsSound : (s : System) → IsSound p s → IsSound p (step s cancel_operation)
  unfolding step cancel_next cancel
  cancel-IsSound s h = go s.cancelling refl
    where
      going_on :
          (stop : Bool) (operation : ControlOperation) (rest : List ControlOperation)
          → RunIsClean stop (operation ∷ rest)
          → RunIsClean stop rest
      going_on true operation rest k = tt
      going_on false operation rest k = cc

      stop_on :
          (complete stop : Bool) (operation : ControlOperation) (rest : List ControlOperation)
          → StopIsClean complete stop (operation ∷ rest)
          → StopIsClean complete stop rest
      stop_on true stop operation rest k = (k.0, cc)
      stop_on false stop operation rest k = tt

      go :
          (operations : List ControlOperation)
          → s.cancelling ≡ operations
          → IsSound p (cancel_next s operations)
      go [] k = h
      go (operation ∷ rest) k = record {
        conserved =
            omega (arith, h.conserved, ap (count p) k, count-append p s.completed (operation ∷ []));
        closed = h.closed;
        start = h.start;
        going =
            going_on s.dispatcher.stopping operation rest
              (subst (RunIsClean s.dispatcher.stopping) k h.going);
        exit = h.exit;
        stop =
            stop_on s.dispatcher.stop_request_complete s.dispatcher.stopping operation rest (
              subst (StopIsClean s.dispatcher.stop_request_complete s.dispatcher.stopping) k
                h.stop);
        busy = h.busy;
        join = h.join;
      }

  pub finish_stop-IsSound : (s : System) → IsSound p s → IsSound p (step s finish_stop)
  unfolding step stop_finished end_stop
  finish_stop-IsSound s h = go s.cancelling refl
    where
      join_on :
          (joined complete : Bool) (w : Worker)
          → JoinIsClean joined complete w
          → JoinIsClean joined true w
      join_on true complete w k = (refl, k.1)
      join_on false complete w k = tt

      busy_on : (busy : Bool) → BusyIsClean busy true
      busy_on true = refl
      busy_on false = tt

      now :
          (b : Bool)
          → s.dispatcher.stopping ≡ b
          → s.cancelling ≡ []
          → IsSound p (if b then record s { dispatcher = end_stop s.dispatcher } else s)
      now true k e = record {
        conserved = h.conserved;
        closed = h.closed;
        start = h.start;
        going = h.going;
        exit = h.exit;
        stop = (k, e);
        busy = busy_on s.dispatcher.join_in_progress;
        join = join_on s.dispatcher.joined s.dispatcher.stop_request_complete s.worker h.join;
      }
      now false k e = h

      go :
          (operations : List ControlOperation)
          → s.cancelling ≡ operations
          → IsSound p (stop_finished s operations)
      go [] e = now s.dispatcher.stopping refl e
      go (operation ∷ rest) e = h

  pub stop-IsSound :
      (s : System) (reserved : Bool) → IsSound p s → IsSound p (step s (request_stop reserved))
  unfolding step after_stop begin_stop close cancel_pending
  stop-IsSound s reserved h = go s.dispatcher.stopping refl reserved
    where
      exit_on :
          (w : Worker) (q q' : ControlQueue)
          → ExitIsClean w q
          → q'.closed ≡ true
          → (q.queue ≡ [] → q'.queue ≡ [])
          → ExitIsClean w q'
      exit_on exited q q' k c f = (c, f k.1)
      exit_on not_started q q' k c f = tt
      exit_on idle q q' k c f = tt
      exit_on (running operation) q q' k c f = tt

      stop_on :
          (complete : Bool) (cancelling : List ControlOperation)
          (operations : List ControlOperation)
          → StopIsClean complete false cancelling
          → StopIsClean complete true operations
      stop_on true cancelling operations k = absurd cc
      stop_on false cancelling operations k = tt

      q : ControlQueue
      q = record s.dispatcher.queue { closed = true }

      go :
          (b : Bool)
          → s.dispatcher.stopping ≡ b
          → (reserved : Bool)
          → IsSound p (
              after_stop s (
                if b
                then none
                else let (operations, q') = if reserved then cancel_pending q else ([], q) in
                  some (operations, record s.dispatcher { stopping = true; queue = q' })))
      go true k reserved = h
      go false k true = record {
        conserved = omega (
          arith,
          h.conserved,
          ap (count p) (subst (λ b. RunIsClean b s.cancelling) k h.going),
          ap (count p) (pop_all_lem s.dispatcher.queue.queue s.dispatcher.queue.cancelled),
        );
        closed = refl;
        start = h.start;
        going = tt;
        exit = exit_on s.worker s.dispatcher.queue _ h.exit refl (λ e. refl);
        stop =
            stop_on s.dispatcher.stop_request_complete s.cancelling _
              (subst (λ b. StopIsClean s.dispatcher.stop_request_complete b s.cancelling) k h.stop);
        busy = h.busy;
        join = h.join;
      }
      go false k false = record {
        conserved =
            omega
              (arith, h.conserved, ap (count p) (subst (λ b. RunIsClean b s.cancelling) k h.going));
        closed = refl;
        start = h.start;
        going = tt;
        exit = exit_on s.worker s.dispatcher.queue _ h.exit refl (λ e. e);
        stop =
            stop_on s.dispatcher.stop_request_complete s.cancelling _
              (subst (λ b. StopIsClean s.dispatcher.stop_request_complete b s.cancelling) k h.stop);
        busy = h.busy;
        join = h.join;
      }
