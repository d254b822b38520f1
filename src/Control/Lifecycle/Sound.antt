-- ===== src/Control/Lifecycle/Sound.antt =====
-- What the steps of the dispatcher's threads keep: every accepted operation is in one place, and
-- the flags tell the truth. Here the start and the worker's steps.
use mini_gateway.Prelude.{
  count, count-append, ◌+◌, ◌≡◌, ◌≢◌, refl, ap, Bool, true, false, List, [], ◌∷◌, arith,
  if◌then◌else◌, ok, err, logic_error,
}
use mini_gateway.Control.Queue.{ControlOperation, ControlQueue, blocked, finished, popped, wait_pop}
use mini_gateway.Control.Dispatcher.{start, complete}
use mini_gateway.Control.Execute.{Answers}
use mini_gateway.Control.Lifecycle.{
  System, Worker, not_started, idle, running, exited, start_dispatcher, take_operation,
  execute_operation, after_start, after_take, take, run_operation, step,
}

-- what the worker is executing
abbrev pub held : Worker → List ControlOperation
held (running operation) = operation ∷ []
held _ = []

-- A worker that has returned leaves a closed, empty queue behind.
abbrev pub ExitIsClean : Worker → ControlQueue → Type 0
ExitIsClean exited q = (q.closed ≡ true) × (q.queue ≡ [])
ExitIsClean _ q = Unit

-- The second Boolean is the dispatcher's `stopping_`.
abbrev pub StopIsClean : Bool → Bool → List ControlOperation → Type 0
StopIsClean true stop cancelling = (stop ≡ true) × (cancelling ≡ [])
StopIsClean false stop cancelling = Unit

abbrev pub JoinIsClean : Bool → Bool → Worker → Type 0
JoinIsClean true complete worker = (complete ≡ true) × (worker ≡ exited)
JoinIsClean false complete worker = Unit

-- The worker is joined only after the stop request is complete.
abbrev pub BusyIsClean : Bool → Bool → Type 0
BusyIsClean true complete = complete ≡ true
BusyIsClean false complete = Unit

-- Before the start there is no worker.
abbrev pub StartIsClean : Bool → Worker → Type 0
StartIsClean true worker = Unit
StartIsClean false worker = worker ≡ not_started

-- Before the stop nothing is being cancelled.
abbrev pub RunIsClean : Bool → List ControlOperation → Type 0
RunIsClean true cancelling = Unit
RunIsClean false cancelling = cancelling ≡ []

module _ (p : ControlOperation → Bool) where
  pub record IsSound (s : System) : Type 0 where
    pub conserved :
        count p s.accepted
        ≡ count p s.completed
          + count p (held s.worker)
          + count p s.cancelling
          + count p s.dispatcher.queue.queue
    pub closed : s.dispatcher.queue.closed ≡ s.dispatcher.stopping
    pub start : StartIsClean s.dispatcher.started s.worker
    pub going : RunIsClean s.dispatcher.stopping s.cancelling
    pub exit : ExitIsClean s.worker s.dispatcher.queue
    pub stop : StopIsClean s.dispatcher.stop_request_complete s.dispatcher.stopping s.cancelling
    pub busy : BusyIsClean s.dispatcher.join_in_progress s.dispatcher.stop_request_complete
    pub join : JoinIsClean s.dispatcher.joined s.dispatcher.stop_request_complete s.worker

  start_idle :
      (started : Bool) (w w' : Worker)
      → StartIsClean started w
      → w ≢ not_started
      → StartIsClean started w'
  start_idle true w w' h ne = tt
  start_idle false w w' h ne = absurd (ne h)

  pub join_worker_ne :
      (joined complete : Bool) (w w' : Worker)
      → JoinIsClean joined complete w
      → w ≢ exited
      → JoinIsClean joined complete w'
  join_worker_ne true complete w w' h ne = absurd (ne h.1)
  join_worker_ne false complete w w' h ne = tt

  pub start-IsSound : (s : System) → IsSound s → IsSound (step s start_dispatcher)
  unfolding step start after_start
  start-IsSound s h = go s.dispatcher.started s.dispatcher.stopping h.start
    where
      go :
          (b c : Bool)
          → StartIsClean b s.worker
          → IsSound (
              after_start s (
                if b
                then err (logic_error "control dispatcher has already been started")
                else if c
                then err (logic_error "control dispatcher has already been stopped")
                else ok (record s.dispatcher { started = true })))
      go true c k = h
      go false true k = h
      go false false k = record {
        conserved = omega (arith, h.conserved, ap (λ w. count p (held w)) k);
        closed = h.closed;
        start = tt;
        going = h.going;
        exit = tt;
        stop = h.stop;
        busy = h.busy;
        join =
            join_worker_ne s.dispatcher.joined s.dispatcher.stop_request_complete s.worker idle
              h.join (λ e. absurd (cc));
      }

  pub take-IsSound : (s : System) → IsSound s → IsSound (step s take_operation)
  unfolding step take after_take wait_pop
  take-IsSound s h = go s.worker refl
    where
      look :
          (operations : List ControlOperation) (closed : Bool)
          → s.dispatcher.queue.queue ≡ operations
          → s.dispatcher.queue.closed ≡ closed
          → s.worker ≡ idle
          → IsSound (
              after_take s (elim operations [
                | [] ↦ if closed then finished else blocked
                | operation ∷ rest ↦ popped operation (record s.dispatcher.queue { queue = rest })
              ]))
      look [] false e c k = h
      look [] true e c k = record {
        conserved = omega (arith, h.conserved, ap (λ w. count p (held w)) k);
        closed = h.closed;
        start = start_idle s.dispatcher.started s.worker _ h.start (λ e. absurd cc);
        going = h.going;
        exit = (c, e);
        stop = h.stop;
        busy = h.busy;
        join =
            join_worker_ne s.dispatcher.joined s.dispatcher.stop_request_complete s.worker exited
              h.join (λ e. absurd cc);
      }
      look (operation ∷ rest) closed e c k = record {
        conserved = omega (arith, h.conserved, ap (λ w. count p (held w)) k, ap (λ q. count p q) e);
        closed = h.closed;
        start = start_idle s.dispatcher.started s.worker _ h.start (λ e. absurd cc);
        going = h.going;
        exit = tt;
        stop = h.stop;
        busy = h.busy;
        join =
            join_worker_ne s.dispatcher.joined s.dispatcher.stop_request_complete s.worker
              (running operation) h.join (λ e. absurd cc);
      }

      go : (w : Worker) → s.worker ≡ w → IsSound (take s w)
      go idle k = look s.dispatcher.queue.queue s.dispatcher.queue.closed refl refl k
      go not_started k = h
      go (running operation) k = h
      go exited k = h

  pub execute-IsSound :
      (s : System) (a : Answers) → IsSound s → IsSound (step s (execute_operation a))
  unfolding step run_operation
  execute-IsSound s a h = go s.worker refl
    where
      go : (w : Worker) → s.worker ≡ w → IsSound (run_operation a s w)
      go (running operation) k = record {
        conserved = omega (
          arith,
          h.conserved,
          ap (λ w. count p (held w)) k,
          count-append p s.completed (operation ∷ []),
        );
        closed = h.closed;
        start = start_idle s.dispatcher.started s.worker idle h.start (λ e. absurd cc);
        going = h.going;
        exit = tt;
        stop = h.stop;
        busy = h.busy;
        join =
            join_worker_ne s.dispatcher.joined s.dispatcher.stop_request_complete s.worker idle
              h.join (λ e. absurd cc);
      }
      go not_started k = h
      go idle k = h
      go exited k = h
