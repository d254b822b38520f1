-- ===== src/Control/Lifecycle/Joins.antt =====
-- What the steps of the dispatcher's threads keep: the sources' submissions and the joins.
use mini_gateway.Prelude.{
  count-append, ℕ, max, length, leb, increment, ◌||◌, ◌≡◌, refl, subst, Bool, true, false, not,
  List, [], ◌∷◌, ◌++◌, arith, if◌then◌else◌, Result,
}
use mini_gateway.Control.{
  ControlStats, DeviceControlRequest, ControlSubmitResult, accepted, queue_full, unknown_device,
  invalid_request, stopping,
}
use mini_gateway.Control.Queue.{ControlCompletion, ControlOperation, ControlQueue, try_push}
use mini_gateway.Control.Dispatcher.{
  valid_request, is_resolved, count_submission, submit, complete, returned, waiting, join_worker,
  begin_join, end_join,
}
use mini_gateway.Control.Lifecycle.{
  System, Worker, not_started, idle, running, exited, submit_request, join_dispatcher, finish_join,
  after_submit, after_join, joined_worker, step,
}
use mini_gateway.Control.Lifecycle.Sound.{ExitIsClean, BusyIsClean, IsSound}

module _ (p : ControlOperation → Bool) where
  begin_join-IsSound :
      (s : System)
      → IsSound p s
      → s.dispatcher.stop_request_complete ≡ true
      → IsSound p (record s { dispatcher = record s.dispatcher { join_in_progress = true } })
  begin_join-IsSound s h e = record {
    conserved = h.conserved;
    closed = h.closed;
    start = h.start;
    going = h.going;
    exit = h.exit;
    stop = h.stop;
    busy = e;
    join = h.join;
  }

  pub join-IsSound : (s : System) → IsSound p s → IsSound p (step s join_dispatcher)
  unfolding step after_join begin_join
  join-IsSound s h =
      go s.dispatcher.started s.dispatcher.stop_request_complete refl s.dispatcher.joined
        s.dispatcher.join_in_progress
    where
      go :
          (started complete : Bool)
          → s.dispatcher.stop_request_complete ≡ complete
          → (joined busy : Bool)
          → IsSound p (
              after_join s (
                if not started
                then returned
                else if not complete
                then waiting
                else if joined
                then returned
                else if busy
                then waiting
                else join_worker (record s.dispatcher { join_in_progress = true })))
      go false complete e joined busy = h
      go true false e joined busy = h
      go true true e true busy = h
      go true true e false true = h
      go true true e false false = begin_join-IsSound s h e

  pub finish_join-IsSound :
      (s : System) (threw : Bool) → IsSound p s → IsSound p (step s (finish_join threw))
  unfolding step joined_worker end_join
  finish_join-IsSound s threw h = go threw s.worker refl
    where
      ended :
          (busy : Bool)
          → s.dispatcher.join_in_progress ≡ busy
          → s.worker ≡ exited
          → IsSound p (if busy then record s { dispatcher = end_join false s.dispatcher } else s)
      ended false e k = h
      ended true e k = record {
        conserved = h.conserved;
        closed = h.closed;
        start = h.start;
        going = h.going;
        exit = h.exit;
        stop = h.stop;
        busy = tt;
        join = (subst (λ b. BusyIsClean b s.dispatcher.stop_request_complete) e h.busy, k);
      }

      thrown :
          (busy : Bool)
          → IsSound p (if busy then record s { dispatcher = end_join true s.dispatcher } else s)
      thrown false = h
      thrown true = record {
        conserved = h.conserved;
        closed = h.closed;
        start = h.start;
        going = h.going;
        exit = h.exit;
        stop = h.stop;
        busy = tt;
        join = h.join;
      }

      go : (threw : Bool) (w : Worker) → s.worker ≡ w → IsSound p (joined_worker threw s w)
      go false exited e = ended s.dispatcher.join_in_progress refl e
      go false not_started e = h
      go false idle e = h
      go false (running operation) e = h
      go true w e = thrown s.dispatcher.join_in_progress

  recount-IsSound :
      (s : System) (t : ControlStats)
      → IsSound p s
      → IsSound p (record s { dispatcher = record s.dispatcher { stats = t } })
  recount-IsSound s t h = record {
    conserved = h.conserved;
    closed = h.closed;
    start = h.start;
    going = h.going;
    exit = h.exit;
    stop = h.stop;
    busy = h.busy;
    join = h.join;
  }

  push-IsSound :
      (s : System) (operation : ControlOperation) (t : ControlStats)
      → IsSound p s
      → IsSound p (
          let (result, queue) =
            try_push operation.request operation.completion operation.enqueued_at
              s.dispatcher.queue in
          after_submit operation s
            (result, record s.dispatcher { queue = queue; stats = count_submission result t }))
  unfolding try_push after_submit count_submission
  push-IsSound s operation t h =
      go s.dispatcher.queue.closed
        (leb s.dispatcher.queue.capacity (length s.dispatcher.queue.queue)) refl
    where
      q : ControlQueue
      q = s.dispatcher.queue

      longer : List ControlOperation
      longer = q.queue ++ operation ∷ []

      exit_on :
          (w : Worker) (after : ControlQueue)
          → ExitIsClean w q
          → q.closed ≡ false
          → ExitIsClean w after
      exit_on exited after k e = absurd cc
      exit_on not_started after k e = tt
      exit_on idle after k e = tt
      exit_on (running x) after k e = tt

      go :
          (closed full : Bool)
          → q.closed ≡ closed
          → IsSound p (
              let tried : ControlSubmitResult × ControlQueue =
                if closed
                then (stopping, q)
                else if full
                then (queue_full, record q { rejected_full = increment q.rejected_full })
                else (
                  accepted,
                  record q {
                    queue = longer;
                    max_size = max q.max_size (length longer);
                    accepted = increment q.accepted;
                  },
                ) in
              after_submit operation s (
                tried.0,
                record s.dispatcher { queue = tried.1; stats = count_submission tried.0 t },
              ))
      go true full e = recount-IsSound s _ h
      go false true e = record {
        conserved = h.conserved;
        closed = h.closed;
        start = h.start;
        going = h.going;
        exit = exit_on s.worker _ h.exit e;
        stop = h.stop;
        busy = h.busy;
        join = h.join;
      }
      go false false e = record {
        conserved = omega (
          arith,
          h.conserved,
          count-append p s.accepted (operation ∷ []),
          count-append p q.queue (operation ∷ []),
        );
        closed = h.closed;
        start = h.start;
        going = h.going;
        exit = exit_on s.worker _ h.exit e;
        stop = h.stop;
        busy = h.busy;
        join = h.join;
      }

  pub submit-IsSound :
      (s : System) (request : DeviceControlRequest) (completion : ControlCompletion)
      (driver : Result Bool) (now : ℕ)
      → IsSound p s
      → IsSound p (step s (submit_request request completion driver now))
  unfolding step submit after_submit
  submit-IsSound s request completion driver now h =
      go (valid_request request) s.dispatcher.started s.dispatcher.stopping (is_resolved driver)
    where
      operation : ControlOperation
      operation = record { request = request; completion = completion; enqueued_at = now }

      t : ControlStats
      t = record s.dispatcher.stats { submitted = increment s.dispatcher.stats.submitted }

      go :
          (valid started stop resolved : Bool)
          → IsSound p (
              after_submit operation s (
                if not valid
                then (
                  invalid_request,
                  record s.dispatcher { stats = count_submission invalid_request t },
                )
                else if not started || stop
                then (stopping, record s.dispatcher { stats = count_submission stopping t })
                else if not resolved
                then (
                  unknown_device,
                  record s.dispatcher { stats = count_submission unknown_device t },
                )
                else let (result, queue) = try_push request completion now s.dispatcher.queue in
                  (
                    result,
                    record s.dispatcher { queue = queue; stats = count_submission result t },
                  )))
      go false started stop resolved = recount-IsSound s _ h
      go true false stop resolved = recount-IsSound s _ h
      go true true true resolved = recount-IsSound s _ h
      go true true false false = recount-IsSound s _ h
      go true true false true = push-IsSound s operation t h
