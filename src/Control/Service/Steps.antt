-- ===== src/Control/Service/Steps.antt =====
-- Each call of the dispatcher's threads is a step of the service.
use mini_gateway.Prelude.{
  ℕ, arith, ◌≡◌, refl, sym, ap, ◌∙◌, Bool, true, false, not, List, [], ◌∷◌, ◌++◌, append-nil,
  append_assoc, if◌then◌else◌, none, some, Result, ok, err, logic_error,
}
use mini_gateway.Control.{ControlSubmitResult, DeviceControlRequest}
use mini_gateway.Control.Queue.{
  ControlOperation, ControlQueue, ControlCompletion, blocked, finished, popped, wait_pop, close,
  cancel_pending, pop_all_lem,
}
use mini_gateway.Control.Dispatcher.{
  Dispatcher, start, submit, begin_stop, cancel, end_stop, begin_join, end_join, returned, waiting,
  join_worker,
}
use mini_gateway.Control.Execute.{Answers}
use mini_gateway.Control.Lifecycle.{
  System, Worker, not_started, idle, running, exited, start_dispatcher, submit_request,
  take_operation, execute_operation, request_stop, cancel_operation, finish_stop, join_dispatcher,
  finish_join, step, after_start, after_submit, after_take, take, run_operation, after_stop,
  cancel_next, stop_finished, after_join, joined_worker,
}
use mini_gateway.Control.Lifecycle.Sound.{held, IsSound, StartIsClean, RunIsClean}
use mini_gateway.Control.Service.{
  Serves, called, submitted, event_of, refuses, rests, accepts, completes, closes,
  waiting_operations, service_of,
}
use mini_gateway.Control.Dispatcher.Submit.{
  Reason, malformed, not_running, unresolved, no_room, stored, submit-IsSubmission,
}
use mathlib.Core.List.{perm_middle, perm_append_singleton}
use mathlib.Mathlib.Data.Multiset.Defs.{Multiset, of_list, coe-eq-coe}
use mathlib.Mathlib.Data.Multiset.ZeroCons.{cons}

-- any test of operations; the invariants of the flags do not depend on it
abbrev pub any : ControlOperation → Bool
any operation = true

-- An operation inside the list of those that wait.
moved :
    (before after : List ControlOperation) (operation : ControlOperation)
    → of_list (before ++ (operation ∷ after)) ≡ cons operation (of_list (before ++ after))
moved before after operation = coe-eq-coe.1 (perm_middle before after)

appended :
    (first second third : List ControlOperation) (operation : ControlOperation)
    → of_list (first ++ (second ++ (third ++ (operation ∷ []))))
      ≡ cons operation (of_list (first ++ (second ++ third)))
appended first second third operation =
    ap of_list (
      ap (λ rest. first ++ rest) (sym (append_assoc second third (operation ∷ [])))
      ∙ sym (append_assoc first (second ++ third) (operation ∷ [])))
    ∙ coe-eq-coe.1 (perm_append_singleton operation (first ++ (second ++ third)))

-- Where the operations wait, by its three places.
abbrev places : Worker → List ControlOperation → List ControlOperation → Multiset ControlOperation
places worker cancelling queue = of_list (held worker ++ (cancelling ++ queue))

unstarted_holds :
    (started : Bool) (w : Worker) → StartIsClean started w → started ≡ false → held w ≡ []
unstarted_holds true w h e = absurd cc
unstarted_holds false w h e = ap held h

pub start-Serves :
    (s : System)
    → IsSound any s
    → Serves (called false) (service_of s) (service_of (step s start_dispatcher))
unfolding step start after_start
start-Serves s h = go s.dispatcher.started s.dispatcher.stopping refl
  where
    go :
        (b c : Bool)
        → s.dispatcher.started ≡ b
        → Serves (called false) (service_of s) (
            service_of (
              after_start s (
                if b
                then err (logic_error "control dispatcher has already been started")
                else if c
                then err (logic_error "control dispatcher has already been stopped")
                else ok (record s.dispatcher { started = true }))))
    go true c e = rests refl refl refl
    go false true e = rests refl refl refl
    go false false e =
        rests refl
          (ap (λ w. of_list (w ++ (s.cancelling ++ s.dispatcher.queue.queue)))
            (sym (unstarted_holds s.dispatcher.started s.worker h.start e)))
          refl

pub take-Serves :
    (s : System) → Serves (called false) (service_of s) (service_of (step s take_operation))
unfolding step take after_take wait_pop
take-Serves s = go s.worker refl
  where
    look :
        (operations : List ControlOperation) (closed : Bool)
        → s.dispatcher.queue.queue ≡ operations
        → s.worker ≡ idle
        → Serves (called false) (service_of s) (
            service_of (
              after_take s (elim operations [
                | [] ↦ if closed then finished else blocked
                | operation ∷ rest ↦ popped operation (record s.dispatcher.queue { queue = rest })
              ])))
    look [] false e k = rests refl refl refl
    look [] true e k =
        rests refl
          (ap (λ w. of_list (held w ++ (s.cancelling ++ s.dispatcher.queue.queue))) (sym k)) refl
    look (operation ∷ rest) closed e k =
        rests refl
          (sym (
            ap (λ w. places w s.cancelling s.dispatcher.queue.queue) k
            ∙ ap (λ q. places idle s.cancelling q) e
            ∙ moved s.cancelling rest operation))
          refl

    go : (w : Worker) → s.worker ≡ w → Serves (called false) (service_of s) (service_of (take s w))
    go idle k = look s.dispatcher.queue.queue s.dispatcher.queue.closed refl k
    go not_started k = rests refl refl refl
    go (running operation) k = rests refl refl refl
    go exited k = rests refl refl refl

pub execute-Serves :
    (s : System) (a : Answers)
    → Serves (called true) (service_of s) (service_of (step s (execute_operation a)))
unfolding step run_operation
execute-Serves s a = go s.worker refl
  where
    go :
        (w : Worker)
        → s.worker ≡ w
        → Serves (called true) (service_of s) (service_of (run_operation a s w))
    go (running operation) k =
        completes operation refl (ap (λ w. places w s.cancelling s.dispatcher.queue.queue) k) refl
    go not_started k = rests refl refl refl
    go idle k = rests refl refl refl
    go exited k = rests refl refl refl

pub cancel-Serves :
    (s : System) → Serves (called true) (service_of s) (service_of (step s cancel_operation))
unfolding step cancel_next cancel
cancel-Serves s = go s.cancelling refl
  where
    go :
        (operations : List ControlOperation)
        → s.cancelling ≡ operations
        → Serves (called true) (service_of s) (service_of (cancel_next s operations))
    go [] e = rests refl refl refl
    go (operation ∷ rest) e =
        completes operation refl
          (ap (λ c. places s.worker c s.dispatcher.queue.queue) e
            ∙ moved (held s.worker) (rest ++ s.dispatcher.queue.queue) operation)
          refl

submit_keeps :
    (request : DeviceControlRequest) (completion : ControlCompletion) (driver : Result Bool)
    (now : ℕ) (d : Dispatcher)
    → (submit request completion driver now d).1.stopping ≡ d.stopping
unfolding submit
submit_keeps request completion driver now d = ground arith

Reason-Serves :
    (s : System) (request : DeviceControlRequest) (completion : ControlCompletion)
    (driver : Result Bool) (now : ℕ) (result : ControlSubmitResult) (q : ControlQueue)
    (d : Dispatcher)
    → Reason request completion driver now s.dispatcher result q
    → d.queue ≡ q
    → d.stopping ≡ s.dispatcher.stopping
    → Serves
        (submitted
          (record { request = request; completion = completion; enqueued_at = now })
          result)
        (service_of s)
        (service_of (
          after_submit
            (record { request = request; completion = completion; enqueued_at = now })
            s
            (result, d)))
unfolding after_submit
Reason-Serves s request completion driver now _ _ d (malformed why) e same =
    refuses refl (ap not same) (ap (λ q. places s.worker s.cancelling q.queue) e) refl
Reason-Serves s request completion driver now _ _ d (not_running why) e same =
    refuses refl (ap not same) (ap (λ q. places s.worker s.cancelling q.queue) e) refl
Reason-Serves s request completion driver now _ _ d (unresolved why) e same =
    refuses refl (ap not same) (ap (λ q. places s.worker s.cancelling q.queue) e) refl
Reason-Serves s request completion driver now _ _ d (no_room why) e same =
    refuses refl (ap not same) (ap (λ q. places s.worker s.cancelling q.queue) e) refl
Reason-Serves s request completion driver now _ _ d
      (stored named (a, going, r) queue longer room counted) e same =
    accepts (ap not going) (ap not (same ∙ going))
      (ap (λ q. places s.worker s.cancelling q) (ap (λ q. q.queue) e ∙ longer)
        ∙ appended (held s.worker) s.cancelling s.dispatcher.queue.queue _)
      refl

pub submit-Serves :
    (s : System) (request : DeviceControlRequest) (completion : ControlCompletion)
    (driver : Result Bool) (now : ℕ)
    → Serves
        (event_of s (submit_request request completion driver now))
        (service_of s)
        (service_of (step s (submit_request request completion driver now)))
unfolding step event_of
submit-Serves s request completion driver now =
    let after = submit request completion driver now s.dispatcher in
    Reason-Serves s request completion driver now after.0 after.1.queue after.1
      (submit-IsSubmission request completion driver now s.dispatcher).reason refl
      (submit_keeps request completion driver now s.dispatcher)

going_empty :
    (stop : Bool) (cancelling : List ControlOperation)
    → RunIsClean stop cancelling
    → stop ≡ false
    → cancelling ≡ []
going_empty true cancelling h e = absurd cc
going_empty false cancelling h e = h

pub begin_stop-Serves :
    (s : System) (reserved : Bool)
    → IsSound any s
    → Serves (called false) (service_of s) (service_of (step s (request_stop reserved)))
unfolding step after_stop begin_stop close cancel_pending
begin_stop-Serves s reserved h = go s.dispatcher.stopping reserved refl
  where
    nothing_cancelled :
        s.dispatcher.stopping ≡ false
        → of_list (waiting_operations s) ≡ places s.worker [] s.dispatcher.queue.queue
    nothing_cancelled e =
        ap (λ c. places s.worker c s.dispatcher.queue.queue)
          (going_empty s.dispatcher.stopping s.cancelling h.going e)

    go :
        (b r : Bool)
        → s.dispatcher.stopping ≡ b
        → Serves (called false) (service_of s) (
            service_of (
              after_stop s (
                if b
                then none
                else (let q = close s.dispatcher.queue in
                    let taken = if r then cancel_pending q else ([], q) in
                    some (taken.0, record s.dispatcher { stopping = true; queue = taken.1 })))))
    go true r e = rests refl refl refl
    go false true e =
        closes (ap not e) refl
          (ap (λ rest. of_list (held s.worker ++ rest))
              (append-nil _ ∙ pop_all_lem s.dispatcher.queue.queue s.dispatcher.queue.cancelled)
            ∙ sym (nothing_cancelled e))
          refl
    go false false e = closes (ap not e) refl (sym (nothing_cancelled e)) refl

-- A call that may change other flags only.
flags-Serves :
    (b : Bool) (s : System) (d : Dispatcher)
    → d.stopping ≡ s.dispatcher.stopping
    → d.queue ≡ s.dispatcher.queue
    → Serves
        (called false)
        (service_of s)
        (service_of (if b then record s { dispatcher = d } else s))
flags-Serves true s d same queue =
    rests (ap not same) (ap (λ q. places s.worker s.cancelling q.queue) queue) refl
flags-Serves false s d same queue = rests refl refl refl

pub finish_stop-Serves :
    (s : System) → Serves (called false) (service_of s) (service_of (step s finish_stop))
unfolding step stop_finished end_stop
finish_stop-Serves s = go s.cancelling
  where
    go :
        (operations : List ControlOperation)
        → Serves (called false) (service_of s) (service_of (stop_finished s operations))
    go [] = flags-Serves s.dispatcher.stopping s _ refl refl
    go (operation ∷ rest) = rests refl refl refl

pub join-Serves :
    (s : System) → Serves (called false) (service_of s) (service_of (step s join_dispatcher))
unfolding step after_join begin_join
join-Serves s =
    go s.dispatcher.started s.dispatcher.stop_request_complete s.dispatcher.joined
      s.dispatcher.join_in_progress
  where
    go :
        (started complete joined busy : Bool)
        → Serves (called false) (service_of s) (
            service_of (
              after_join s (
                if not started
                then returned
                else if not complete
                then waiting
                else if joined
                then returned
                else if busy
                then waiting
                else join_worker (record s.dispatcher { join_in_progress = true }))))
    go false complete joined busy = rests refl refl refl
    go true false joined busy = rests refl refl refl
    go true true true busy = rests refl refl refl
    go true true false true = rests refl refl refl
    go true true false false = rests refl refl refl

pub finish_join-Serves :
    (s : System) (threw : Bool)
    → Serves (called false) (service_of s) (service_of (step s (finish_join threw)))
unfolding step joined_worker end_join
finish_join-Serves s threw = go threw s.worker
  where
    go :
        (t : Bool) (w : Worker)
        → Serves (called false) (service_of s) (service_of (joined_worker t s w))
    go true w = flags-Serves s.dispatcher.join_in_progress s _ refl refl
    go false exited = flags-Serves s.dispatcher.join_in_progress s _ refl refl
    go false not_started = rests refl refl refl
    go false idle = rests refl refl refl
    go false (running operation) = rests refl refl refl
