-- ===== src/Runtime/Lifecycle/Undo.antt =====
-- The calls of the rollback of a failed `start`, and their order.
use mini_gateway.Prelude.{
  ap, ◌∙◌, ℕ, Bool, true, false, Option, none, some, List, [], ◌∷◌, ◌++◌, map, reverse, ◌≡◌, refl,
  arith, append-nil,
}
use mini_gateway.Runtime.Lifecycle.{
  Act, stop_publisher, stop_driver, request_dispatcher_stop, join_dispatcher, join_worker,
  close_queue, refuse_controls, request_source_stop, stop_source, request_scheduler_stop,
  join_scheduler, when, rollback, Progress,
}
use mini_gateway.Runtime.Lifecycle.Collect.{
  collect, collect-append, collect-map-some, collect-map-none, collect-when_none, publisher_stopped,
  driver_stopped, source_stopped,
}
use mini_gateway.Runtime.Lifecycle.Order.{
  InOrder, Within-append, Within-map, Within-when, Within-cons, Within-one, Within-two,
}

rollback-InOrder : (g : Progress) → InOrder 0 (rollback g)
unfolding rollback
rollback-InOrder g =
    (Within-append 0 9 10 10
      (Within-append 0 7 8 9
        (Within-append 0 6 7 7
          (Within-append 0 5 6 6
            (Within-append 0 3 4 5
              (Within-append 0 1 2 3
                (Within-cons refuse_controls 0 1 1 (omega arith) (omega arith)
                  (Within-map 1 request_source_stop (reverse g.sources) (λ _. refl)))
                (Within-when 2 3 g.scheduler
                  (Within-two request_scheduler_stop join_scheduler (omega arith)))
                (omega arith))
              (Within-when 4 5 g.dispatcher
                (Within-two request_dispatcher_stop join_dispatcher (omega arith)))
              (omega arith))
            (Within-map 6 stop_source (reverse g.sources) (λ _. refl)) (omega arith))
          (Within-map 7 stop_driver (reverse g.drivers) (λ _. refl)) (omega arith))
        (Within-cons close_queue 8 9 9 (omega arith) (omega arith)
          (Within-when 9 9 g.worker (Within-one join_worker)))
        (omega arith))
      (Within-map 10 stop_publisher (reverse g.publishers) (λ _. refl)) (omega arith)).in_order

abbrev source_requested : Act → Option ℕ
source_requested (request_source_stop x) = some x
source_requested _ = none

-- A call of one of the runtime's own parts, not of a plugin.
abbrev own_call : Act → Option Act
own_call (request_source_stop x) = none
own_call (stop_source x) = none
own_call (stop_driver x) = none
own_call (stop_publisher x) = none
own_call act = some act

-- What `start` counts, undone by these calls: in the order of their phases, every source asked to
-- stop and stopped, every driver and publisher stopped, last first and once each; controls refused
-- and the queue closed, always; the scheduler and the dispatcher asked to stop and joined, and the
-- worker joined, if they were started; and no other calls of the runtime's own parts.
pub record IsRollback (g : Progress) (acts : List Act) : Type 0 where
  pub in_order : InOrder 0 acts
  pub requests : collect source_requested acts ≡ reverse g.sources
  pub sources : collect source_stopped acts ≡ reverse g.sources
  pub drivers : collect driver_stopped acts ≡ reverse g.drivers
  pub publishers : collect publisher_stopped acts ≡ reverse g.publishers
  pub own :
      collect own_call acts
      ≡ refuse_controls ∷ when g.scheduler (request_scheduler_stop ∷ join_scheduler ∷ [])
        ++ when g.dispatcher (request_dispatcher_stop ∷ join_dispatcher ∷ [])
        ++ close_queue ∷ when g.worker (join_worker ∷ [])

requests_lem : (g : Progress) → collect source_requested (rollback g) ≡ reverse g.sources
unfolding rollback
requests_lem g = simp (
  collect-append,
  append-nil,
  collect-when_none source_requested g.scheduler (request_scheduler_stop ∷ join_scheduler ∷ [])
      refl,
  collect-when_none source_requested g.dispatcher (request_dispatcher_stop ∷ join_dispatcher ∷ [])
      refl,
  collect-when_none source_requested g.worker (join_worker ∷ []) refl,
  collect-map-some source_requested request_source_stop (reverse g.sources) (λ _. refl),
  collect-map-none source_requested stop_source (reverse g.sources) (λ _. refl),
  collect-map-none source_requested stop_driver (reverse g.drivers) (λ _. refl),
  collect-map-none source_requested stop_publisher (reverse g.publishers) (λ _. refl),
)

sources_lem : (g : Progress) → collect source_stopped (rollback g) ≡ reverse g.sources
unfolding rollback
sources_lem g = simp (
  collect-append,
  append-nil,
  collect-when_none source_stopped g.scheduler (request_scheduler_stop ∷ join_scheduler ∷ []) refl,
  collect-when_none source_stopped g.dispatcher (request_dispatcher_stop ∷ join_dispatcher ∷ [])
      refl,
  collect-when_none source_stopped g.worker (join_worker ∷ []) refl,
  collect-map-none source_stopped request_source_stop (reverse g.sources) (λ _. refl),
  collect-map-some source_stopped stop_source (reverse g.sources) (λ _. refl),
  collect-map-none source_stopped stop_driver (reverse g.drivers) (λ _. refl),
  collect-map-none source_stopped stop_publisher (reverse g.publishers) (λ _. refl),
)

drivers_lem : (g : Progress) → collect driver_stopped (rollback g) ≡ reverse g.drivers
unfolding rollback
drivers_lem g = simp (
  collect-append,
  append-nil,
  collect-when_none driver_stopped g.scheduler (request_scheduler_stop ∷ join_scheduler ∷ []) refl,
  collect-when_none driver_stopped g.dispatcher (request_dispatcher_stop ∷ join_dispatcher ∷ [])
      refl,
  collect-when_none driver_stopped g.worker (join_worker ∷ []) refl,
  collect-map-none driver_stopped request_source_stop (reverse g.sources) (λ _. refl),
  collect-map-none driver_stopped stop_source (reverse g.sources) (λ _. refl),
  collect-map-some driver_stopped stop_driver (reverse g.drivers) (λ _. refl),
  collect-map-none driver_stopped stop_publisher (reverse g.publishers) (λ _. refl),
)

publishers_lem : (g : Progress) → collect publisher_stopped (rollback g) ≡ reverse g.publishers
unfolding rollback
publishers_lem g = simp (
  collect-append,
  append-nil,
  collect-when_none publisher_stopped g.scheduler (request_scheduler_stop ∷ join_scheduler ∷ [])
      refl,
  collect-when_none publisher_stopped g.dispatcher (request_dispatcher_stop ∷ join_dispatcher ∷ [])
      refl,
  collect-when_none publisher_stopped g.worker (join_worker ∷ []) refl,
  collect-map-none publisher_stopped request_source_stop (reverse g.sources) (λ _. refl),
  collect-map-none publisher_stopped stop_source (reverse g.sources) (λ _. refl),
  collect-map-none publisher_stopped stop_driver (reverse g.drivers) (λ _. refl),
  collect-map-some publisher_stopped stop_publisher (reverse g.publishers) (λ _. refl),
)

-- Calls of plugins do not count.
skipped :
    {A : Type 0} (c : A → Act) (xs : List A) (front : List Act)
    → ((x : A) → own_call (c x) ≡ none)
    → collect own_call (front ++ map c xs) ≡ collect own_call front
skipped c xs front h =
    collect-append own_call front (map c xs)
    ∙ ap (λ acts. collect own_call front ++ acts) (collect-map-none own_call c xs h)
    ∙ append-nil (collect own_call front)

kept :
    (b : Bool) (acts : List Act)
    → collect own_call acts ≡ acts
    → collect own_call (when b acts) ≡ when b acts
kept true acts h = h
kept false acts h = refl

own_lem :
    (g : Progress)
    → collect own_call (rollback g)
      ≡ refuse_controls ∷ when g.scheduler (request_scheduler_stop ∷ join_scheduler ∷ [])
        ++ when g.dispatcher (request_dispatcher_stop ∷ join_dispatcher ∷ [])
        ++ close_queue ∷ when g.worker (join_worker ∷ [])
unfolding rollback
own_lem g =
    skipped stop_publisher (reverse g.publishers)
      (front
        ++ map stop_source (reverse g.sources)
        ++ map stop_driver (reverse g.drivers)
        ++ (close_queue ∷ worker))
      (λ _. refl)
    ∙ collect-append own_call
        (front ++ map stop_source (reverse g.sources) ++ map stop_driver (reverse g.drivers))
        (close_queue ∷ worker)
    ∙ ap (λ acts. acts ++ collect own_call (close_queue ∷ worker))
        (skipped stop_driver (reverse g.drivers) (front ++ map stop_source (reverse g.sources))
            (λ _. refl)
          ∙ skipped stop_source (reverse g.sources) front (λ _. refl)
          ∙ front_lem)
    ∙ ap (λ acts. refuse_controls ∷ scheduler ++ dispatcher ++ close_queue ∷ acts)
        (kept g.worker (join_worker ∷ []) refl)
  where
    scheduler : List Act
    scheduler = when g.scheduler (request_scheduler_stop ∷ join_scheduler ∷ [])

    dispatcher : List Act
    dispatcher = when g.dispatcher (request_dispatcher_stop ∷ join_dispatcher ∷ [])

    worker : List Act
    worker = when g.worker (join_worker ∷ [])

    front : List Act
    front = refuse_controls ∷ map request_source_stop (reverse g.sources) ++ scheduler ++ dispatcher

    front_lem : collect own_call front ≡ refuse_controls ∷ scheduler ++ dispatcher
    front_lem =
        collect-append own_call
          (refuse_controls ∷ map request_source_stop (reverse g.sources) ++ scheduler) dispatcher
        ∙ ap (λ acts. acts ++ collect own_call dispatcher)
            (collect-append own_call (refuse_controls ∷ map request_source_stop (reverse g.sources))
              scheduler)
        ∙ ap
            (λ acts.
              (refuse_controls ∷ acts) ++ collect own_call scheduler ++ collect own_call dispatcher)
            (collect-map-none own_call request_source_stop (reverse g.sources) (λ _. refl))
        ∙ ap (λ acts. refuse_controls ∷ acts ++ collect own_call dispatcher)
            (kept g.scheduler (request_scheduler_stop ∷ join_scheduler ∷ []) refl)
        ∙ ap (λ acts. refuse_controls ∷ scheduler ++ acts)
            (kept g.dispatcher (request_dispatcher_stop ∷ join_dispatcher ∷ []) refl)

-- The rollback of a failed `start` makes exactly these calls, in this order: no more controls are
-- accepted; every source counted is asked to stop; the scheduler is stopped and joined, then the
-- dispatcher, if they were started; the sources are stopped, then the drivers; then the queue is
-- closed, and the worker joined if it was started; the publishers, which the worker uses, are
-- stopped at the end. Plugins of one kind are taken last first, each once.
pub rollback-IsRollback : (g : Progress) → IsRollback g (rollback g)
rollback-IsRollback g = record {
  in_order = rollback-InOrder g;
  requests = requests_lem g;
  sources = sources_lem g;
  drivers = drivers_lem g;
  publishers = publishers_lem g;
  own = own_lem g;
}
