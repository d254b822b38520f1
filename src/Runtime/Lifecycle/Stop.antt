-- ===== src/Runtime/Lifecycle/Stop.antt =====
-- What `stop` does to a running runtime.
use mini_gateway.Prelude.{
  count, count-append, String, Bool, true, false, Option, none, some, List, [], ◌∷◌, ◌++◌, reverse,
  ◌≡◌, refl, ap, ◌∙◌, arith, All, lookup, ◌+◌, if◌then◌else◌, append-nil, Table,
}
use mini_gateway.Runtime.{AcquisitionMode, poll, push}
use mini_gateway.Runtime.Lifecycle.{
  Act, stop_publisher, stop_driver, request_dispatcher_stop, join_dispatcher, join_worker,
  close_queue, refuse_controls, request_source_stop, stop_source, request_scheduler_stop,
  join_scheduler, Plugins, shutdown, with_mode, is_mode, Runtime, stop, shut_down, returned,
}
use mini_gateway.Runtime.Lifecycle.Collect.{
  collect, collect-append, collect-map-some, collect-map-none, collect-when_none, publisher_stopped,
  driver_stopped, source_stopped,
}
use mini_gateway.Runtime.Lifecycle.Order.{
  InOrder, Within-append, Within-map, Within-when, Within-cons, Within-one, Within-two,
}

shutdown-InOrder : (p : Plugins) (s w : Bool) → InOrder 0 (shutdown p s w)
unfolding shutdown
shutdown-InOrder p s w =
    (Within-append 0 9 10 10
      (Within-append 0 7 8 9
        (Within-append 0 7 7 7
          (Within-append 0 6 7 7
            (Within-append 0 3 4 6
              (Within-append 0 1 2 3
                (Within-cons refuse_controls 0 1 1 (omega arith) (omega arith)
                  (Within-map 1 request_source_stop (reverse p.sources) (λ _. refl)))
                (Within-when 2 3 s (Within-two request_scheduler_stop join_scheduler (omega arith)))
                (omega arith))
              (Within-cons request_dispatcher_stop 4 6 5 (omega arith) (omega arith) (
                Within-cons join_dispatcher 5 6 6 (omega arith) (omega arith)
                  (Within-map 6 stop_source (reverse p.sources) (λ _. refl))))
              (omega arith))
            (Within-map 7 stop_driver (with_mode p.driver_modes push p.drivers) (λ _. refl))
            (omega arith))
          (Within-map 7 stop_driver (with_mode p.driver_modes poll p.drivers) (λ _. refl))
          (omega arith))
        (Within-cons close_queue 8 9 9 (omega arith) (omega arith)
          (Within-when 9 9 w (Within-one join_worker)))
        (omega arith))
      (Within-map 10 stop_publisher (reverse p.publishers) (λ _. refl)) (omega arith)).in_order

module _ (p : Plugins) (s w : Bool) where
  sources_lem : collect source_stopped (shutdown p s w) ≡ reverse p.sources
  unfolding shutdown
  sources_lem = simp (
    collect-append,
    append-nil,
    collect-map-none source_stopped request_source_stop (reverse p.sources) (λ _. refl),
    collect-when_none source_stopped s (request_scheduler_stop ∷ join_scheduler ∷ []) refl,
    collect-map-some source_stopped stop_source (reverse p.sources) (λ _. refl),
    collect-map-none source_stopped stop_driver (with_mode p.driver_modes push p.drivers)
        (λ _. refl),
    collect-map-none source_stopped stop_driver (with_mode p.driver_modes poll p.drivers)
        (λ _. refl),
    collect-when_none source_stopped w (join_worker ∷ []) refl,
    collect-map-none source_stopped stop_publisher (reverse p.publishers) (λ _. refl),
  )

  publishers_lem : collect publisher_stopped (shutdown p s w) ≡ reverse p.publishers
  unfolding shutdown
  publishers_lem = simp (
    collect-append,
    append-nil,
    collect-map-none publisher_stopped request_source_stop (reverse p.sources) (λ _. refl),
    collect-when_none publisher_stopped s (request_scheduler_stop ∷ join_scheduler ∷ []) refl,
    collect-map-none publisher_stopped stop_source (reverse p.sources) (λ _. refl),
    collect-map-none publisher_stopped stop_driver (with_mode p.driver_modes push p.drivers)
        (λ _. refl),
    collect-map-none publisher_stopped stop_driver (with_mode p.driver_modes poll p.drivers)
        (λ _. refl),
    collect-when_none publisher_stopped w (join_worker ∷ []) refl,
    collect-map-some publisher_stopped stop_publisher (reverse p.publishers) (λ _. refl),
  )

  drivers_lem :
      collect driver_stopped (shutdown p s w)
      ≡ with_mode p.driver_modes push p.drivers ++ with_mode p.driver_modes poll p.drivers
  unfolding shutdown
  drivers_lem = simp (
    collect-append,
    append-nil,
    collect-map-none driver_stopped request_source_stop (reverse p.sources) (λ _. refl),
    collect-when_none driver_stopped s (request_scheduler_stop ∷ join_scheduler ∷ []) refl,
    collect-map-none driver_stopped stop_source (reverse p.sources) (λ _. refl),
    collect-map-some driver_stopped stop_driver (with_mode p.driver_modes push p.drivers)
        (λ _. refl),
    collect-map-some driver_stopped stop_driver (with_mode p.driver_modes poll p.drivers)
        (λ _. refl),
    collect-when_none driver_stopped w (join_worker ∷ []) refl,
    collect-map-none driver_stopped stop_publisher (reverse p.publishers) (λ _. refl),
  )

-- The drivers that have a mode are those that the two loops stop.
count-with_mode :
    (q : String → Bool) (modes : Table AcquisitionMode) (ds : List String)
    → All (λ d. (m : AcquisitionMode) × (lookup d modes ≡ some m)) ds
    → count q (with_mode modes push ds) + count q (with_mode modes poll ds) ≡ count q ds
unfolding with_mode
count-with_mode q modes [] h = omega arith
count-with_mode q modes (d ∷ ds) ((m, e), h) =
    go (lookup d modes) m e (count-with_mode q modes ds h)
  where
    pushes : List String
    pushes = with_mode modes push ds

    polls : List String
    polls = with_mode modes poll ds

    go :
        (found : Option AcquisitionMode) (m : AcquisitionMode)
        → found ≡ some m
        → count q pushes + count q polls ≡ count q ds
        → count q (if is_mode push found then d ∷ pushes else pushes)
            + count q (if is_mode poll found then d ∷ polls else polls)
          ≡ count q (d ∷ ds)
    go none m e rest = absurd cc
    go (some push) m e rest = omega (arith, rest)
    go (some poll) m e rest = omega (arith, rest)

-- What a `stop` has done when it returns from its own shutdown.
pub record IsShutDown (q : String → Bool) (p : Plugins) (acts : List Act) (after : Runtime)
    : Type 0 where
  pub in_order : InOrder 0 acts
  pub sources : collect source_stopped acts ≡ reverse p.sources
  pub publishers : collect publisher_stopped acts ≡ reverse p.publishers
  pub drivers : count q (collect driver_stopped acts) ≡ count q p.drivers
  pub refuses : after.accepting_controls ≡ false
  pub idempotent : stop after ≡ returned

-- A `stop` of a running runtime shuts it down: the calls come in the order of their phases; every
-- source and every publisher is stopped once, last first; every driver is stopped once (for any test `q`
-- of drivers, as many are stopped as there are), if each has a mode, as configuration makes sure;
-- no controls are accepted any more; and a `stop` after it returns without a call.
pub stop-IsShutDown :
    (q : String → Bool) (r : Runtime)
    → r.started ≡ true
    → r.stopped ≡ false
    → r.stopping ≡ false
    → All
        (λ d. (m : AcquisitionMode) × (lookup d r.plugins.driver_modes ≡ some m))
        r.plugins.drivers
    → (acts : List Act) × (after : Runtime) × (stop r ≡ shut_down acts after)
      × IsShutDown q r.plugins acts after
unfolding stop
stop-IsShutDown q r a b c modes = (
  shutdown r.plugins r.scheduler r.worker,
  record r { stopped = true; stopping = false; accepting_controls = false; worker = false },
  simp (a, b, c),
  record {
    in_order = shutdown-InOrder r.plugins r.scheduler r.worker;
    sources = sources_lem r.plugins r.scheduler r.worker;
    publishers = publishers_lem r.plugins r.scheduler r.worker;
    drivers =
        ap (count q) (drivers_lem r.plugins r.scheduler r.worker)
        ∙ count-append q (with_mode r.plugins.driver_modes push r.plugins.drivers)
            (with_mode r.plugins.driver_modes poll r.plugins.drivers)
        ∙ count-with_mode q r.plugins.driver_modes r.plugins.drivers modes;
    refuses = refl;
    idempotent = simp a;
  },
)
