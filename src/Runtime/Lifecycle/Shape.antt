-- ===== src/Runtime/Lifecycle/Shape.antt =====
-- The calls of `start` and of its rollback, by what `start` has counted.
use mini_gateway.Prelude.{
  ℕ, String, Bool, true, false, List, [], ◌∷◌, ◌++◌, map, reverse, ◌≡◌, refl, sym, ap, ◌∙◌,
  append-nil,
}
use mini_gateway.Runtime.Lifecycle.{
  Act, start_publisher, stop_publisher, start_driver, stop_driver, start_dispatcher,
  request_dispatcher_stop, join_dispatcher, start_worker, join_worker, close_queue, accept_controls,
  refuse_controls, start_source, request_source_stop, stop_source, start_scheduler,
  request_scheduler_stop, join_scheduler, when,
}
use mini_gateway.Runtime.Lifecycle.Collect.{
  collect, collect-append, collect-map-some, collect-map-none, collect-when_none, publisher_started,
  publisher_stopped, driver_started, driver_stopped, source_started, source_stopped,
  dispatcher_started, dispatcher_joined, worker_started, worker_joined,
}

-- The calls of the `try` block, by what it has counted; `a` is whether it came to the sources.
abbrev pub shape : List String → List String → Bool → Bool → Bool → List ℕ → Bool → List Act
shape ps ds d w a ss s =
    map start_publisher ps
    ++ map start_driver ds
    ++ when d (start_dispatcher ∷ [])
    ++ when w (start_worker ∷ [])
    ++ when a (accept_controls ∷ [])
    ++ map start_source ss
    ++ when s (start_scheduler ∷ [])

abbrev pub undoing : List String → List String → Bool → Bool → List ℕ → Bool → List Act
undoing ps ds d w ss s =
    refuse_controls ∷ map request_source_stop (reverse ss)
    ++ when s (request_scheduler_stop ∷ join_scheduler ∷ [])
    ++ when d (request_dispatcher_stop ∷ join_dispatcher ∷ [])
    ++ map stop_source (reverse ss)
    ++ map stop_driver (reverse ds)
    ++ close_queue ∷ when w (join_worker ∷ [])
    ++ map stop_publisher (reverse ps)

-- Each plugin whose `start` was called is stopped once, in the opposite order, and the workers that
-- were started are joined.
pub record IsUndone (acts : List Act) : Type 0 where
  pub publishers : collect publisher_stopped acts ≡ reverse (collect publisher_started acts)
  pub drivers : collect driver_stopped acts ≡ reverse (collect driver_started acts)
  pub sources : collect source_stopped acts ≡ reverse (collect source_started acts)
  pub dispatcher : collect dispatcher_joined acts ≡ collect dispatcher_started acts
  pub worker : collect worker_joined acts ≡ collect worker_started acts

module _ (ps ds : List String) (ss : List ℕ) where
  publisher_started_lem :
      (d w a s : Bool)
      → collect publisher_started (shape ps ds d w a ss s ++ undoing ps ds d w ss s) ≡ ps
  publisher_started_lem d w a s = simp (
    collect-append,
    append-nil,
    collect-map-some publisher_started start_publisher ps (λ _. refl),
    collect-map-none publisher_started start_driver ds (λ _. refl),
    collect-map-none publisher_started start_source ss (λ _. refl),
    collect-map-none publisher_started request_source_stop (reverse ss) (λ _. refl),
    collect-map-none publisher_started stop_source (reverse ss) (λ _. refl),
    collect-map-none publisher_started stop_driver (reverse ds) (λ _. refl),
    collect-map-none publisher_started stop_publisher (reverse ps) (λ _. refl),
    collect-when_none publisher_started d (start_dispatcher ∷ []) refl,
    collect-when_none publisher_started w (start_worker ∷ []) refl,
    collect-when_none publisher_started a (accept_controls ∷ []) refl,
    collect-when_none publisher_started s (start_scheduler ∷ []) refl,
    collect-when_none publisher_started s (request_scheduler_stop ∷ join_scheduler ∷ []) refl,
    collect-when_none publisher_started d (request_dispatcher_stop ∷ join_dispatcher ∷ []) refl,
    collect-when_none publisher_started w (join_worker ∷ []) refl,
  )

  publisher_stopped_lem :
      (d w a s : Bool)
      → collect publisher_stopped (shape ps ds d w a ss s ++ undoing ps ds d w ss s) ≡ (reverse ps)
  publisher_stopped_lem d w a s = simp (
    collect-append,
    append-nil,
    collect-map-none publisher_stopped start_publisher ps (λ _. refl),
    collect-map-none publisher_stopped start_driver ds (λ _. refl),
    collect-map-none publisher_stopped start_source ss (λ _. refl),
    collect-map-none publisher_stopped request_source_stop (reverse ss) (λ _. refl),
    collect-map-none publisher_stopped stop_source (reverse ss) (λ _. refl),
    collect-map-none publisher_stopped stop_driver (reverse ds) (λ _. refl),
    collect-map-some publisher_stopped stop_publisher (reverse ps) (λ _. refl),
    collect-when_none publisher_stopped d (start_dispatcher ∷ []) refl,
    collect-when_none publisher_stopped w (start_worker ∷ []) refl,
    collect-when_none publisher_stopped a (accept_controls ∷ []) refl,
    collect-when_none publisher_stopped s (start_scheduler ∷ []) refl,
    collect-when_none publisher_stopped s (request_scheduler_stop ∷ join_scheduler ∷ []) refl,
    collect-when_none publisher_stopped d (request_dispatcher_stop ∷ join_dispatcher ∷ []) refl,
    collect-when_none publisher_stopped w (join_worker ∷ []) refl,
  )

  driver_started_lem :
      (d w a s : Bool)
      → collect driver_started (shape ps ds d w a ss s ++ undoing ps ds d w ss s) ≡ ds
  driver_started_lem d w a s = simp (
    collect-append,
    append-nil,
    collect-map-none driver_started start_publisher ps (λ _. refl),
    collect-map-some driver_started start_driver ds (λ _. refl),
    collect-map-none driver_started start_source ss (λ _. refl),
    collect-map-none driver_started request_source_stop (reverse ss) (λ _. refl),
    collect-map-none driver_started stop_source (reverse ss) (λ _. refl),
    collect-map-none driver_started stop_driver (reverse ds) (λ _. refl),
    collect-map-none driver_started stop_publisher (reverse ps) (λ _. refl),
    collect-when_none driver_started d (start_dispatcher ∷ []) refl,
    collect-when_none driver_started w (start_worker ∷ []) refl,
    collect-when_none driver_started a (accept_controls ∷ []) refl,
    collect-when_none driver_started s (start_scheduler ∷ []) refl,
    collect-when_none driver_started s (request_scheduler_stop ∷ join_scheduler ∷ []) refl,
    collect-when_none driver_started d (request_dispatcher_stop ∷ join_dispatcher ∷ []) refl,
    collect-when_none driver_started w (join_worker ∷ []) refl,
  )

  driver_stopped_lem :
      (d w a s : Bool)
      → collect driver_stopped (shape ps ds d w a ss s ++ undoing ps ds d w ss s) ≡ (reverse ds)
  driver_stopped_lem d w a s = simp (
    collect-append,
    append-nil,
    collect-map-none driver_stopped start_publisher ps (λ _. refl),
    collect-map-none driver_stopped start_driver ds (λ _. refl),
    collect-map-none driver_stopped start_source ss (λ _. refl),
    collect-map-none driver_stopped request_source_stop (reverse ss) (λ _. refl),
    collect-map-none driver_stopped stop_source (reverse ss) (λ _. refl),
    collect-map-some driver_stopped stop_driver (reverse ds) (λ _. refl),
    collect-map-none driver_stopped stop_publisher (reverse ps) (λ _. refl),
    collect-when_none driver_stopped d (start_dispatcher ∷ []) refl,
    collect-when_none driver_stopped w (start_worker ∷ []) refl,
    collect-when_none driver_stopped a (accept_controls ∷ []) refl,
    collect-when_none driver_stopped s (start_scheduler ∷ []) refl,
    collect-when_none driver_stopped s (request_scheduler_stop ∷ join_scheduler ∷ []) refl,
    collect-when_none driver_stopped d (request_dispatcher_stop ∷ join_dispatcher ∷ []) refl,
    collect-when_none driver_stopped w (join_worker ∷ []) refl,
  )

  source_started_lem :
      (d w a s : Bool)
      → collect source_started (shape ps ds d w a ss s ++ undoing ps ds d w ss s) ≡ ss
  source_started_lem d w a s = simp (
    collect-append,
    append-nil,
    collect-map-none source_started start_publisher ps (λ _. refl),
    collect-map-none source_started start_driver ds (λ _. refl),
    collect-map-some source_started start_source ss (λ _. refl),
    collect-map-none source_started request_source_stop (reverse ss) (λ _. refl),
    collect-map-none source_started stop_source (reverse ss) (λ _. refl),
    collect-map-none source_started stop_driver (reverse ds) (λ _. refl),
    collect-map-none source_started stop_publisher (reverse ps) (λ _. refl),
    collect-when_none source_started d (start_dispatcher ∷ []) refl,
    collect-when_none source_started w (start_worker ∷ []) refl,
    collect-when_none source_started a (accept_controls ∷ []) refl,
    collect-when_none source_started s (start_scheduler ∷ []) refl,
    collect-when_none source_started s (request_scheduler_stop ∷ join_scheduler ∷ []) refl,
    collect-when_none source_started d (request_dispatcher_stop ∷ join_dispatcher ∷ []) refl,
    collect-when_none source_started w (join_worker ∷ []) refl,
  )

  source_stopped_lem :
      (d w a s : Bool)
      → collect source_stopped (shape ps ds d w a ss s ++ undoing ps ds d w ss s) ≡ (reverse ss)
  source_stopped_lem d w a s = simp (
    collect-append,
    append-nil,
    collect-map-none source_stopped start_publisher ps (λ _. refl),
    collect-map-none source_stopped start_driver ds (λ _. refl),
    collect-map-none source_stopped start_source ss (λ _. refl),
    collect-map-none source_stopped request_source_stop (reverse ss) (λ _. refl),
    collect-map-some source_stopped stop_source (reverse ss) (λ _. refl),
    collect-map-none source_stopped stop_driver (reverse ds) (λ _. refl),
    collect-map-none source_stopped stop_publisher (reverse ps) (λ _. refl),
    collect-when_none source_stopped d (start_dispatcher ∷ []) refl,
    collect-when_none source_stopped w (start_worker ∷ []) refl,
    collect-when_none source_stopped a (accept_controls ∷ []) refl,
    collect-when_none source_stopped s (start_scheduler ∷ []) refl,
    collect-when_none source_stopped s (request_scheduler_stop ∷ join_scheduler ∷ []) refl,
    collect-when_none source_stopped d (request_dispatcher_stop ∷ join_dispatcher ∷ []) refl,
    collect-when_none source_stopped w (join_worker ∷ []) refl,
  )

  dispatcher_started_lem :
      (d w a s : Bool)
      → collect dispatcher_started (shape ps ds d w a ss s ++ undoing ps ds d w ss s)
        ≡ collect dispatcher_started (when d (start_dispatcher ∷ []))
  dispatcher_started_lem d w a s = simp (
    collect-append,
    append-nil,
    collect-map-none dispatcher_started start_publisher ps (λ _. refl),
    collect-map-none dispatcher_started start_driver ds (λ _. refl),
    collect-map-none dispatcher_started start_source ss (λ _. refl),
    collect-map-none dispatcher_started request_source_stop (reverse ss) (λ _. refl),
    collect-map-none dispatcher_started stop_source (reverse ss) (λ _. refl),
    collect-map-none dispatcher_started stop_driver (reverse ds) (λ _. refl),
    collect-map-none dispatcher_started stop_publisher (reverse ps) (λ _. refl),
    collect-when_none dispatcher_started w (start_worker ∷ []) refl,
    collect-when_none dispatcher_started a (accept_controls ∷ []) refl,
    collect-when_none dispatcher_started s (start_scheduler ∷ []) refl,
    collect-when_none dispatcher_started s (request_scheduler_stop ∷ join_scheduler ∷ []) refl,
    collect-when_none dispatcher_started d (request_dispatcher_stop ∷ join_dispatcher ∷ []) refl,
    collect-when_none dispatcher_started w (join_worker ∷ []) refl,
  )

  dispatcher_joined_lem :
      (d w a s : Bool)
      → collect dispatcher_joined (shape ps ds d w a ss s ++ undoing ps ds d w ss s)
        ≡ collect dispatcher_joined (when d (request_dispatcher_stop ∷ join_dispatcher ∷ []))
  dispatcher_joined_lem d w a s = simp (
    collect-append,
    append-nil,
    collect-map-none dispatcher_joined start_publisher ps (λ _. refl),
    collect-map-none dispatcher_joined start_driver ds (λ _. refl),
    collect-map-none dispatcher_joined start_source ss (λ _. refl),
    collect-map-none dispatcher_joined request_source_stop (reverse ss) (λ _. refl),
    collect-map-none dispatcher_joined stop_source (reverse ss) (λ _. refl),
    collect-map-none dispatcher_joined stop_driver (reverse ds) (λ _. refl),
    collect-map-none dispatcher_joined stop_publisher (reverse ps) (λ _. refl),
    collect-when_none dispatcher_joined d (start_dispatcher ∷ []) refl,
    collect-when_none dispatcher_joined w (start_worker ∷ []) refl,
    collect-when_none dispatcher_joined a (accept_controls ∷ []) refl,
    collect-when_none dispatcher_joined s (start_scheduler ∷ []) refl,
    collect-when_none dispatcher_joined s (request_scheduler_stop ∷ join_scheduler ∷ []) refl,
    collect-when_none dispatcher_joined w (join_worker ∷ []) refl,
  )

  worker_started_lem :
      (d w a s : Bool)
      → collect worker_started (shape ps ds d w a ss s ++ undoing ps ds d w ss s)
        ≡ collect worker_started (when w (start_worker ∷ []))
  worker_started_lem d w a s = simp (
    collect-append,
    append-nil,
    collect-map-none worker_started start_publisher ps (λ _. refl),
    collect-map-none worker_started start_driver ds (λ _. refl),
    collect-map-none worker_started start_source ss (λ _. refl),
    collect-map-none worker_started request_source_stop (reverse ss) (λ _. refl),
    collect-map-none worker_started stop_source (reverse ss) (λ _. refl),
    collect-map-none worker_started stop_driver (reverse ds) (λ _. refl),
    collect-map-none worker_started stop_publisher (reverse ps) (λ _. refl),
    collect-when_none worker_started d (start_dispatcher ∷ []) refl,
    collect-when_none worker_started a (accept_controls ∷ []) refl,
    collect-when_none worker_started s (start_scheduler ∷ []) refl,
    collect-when_none worker_started s (request_scheduler_stop ∷ join_scheduler ∷ []) refl,
    collect-when_none worker_started d (request_dispatcher_stop ∷ join_dispatcher ∷ []) refl,
    collect-when_none worker_started w (join_worker ∷ []) refl,
  )

  worker_joined_lem :
      (d w a s : Bool)
      → collect worker_joined (shape ps ds d w a ss s ++ undoing ps ds d w ss s)
        ≡ collect worker_joined (when w (join_worker ∷ []))
  worker_joined_lem d w a s = simp (
    collect-append,
    append-nil,
    collect-map-none worker_joined start_publisher ps (λ _. refl),
    collect-map-none worker_joined start_driver ds (λ _. refl),
    collect-map-none worker_joined start_source ss (λ _. refl),
    collect-map-none worker_joined request_source_stop (reverse ss) (λ _. refl),
    collect-map-none worker_joined stop_source (reverse ss) (λ _. refl),
    collect-map-none worker_joined stop_driver (reverse ds) (λ _. refl),
    collect-map-none worker_joined stop_publisher (reverse ps) (λ _. refl),
    collect-when_none worker_joined d (start_dispatcher ∷ []) refl,
    collect-when_none worker_joined w (start_worker ∷ []) refl,
    collect-when_none worker_joined a (accept_controls ∷ []) refl,
    collect-when_none worker_joined s (start_scheduler ∷ []) refl,
    collect-when_none worker_joined s (request_scheduler_stop ∷ join_scheduler ∷ []) refl,
    collect-when_none worker_joined d (request_dispatcher_stop ∷ join_dispatcher ∷ []) refl,
  )

  pub shape-IsUndone :
      (d w a s : Bool) → IsUndone (shape ps ds d w a ss s ++ undoing ps ds d w ss s)
  shape-IsUndone d w a s = record {
    publishers = publisher_stopped_lem d w a s ∙ ap reverse (sym (publisher_started_lem d w a s));
    drivers = driver_stopped_lem d w a s ∙ ap reverse (sym (driver_started_lem d w a s));
    sources = source_stopped_lem d w a s ∙ ap reverse (sym (source_started_lem d w a s));
    dispatcher = dispatcher_joined_lem d w a s ∙ joined d ∙ sym (dispatcher_started_lem d w a s);
    worker = worker_joined_lem d w a s ∙ worked w ∙ sym (worker_started_lem d w a s);
  }
    where
      joined :
          (d : Bool)
          → collect dispatcher_joined (when d (request_dispatcher_stop ∷ join_dispatcher ∷ []))
            ≡ collect dispatcher_started (when d (start_dispatcher ∷ []))
      joined true = refl
      joined false = refl

      worked :
          (w : Bool)
          → collect worker_joined (when w (join_worker ∷ []))
            ≡ collect worker_started (when w (start_worker ∷ []))
      worked true = refl
      worked false = refl
