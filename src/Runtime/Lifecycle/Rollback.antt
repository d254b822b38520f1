-- ===== src/Runtime/Lifecycle/Rollback.antt =====
-- What a failed `start` undoes.
use mini_gateway.Prelude.{
  if◌then◌else◌, subst, ℕ, String, Bool, true, false, List, [], ◌∷◌, ◌++◌, map, ◌≡◌, refl, sym,
  append-nil, append_assoc,
}
use mini_gateway.Runtime.Lifecycle.{
  start_publisher, start_driver, start_dispatcher, start_worker, accept_controls, start_source,
  start_scheduler, Plugins, Starts, Progress, Started, Runtime, start_each, start_publishers,
  start_drivers, start_control, start_processing, start_sources, start_scheduling, try_start,
  rollback, finish_start, start, nothing, stop, returned, ◌andthen◌,
}
use mini_gateway.Runtime.Lifecycle.Shape.{shape, IsUndone, shape-IsUndone}

-- What `start` has called has the shape that its counts say.
HasShape : Progress → Type 0
HasShape g =
    (a : Bool) × (g.acts
      ≡ shape g.publishers g.drivers g.dispatcher g.worker a g.sources g.scheduler)

try_start-HasShape : (p : Plugins) (o : Starts) → HasShape (try_start p o).0
unfolding HasShape try_start start_publishers start_drivers start_control start_processing
    start_sources start_scheduling
try_start-HasShape p o =
    go (start_each o.publisher p.publishers).1 (start_each o.driver p.drivers).1 o.dispatcher
      o.worker (start_each o.source p.sources).1 o.create_scheduler
  where
    ps : List String
    ps = (start_each o.publisher p.publishers).0

    ds : List String
    ds = (start_each o.driver p.drivers).0

    ss : List ℕ
    ss = (start_each o.source p.sources).0

    go :
        (a b c d e f : Bool)
        → HasShape (
            ((record nothing { publishers = ps; acts = [] ++ map start_publisher ps }, a)
              andthen (λ g. (record g { drivers = ds; acts = g.acts ++ map start_driver ds }, b))
              andthen (λ g.
                  if c
                  then (
                    record g { dispatcher = true; acts = g.acts ++ start_dispatcher ∷ [] },
                    true,
                  )
                  else (g, false))
              andthen (λ g.
                  if d
                  then (record g { worker = true; acts = g.acts ++ start_worker ∷ [] }, true)
                  else (g, false))
              andthen (λ g. (
                record g { sources = ss; acts = g.acts ++ accept_controls ∷ map start_source ss },
                e,
              ))
              andthen (λ g.
                  if f
                  then (
                    record g { scheduler = true; acts = g.acts ++ start_scheduler ∷ [] },
                    o.scheduler,
                  )
                  else (g, false))).0)
    go false b c d e f = (false, simp (append-nil))
    go true false c d e f = (false, simp (append-nil, append_assoc))
    go true true false d e f = (false, simp (append-nil, append_assoc))
    go true true true false e f = (false, simp (append-nil, append_assoc))
    go true true true true false f = (true, simp (append-nil, append_assoc))
    go true true true true true false = (true, simp (append-nil, append_assoc))
    go true true true true true true = (true, simp (append-nil, append_assoc))

HasShape-IsUndone : (g : Progress) → HasShape g → IsUndone (g.acts ++ rollback g)
unfolding HasShape rollback
HasShape-IsUndone g (a, e) =
    subst (λ acts. IsUndone (acts ++ rollback g)) (sym e)
      (shape-IsUndone g.publishers g.drivers g.sources g.dispatcher g.worker a g.scheduler)

abbrev pub IsAbandoned : Started → Type 0
IsAbandoned s =
    IsUndone s.acts
    × (s.runtime.stopped ≡ true)
    × (s.runtime.accepting_controls ≡ false)
    × (stop s.runtime ≡ returned)

finish_start-IsAbandoned :
    (r : Runtime) (q : Progress × Bool)
    → HasShape q.0
    → (finish_start r q).threw ≡ true
    → IsAbandoned (finish_start r q)
unfolding finish_start stop
finish_start-IsAbandoned r (g, true) h threw = absurd cc
finish_start-IsAbandoned r (g, false) h threw = (HasShape-IsUndone g h, refl, refl, refl)

-- A `start` that throws from its `try` block has undone all it did: every publisher, driver and source
-- whose `start` was called, the last one included though it threw, is stopped once, in the
-- opposite order of the starts; the dispatcher and the worker are joined if they were started.
-- The runtime is left stopped, with no controls accepted, so that a `stop` has nothing to do.
pub start-IsUndone :
    (o : Starts) (r : Runtime)
    → r.started ≡ false
    → (start o r).threw ≡ true
    → IsUndone (start o r).acts
      × ((start o r).runtime.stopped ≡ true)
      × ((start o r).runtime.accepting_controls ≡ false)
      × (stop (start o r).runtime ≡ returned)
unfolding start
start-IsUndone o r fresh threw = go r.started fresh threw
  where
    go :
        (b : Bool)
        → b ≡ false
        → (if b
            then record { acts = []; runtime = r; threw = true }
            else finish_start r (try_start r.plugins o)).threw
          ≡ true
        → IsAbandoned (
            if b
            then record { acts = []; runtime = r; threw = true }
            else finish_start r (try_start r.plugins o))
    go true e t = absurd cc
    go false e t =
        finish_start-IsAbandoned r (try_start r.plugins o) (try_start-HasShape r.plugins o) t
