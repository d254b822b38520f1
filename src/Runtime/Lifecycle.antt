-- ===== src/Runtime/Lifecycle.antt =====
-- `start`, its rollback and `stop` of src/core/runtime.cpp, as the lists of the calls that they make of
-- the plugins and workers. A plugin's `start` may throw; `stop` and `request_stop` are `noexcept`,
-- and what a join throws is dropped. `start` holds the lifecycle mutex until it returns or fails.
pub mod Collect
pub mod Shape
pub mod Rollback
pub mod Order
pub mod Undo
pub mod Stop
use mini_gateway.Prelude.{
  Bool, true, false, not, String, ◌||◌, ℕ, Option, none, some, List, [], ◌∷◌, ◌++◌, map, reverse,
  if◌then◌else◌, Table, lookup, Result, ok, err, Error, logic_error,
}
use mini_gateway.Runtime.{AcquisitionMode, poll, push}

-- The plugins of a runtime: publishers and drivers by their ids, sources by their positions.
pub record Plugins : Type 0 where
  pub publishers : List String
  pub drivers : List String
  pub sources : List ℕ
  pub driver_modes : Table AcquisitionMode

pub data Act : Type 0 where
  start_publisher stop_publisher start_driver stop_driver : String → Act
  start_dispatcher request_dispatcher_stop join_dispatcher : Act
  start_worker join_worker close_queue : Act
  accept_controls refuse_controls : Act
  start_source request_source_stop stop_source : ℕ → Act
  start_scheduler request_scheduler_stop join_scheduler : Act

-- Which calls return; the others throw.
pub record Starts : Type 0 where
  pub publisher : String → Bool
  pub driver : String → Bool
  pub dispatcher : Bool
  pub worker : Bool
  pub source : ℕ → Bool
  pub create_scheduler : Bool
  pub scheduler : Bool

-- What `start` counts for its rollback, and what it has called so far.
pub record Progress : Type 0 where
  pub publishers : List String
  pub drivers : List String
  pub sources : List ℕ
  pub dispatcher : Bool
  pub worker : Bool
  pub scheduler : Bool
  pub acts : List Act

-- A loop of `start`: the plugins that were called, the last of which threw where it is false.
unfoldable pub start_each {ℓ} : {A : Type ℓ} → (A → Bool) → List A → List A × Bool
start_each returns [] = ([], true)
start_each returns (x ∷ xs) =
    let rest = start_each returns xs in if returns x then (x ∷ rest.0, rest.1) else (x ∷ [], false)

unfoldable pub start_publishers : Plugins → Starts → Progress → Progress × Bool
unfolding start_each
start_publishers p o g =
    let (called, fine) = start_each o.publisher p.publishers in
    (record g { publishers = called; acts = g.acts ++ map start_publisher called }, fine)

unfoldable pub start_drivers : Plugins → Starts → Progress → Progress × Bool
unfolding start_each
start_drivers p o g =
    let (called, fine) = start_each o.driver p.drivers in
    (record g { drivers = called; acts = g.acts ++ map start_driver called }, fine)

unfoldable pub start_control : Starts → Progress → Progress × Bool
start_control o g =
    if o.dispatcher
    then (record g { dispatcher = true; acts = g.acts ++ start_dispatcher ∷ [] }, true)
    else (g, false)

unfoldable pub start_processing : Starts → Progress → Progress × Bool
start_processing o g =
    if o.worker
    then (record g { worker = true; acts = g.acts ++ start_worker ∷ [] }, true)
    else (g, false)

unfoldable pub start_sources : Plugins → Starts → Progress → Progress × Bool
unfolding start_each
start_sources p o g =
    let (called, fine) = start_each o.source p.sources in
    (
      record g { sources = called; acts = g.acts ++ accept_controls ∷ map start_source called },
      fine,
    )

-- the policy and the engine are made, then the engine is started
unfoldable pub start_scheduling : Starts → Progress → Progress × Bool
start_scheduling o g =
    if o.create_scheduler
    then (record g { scheduler = true; acts = g.acts ++ start_scheduler ∷ [] }, o.scheduler)
    else (g, false)

-- the next statement of the `try` block, unless one before it threw
infixl 6 ◌andthen◌
abbrev pub ◌andthen◌ : Progress × Bool → (Progress → Progress × Bool) → Progress × Bool
(g, true) andthen next = next g
(g, false) andthen next = (g, false)

abbrev pub nothing : Progress
nothing = record {
  publishers = [];
  drivers = [];
  sources = [];
  dispatcher = false;
  worker = false;
  scheduler = false;
  acts = [];
}

-- the `try` block of `start`
unfoldable pub try_start : Plugins → Starts → Progress × Bool
unfolding start_publishers start_drivers start_control start_processing start_sources
    start_scheduling
try_start p o =
    start_publishers p o nothing
    andthen start_drivers p o
    andthen start_control o
    andthen start_processing o
    andthen start_sources p o
    andthen start_scheduling o

abbrev pub when : Bool → List Act → List Act
when true acts = acts
when false acts = []

-- the `catch` block
unfoldable pub rollback : Progress → List Act
rollback g =
    refuse_controls ∷ map request_source_stop (reverse g.sources)
    ++ when g.scheduler (request_scheduler_stop ∷ join_scheduler ∷ [])
    ++ when g.dispatcher (request_dispatcher_stop ∷ join_dispatcher ∷ [])
    ++ map stop_source (reverse g.sources)
    ++ map stop_driver (reverse g.drivers)
    ++ close_queue ∷ when g.worker (join_worker ∷ [])
    ++ map stop_publisher (reverse g.publishers)

abbrev pub is_mode : AcquisitionMode → Option AcquisitionMode → Bool
is_mode poll (some poll) = true
is_mode push (some push) = true
is_mode _ _ = false

-- a loop over the drivers that stops those of one mode
unfoldable pub with_mode : Table AcquisitionMode → AcquisitionMode → List String → List String
with_mode modes mode [] = []
with_mode modes mode (d ∷ ds) =
    let rest = with_mode modes mode ds in if is_mode mode (lookup d modes) then d ∷ rest else rest

-- the body of `stop`; the two Booleans are whether there is a scheduler and whether the worker can be joined
unfoldable pub shutdown : Plugins → Bool → Bool → List Act
unfolding with_mode
shutdown p scheduler worker =
    refuse_controls ∷ map request_source_stop (reverse p.sources)
    ++ when scheduler (request_scheduler_stop ∷ join_scheduler ∷ [])
    ++ request_dispatcher_stop ∷ join_dispatcher ∷ map stop_source (reverse p.sources)
    ++ map stop_driver (with_mode p.driver_modes push p.drivers)
    ++ map stop_driver (with_mode p.driver_modes poll p.drivers)
    ++ close_queue ∷ when worker (join_worker ∷ [])
    ++ map stop_publisher (reverse p.publishers)

-- The flags of the runtime, with what the last `start` left.
pub record Runtime : Type 0 where
  pub plugins : Plugins
  pub started : Bool
  pub stopping : Bool
  pub stopped : Bool
  pub accepting_controls : Bool
  pub scheduler : Bool
  pub worker : Bool

-- the constructor's
abbrev pub begin : Plugins → Runtime
begin p = record {
  plugins = p;
  started = false;
  stopping = false;
  stopped = false;
  accepting_controls = false;
  scheduler = false;
  worker = false;
}

-- What `start` calls, what it leaves, and whether it throws.
pub record Started : Type 0 where
  pub acts : List Act
  pub runtime : Runtime
  pub threw : Bool

unfoldable pub finish_start : Runtime → Progress × Bool → Started
finish_start r (g, true) = record {
  acts = g.acts;
  runtime = record r { started = true; accepting_controls = true; scheduler = true; worker = true };
  threw = false;
}
finish_start r (g, false) = record {
  acts = g.acts ++ rollback g;
  runtime = record r {
    started = true;
    stopped = true;
    stopping = false;
    accepting_controls = false;
    scheduler = g.scheduler;
    worker = false;
  };
  threw = true;
}

unfoldable pub start : Starts → Runtime → Started
unfolding try_start finish_start
start o r =
    if r.started
    then record { acts = []; runtime = r; threw = true }
    else finish_start r (try_start r.plugins o)

-- `stop` returns at once, waits for another stop, or shuts down.
pub data Stopped : Type 0 where
  returned : Stopped
  waiting : Stopped
  shut_down : List Act → Runtime → Stopped

unfoldable pub stop : Runtime → Stopped
unfolding shutdown
stop r =
    if not r.started
    then returned
    else if r.stopped
    then returned
    else if r.stopping
    then waiting
    else shut_down (shutdown r.plugins r.scheduler r.worker)
        (record r { stopped = true; stopping = false; accepting_controls = false; worker = false })
