-- ===== src/Startup.antt =====
-- The start of the program, as src/main.cpp and the runtime's constructor in src/core/runtime.cpp put it
-- together: the configuration is read, the plugins are loaded and created, and the runtime is
-- made of them. What a plugin answers to `configure` and `capabilities`, and the control sink that
-- plugins are given, are parameters.
pub mod Returns
mod Tests
use mini_gateway.Prelude.{
  ◌≡◌, refl, Bool, true, false, String, Option, none, some, List, [], ◌∷◌, map, Result, ok, err,
  ◌>>=◌, ◌>>◌, invalid_argument, Table,
}
use mini_gateway.Model.{GatewayConfig, DeviceConfig, RawBatch}
use mini_gateway.Model.Std.{Platform}
use mini_gateway.BoundedQueue.{BoundedQueue}
use mini_gateway.BoundedQueue as BoundedQueue
use mini_gateway.Normalizer.{Normalizer}
use mini_gateway.Normalizer as Normalizer
use mini_gateway.Processing.{ProcessingPipeline, ControlSink, set_control_sink}
use mini_gateway.Processing as Processing
use mini_gateway.Control.Dispatcher.{Dispatcher}
use mini_gateway.Control.Dispatcher as Dispatcher
use mini_gateway.Config.{ApplicationConfig}
use mini_gateway.Config.Json.{JsonLibrary}
use mini_gateway.Config.Parse.{FileRead, load_config}
use mini_gateway.Plugins.{
  PluginKind, driver, processor, event_publisher, device_control_source, Libraries, PluginRegistry,
  empty_registry,
}
use mini_gateway.Plugins.Load.{Step, load_dynamic_plugins}
use mini_gateway.Plugins.Create.{PluginInstances, create}
use mini_gateway.Runtime.{AcquisitionMode}
use mini_gateway.Runtime.Configure.{DriverInstance, EventPublisherInstance, validate_and_configure}

-- What the runtime calls of the plugins when it is made.
pub record PluginCalls (Instance : PluginKind → Type 0) : Type 0 where
  pub configure_driver : Instance driver → DeviceConfig → Result (Unit {0})
  pub capabilities : Instance driver → Result AcquisitionMode
  pub configure_publisher : Instance event_publisher → GatewayConfig → Result (Unit {0})
  pub configure_source : Instance device_control_source → Result (Unit {0})

-- The parts of a runtime that its constructor makes; `io_gates` by their keys.
pub record GatewayRuntime (P W : Type 0) : Type 0 where
  pub config : GatewayConfig
  pub raw_queue : BoundedQueue RawBatch
  pub normalizer : Normalizer
  pub pipeline : ProcessingPipeline P W
  pub driver_modes : Table AcquisitionMode
  pub io_gates : List String
  pub control_dispatcher : Dispatcher

-- A throw in a step leaves the caller without the registry.
abbrev pub loaded : {Registry : Type 0} → Step Registry → Result Registry
loaded (r, err e) = err e
loaded (r, ok done) = ok r

module _ {Instance : PluginKind → Type 0} {W : Type 0} (std : Platform)
    (calls : PluginCalls Instance) (sink : ControlSink W) where
  -- An instance of the registry's list, as the runtime takes it.
  unfoldable pub driver_instance : String × Instance driver → DriverInstance
  driver_instance (device_id, made) = record {
    device_id = device_id;
    has_driver = true;
    configure = calls.configure_driver made;
    capabilities = calls.capabilities made;
  }

  unfoldable pub publisher_instance : String × Instance event_publisher → EventPublisherInstance
  publisher_instance (id, made) = record {
    id = id;
    has_publisher = true;
    configure = calls.configure_publisher made;
  }

  -- the constructor's loop over the control sources, by pointers that may be null
  unfoldable pub configure_sources :
      List (Option (Instance device_control_source)) → Result (Unit {0})
  configure_sources [] = ok tt
  configure_sources (none ∷ sources) =
      err (invalid_argument "device control source list contains a null source")
  configure_sources (some source ∷ sources) = do
    calls.configure_source source
    configure_sources sources

  -- the constructor of `GatewayRuntime`, which always gives the dispatcher its resolvers
  unfoldable pub gateway_runtime :
      GatewayConfig
      → List DriverInstance
      → List (Option (Instance processor))
      → List EventPublisherInstance
      → List (Option (Instance device_control_source))
      → Result (GatewayRuntime (Instance processor) W)
  unfolding configure_sources BoundedQueue.create Normalizer.create Processing.create
      Dispatcher.create set_control_sink
  gateway_runtime config drivers processors event_publishers device_control_sources = do
    raw_queue ← BoundedQueue.create config.raw_queue_capacity
    normalizer ← Normalizer.create std config
    pipeline ← Processing.create processors none
    driver_modes ← validate_and_configure config drivers event_publishers
    control_dispatcher ← Dispatcher.create config.control_queue_capacity true
    configure_sources device_control_sources
    ok (record {
      config = config;
      raw_queue = raw_queue;
      normalizer = normalizer;
      pipeline = set_control_sink (some sink) pipeline;
      driver_modes = driver_modes;
      io_gates = map (λ i. i.device_id) drivers;
      control_dispatcher = control_dispatcher;
    })

  -- `main` from the file of the configuration to the runtime, before it starts
  unfoldable pub assemble :
      {Json : Type 0}
      → JsonLibrary Json
      → Libraries Instance
      → FileRead
      → String
      → Result (GatewayRuntime (Instance processor) W)
  unfolding driver_instance publisher_instance gateway_runtime
  assemble json os input config_path = do
    config ← load_config std json input config_path
    registry ← loaded (load_dynamic_plugins os config (empty_registry Instance))
    plugins ← create registry config
    gateway_runtime config.gateway (map driver_instance plugins.drivers)
        (map some plugins.processors) (map publisher_instance plugins.event_publishers)
        (map some plugins.sources)
