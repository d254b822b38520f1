-- ===== src/Startup/Returns.antt =====
-- When the program's start returns.
use mini_gateway.Prelude.{
  ℕ, ◌≡◌, ◌≢◌, refl, ap, sym, subst, ◌∙◌, Bool, true, false, String, some, List, [], ◌∷◌, map, All,
  All-imp, All-map, Distinct, ok, if◌then◌else◌,
}
use mini_gateway.Model.Std.{Platform}
use mini_gateway.Processing.{ProcessingPipeline, ControlSink, check_processors, set_control_sink}
use mini_gateway.Processing as Processing
use mini_gateway.Control.Dispatcher.{Dispatcher, no_stats}
use mini_gateway.Control.Dispatcher as Dispatcher
use mini_gateway.Control.Queue.{ControlQueue}
use mini_gateway.Control.Queue as ControlQueue
use mini_gateway.Config.{PluginConfig, ApplicationConfig}
use mini_gateway.Config.Json.{JsonLibrary}
use mini_gateway.Config.Parse.{parse_config, load_config, contents}
use mini_gateway.Config.Valid.Whole.{IsRunnable, parse_config-IsRunnable}
use mini_gateway.Plugins.{
  PluginKind, driver, processor, event_publisher, device_control_source, Libraries, PluginRegistry,
  empty_registry,
}
use mini_gateway.Plugins.Load.{load_dynamic_plugins}
use mini_gateway.Plugins.Create.{PluginInstances, create}
use mini_gateway.Plugins.Create.Ready.{enabled_ids, MadeFor, create-MadeFor}
use mini_gateway.Runtime.Configure.Accept.{
  Answers, PublisherAnswers, IsPolled, IsReady, validate_and_configure_returns,
}
use mini_gateway.Startup.{
  PluginCalls, GatewayRuntime, loaded, driver_instance, publisher_instance, configure_sources,
  gateway_runtime, assemble,
}

check_processors_returns : {P : Type 0} (ps : List P) → check_processors (map some ps) ≡ ok ps
unfolding check_processors
check_processors_returns [] = refl
check_processors_returns (p ∷ ps) = simp (check_processors_returns ps)

dispatcher_created :
    (capacity : ℕ) {q : ControlQueue}
    → ControlQueue.create capacity ≡ ok q
    → (d : Dispatcher) × (Dispatcher.create capacity true ≡ ok d)
unfolding Dispatcher.create
dispatcher_created capacity {q} e = (
  record {
    queue = q;
    started = false;
    stopping = false;
    stop_request_complete = false;
    join_in_progress = false;
    joined = false;
    stats = no_stats;
  },
  simp (e),
)

enabled_sound :
    (P : String → Type 0) (specs : List PluginConfig)
    → All (λ p. P p.id) specs
    → All P (enabled_ids specs)
enabled_sound P [] h = tt
enabled_sound P (spec ∷ specs) (h, hs) = go spec.enabled (enabled_sound P specs hs)
  where
    go :
        (b : Bool)
        → All P (enabled_ids specs)
        → All P (if b then spec.id ∷ enabled_ids specs else enabled_ids specs)
    go true rest = (h, rest)
    go false rest = rest

enabled-Distinct :
    (specs : List PluginConfig) → Distinct (map (λ p. p.id) specs) → Distinct (enabled_ids specs)
enabled-Distinct [] d = tt
enabled-Distinct (spec ∷ specs) (new, d) = go spec.enabled (enabled-Distinct specs d)
  where
    go :
        (b : Bool)
        → Distinct (enabled_ids specs)
        → Distinct (if b then spec.id ∷ enabled_ids specs else enabled_ids specs)
    go true rest = (
      enabled_sound (λ id. id ≢ spec.id) specs
          ((All-map (λ id. id ≢ spec.id) (λ p. p.id) specs).0 new),
      rest,
    )
    go false rest = rest

module _ {Instance : PluginKind → Type 0} {W : Type 0} (std : Platform)
    (calls : PluginCalls Instance) (sink : ControlSink W) where
  -- The created plugins take their configuration, and each group's device is polled.
  pub record IsWilling (config : ApplicationConfig) (made : PluginInstances Instance) : Type 0 where
    pub drivers : All (λ i. Answers (driver_instance std calls sink i)) made.drivers
    pub publishers :
        All (λ i. calls.configure_publisher i.1 config.gateway ≡ ok tt) made.event_publishers
    pub sources : All (λ i. calls.configure_source i ≡ ok tt) made.sources
    pub groups :
        All (IsPolled (map (driver_instance std calls sink) made.drivers)) config.gateway.groups

  driver_ids :
      (made : List (String × Instance driver))
      → map (λ i. i.device_id) (map (driver_instance std calls sink) made) ≡ map (λ i. i.0) made
  unfolding driver_instance
  driver_ids [] = refl
  driver_ids (i ∷ is) = ap (λ ids. i.0 ∷ ids) (driver_ids is)

  publisher_ids :
      (made : List (String × Instance event_publisher))
      → map (λ i. i.id) (map (publisher_instance std calls sink) made) ≡ map (λ i. i.0) made
  unfolding publisher_instance
  publisher_ids [] = refl
  publisher_ids (i ∷ is) = ap (λ ids. i.0 ∷ ids) (publisher_ids is)

  configure_sources_returns :
      (sources : List (Instance device_control_source))
      → All (λ i. calls.configure_source i ≡ ok tt) sources
      → configure_sources std calls sink (map some sources) ≡ ok tt
  unfolding configure_sources
  configure_sources_returns [] h = refl
  configure_sources_returns (source ∷ sources) (h, hs) =
      simp (h, configure_sources_returns sources hs)

  -- What a runnable configuration and willing plugins give the constructor.
  ready :
      (config : ApplicationConfig) (registry : PluginRegistry Instance)
      (made : PluginInstances Instance) (start_time : ℕ)
      → IsRunnable std config start_time
      → MadeFor registry config made
      → IsWilling config made
      → IsReady config.gateway
          (map (driver_instance std calls sink) made.drivers)
          (map (publisher_instance std calls sink) made.event_publishers)
  unfolding publisher_instance
  ready config registry made start_time run is_made willing = record {
    ids = driver_ids made.drivers ∙ is_made.drivers;
    named = All-imp _ (λ d. d.id ≢ "") config.gateway.devices (λ d h. h.0) run.devices.0;
    distinct = run.devices.1;
    answers = (All-map Answers (driver_instance std calls sink) made.drivers).1 willing.drivers;
    groups = run.group_list.0;
    group_ids = run.group_list.1;
    polled = willing.groups;
    publisher_answers =
        (All-map (PublisherAnswers config.gateway) (publisher_instance std calls sink)
            made.event_publishers).1
          (All-imp (λ i. calls.configure_publisher i.1 config.gateway ≡ ok tt)
            (λ i. PublisherAnswers config.gateway (publisher_instance std calls sink i))
            made.event_publishers (λ i h. (refl, h)) willing.publishers);
    publishers_named = (All-map (λ id. id ≢ "") (λ i. i.id) _).0 (
        subst (All (λ id. id ≢ "")) (sym same) (
          enabled_sound (λ id. id ≢ "") config.event_publishers
            (All-imp _ (λ p. p.id ≢ "") config.event_publishers (λ p h. h.0)
              run.event_publishers.0)));
    publisher_ids =
        subst Distinct (sym same) (enabled-Distinct config.event_publishers run.event_publishers.1);
  }
    where
      same :
          map (λ i. i.id) (map (publisher_instance std calls sink) made.event_publishers)
          ≡ enabled_ids config.event_publishers
      same = publisher_ids made.event_publishers ∙ is_made.event_publishers

  -- A file whose text is read as a configuration, whose plugins load and are created, whose drivers and
  -- publishers take their configuration, whose control sources take the control sink, and whose
  -- groups' devices are polled, makes a runtime: neither the queues nor the normalizer, the pipeline,
  -- the dispatcher or the checks of the runtime's constructor throw.
  pub assemble_returns :
      {Json : Type 0} (json : JsonLibrary Json) (os : Libraries Instance)
      (json_text source_name : String) {config : ApplicationConfig}
      {registry : PluginRegistry Instance} {made : PluginInstances Instance}
      → parse_config std json json_text source_name ≡ ok config
      → load_dynamic_plugins os config (empty_registry Instance) ≡ (registry, ok tt)
      → create registry config ≡ ok made
      → IsWilling config made
      → (runtime : GatewayRuntime (Instance processor) W) × (assemble std calls sink json os
            (contents json_text)
            source_name
          ≡ ok runtime)
  unfolding assemble load_config gateway_runtime Processing.create set_control_sink
  assemble_returns json os json_text source_name {config} {registry} {made} read load_ok create_ok
        willing =
      let run = parse_config-IsRunnable std json json_text source_name 0 read in
      let (modes, validated) =
        validate_and_configure_returns config.gateway
          (map (driver_instance std calls sink) made.drivers)
          (map (publisher_instance std calls sink) made.event_publishers)
          (ready config registry made 0 run (create-MadeFor registry config create_ok) willing) in
      let (dispatcher, created) =
        dispatcher_created config.gateway.control_queue_capacity run.control_queue.1 in
      let registered : loaded (load_dynamic_plugins os config (empty_registry Instance))
          ≡ ok registry =
        ap loaded load_ok in
      (
        record {
          config = config.gateway;
          raw_queue = run.raw_queue.0;
          normalizer = run.normalizer.0;
          pipeline = record {
            processors = made.processors;
            control = some sink;
            events = 0;
            processor_errors = 0;
          };
          driver_modes = modes;
          io_gates = map (λ i. i.device_id) (map (driver_instance std calls sink) made.drivers);
          control_dispatcher = dispatcher;
        },
        simp (
          read,
          registered,
          create_ok,
          run.raw_queue.1,
          run.normalizer.1,
          check_processors_returns made.processors,
          validated,
          created,
          configure_sources_returns made.sources willing.sources,
        ),
      )
