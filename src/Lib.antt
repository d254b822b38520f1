-- ===== src/Lib.antt =====
-- A verification library for miniGateway, an edge gateway in C++ that polls devices or takes what
-- they push, turns raw samples into typed readings, runs processors over them and publishes the
-- events, and that carries control requests back to the devices.
--
-- The parts and how they meet. A driver (a plugin) delivers raw batches to the bounded queue
-- (include/gateway/bounded_queue.hpp), either when the scheduler (src/core/scheduler.cpp) calls
-- the runtime's poll_group, or by itself. One worker of the runtime (src/core/runtime.cpp) takes
-- the batches, converts them by the normalizer (src/core/normalizer.cpp), runs the processing
-- pipeline (src/core/processing.cpp) and offers the event to every publisher. Control requests go
-- from sources and processors to the device control dispatcher (src/core/control.cpp), whose
-- worker calls the driver under the device's gate and calls the completion of the request. At its
-- start the program reads its configuration (src/core/config.cpp), loads the plugins that it
-- names and creates them (src/core/plugin_registry.cpp). The runtime starts all of these, undoes
-- a start that fails, and shuts them down.
--
-- Prelude: shared names; tests, lists over native numbers (Lists), exceptions as values of a
-- result type (Errors), 64-bit counters with their wrap-around and the saturating addition of
-- scheduler.cpp and control.cpp (Word), tables keyed by text for the maps of the sources (Maps,
-- Names), signed integers (Int). A standard exception is a constructor with its message; foreign
-- is a thrown object of another type.
--
-- BoundedQueue: the class template BoundedQueue, method by method, each one a step under its
-- mutex; waiting on the condition variable is the outcome blocked. Fifo is about any sequence of
-- calls, Drain about a consumer's loop.
--
-- Scheduler: FixedIntervalSequentialPolicy and SchedulerEngine. A time point is a 64-bit signed
-- number of nanoseconds, kept as its distance from the smallest one, -2^63, so that its order is
-- that of natural numbers; an interval is in milliseconds, and milliseconds_after converts it and
-- adds it modulo 2^64. Where the signed arithmetic of the source overflows, this wraps around,
-- and the theorems that need no overflow take it as a hypothesis. The loop of on_complete runs on
-- a fuel of 2^64 + 1 rounds: there are 2^64 time points, so a loop that needs more does not end.
-- A round of the engine's loop takes the clock readings and the result of the poll callback as
-- inputs.
--
-- Model: model.hpp and model.cpp. A double is its bit pattern, and the arithmetic and conversions
-- of the C++ library are the record Model.Std.Platform, a parameter without laws; a theorem that
-- needs one takes it as a hypothesis. Model.Whole is a platform for tests.
--
-- Normalizer: the class Normalizer and convert_value, with its tables of points. Counters wrap.
--
-- Control: control.hpp and control.cpp. Control.Queue is ControlQueue; Control.Dispatcher has the
-- dispatcher's methods, cut where the lifecycle mutex is released; Control.Execute is execute,
-- with the answers of the clock, the resolvers, the gate and the driver in a record Answers in
-- the order in which the code asks, and what it does to the gate, the driver and the source as a
-- list of effects. A completion is a number, or none for an empty function. Control.Lifecycle is
-- the system of all threads: sources that submit, the worker, the threads that stop and join, in
-- any order in which the mutexes admit them. Time points are natural numbers of nanoseconds.
-- Control.Service is the dispatcher's specification, a service that accepts operations and
-- completes them, with a multiset of those that are pending; each step is labelled with what is
-- seen of the call, a submission with its answer among them.
--
-- Processing: the pipeline, over processors whose states and calls are parameters. A processor
-- that throws may have changed the event, itself and the world before.
--
-- Processors: the threshold, window average and inference processors of src/processor.
-- Processors.LastValues defines the sliding average without state.
--
-- Runtime: runtime.cpp. Runtime.Configure has validate_and_configure and the making of the
-- schedule's tasks; what a driver's configure and capabilities return or throw is an input.
-- Runtime.Lifecycle has start, its rollback and stop as lists of the calls made of plugins and
-- workers; whether a start returns or throws is an input. Runtime.Facade has submit_control and
-- stats. Runtime.Work has poll_group, publish_event and the worker's loop, over publishers that
-- are a parameter. A start is one step, since it holds the lifecycle mutex up to the end of its
-- try block, and a stop during the rollback waits for its end.
--
-- Config: config.hpp and config.cpp. The JSON library, which is not part of the repository, is
-- the record Config.Json.JsonLibrary, a parameter without laws, and what reading a file gives is
-- an input. Config.Fields reads single fields, Config.Parse points, devices, groups and plugins,
-- in the order and with the messages of the source. Config.Valid is about what is read,
-- Config.Example is a small JSON library and a plant for tests.
--
-- Plugins: plugin_registry.cpp. An instance of a plugin is an element of a family of types by the
-- plugin's kind, a parameter. The comparison of paths, the checks of file names and the
-- platform's loader are the record Libraries, also a parameter; a theorem that needs the
-- comparison to be an equivalence says so. Plugins.Load is load_dynamic_plugins: a call that
-- throws leaves the registry as it stands then, so each step returns the registry with its
-- result; the four calls that load one plugin each are one function of the plugin's kind,
-- Plugins.Load.load. Plugins.Create is create.
--
-- Startup: src/main.cpp up to the runtime, and the constructor in runtime.cpp, which makes the
-- queues, the normalizer, the pipeline and the dispatcher, configures the plugins and gives out
-- the control sink. What the plugins answer to configure and capabilities is a parameter.
--
-- Settings: the readers of include/plugin_support/plugin_json.hpp, over the JSON library;
-- Settings.Make makes the processors of their settings, as their create_plugin does.
--
-- Mqtt: the MQTT publisher of src/publisher/mqtt. The client library is not part of the
-- repository; its return codes and whether a disconnection completes in time are inputs, its
-- callbacks calls of their own, and of the connection the library's handle is followed. Mqtt.Make
-- makes the publisher of its settings.
--
-- Not modelled: the texts that the MQTT publisher sends (event_to_json, topic_for, server_uri),
-- of which publish takes the payload's size; the adapters of loaded plugins, which forward each
-- call, and the unloading of libraries; the Windows branches of the plugin loader; of
-- src/main.cpp the arguments, the signals and the summary; the simulated devices of
-- tests/simulation. Memory exhaustion is modelled only where the sources handle it, in
-- request_stop.
pub mod Prelude
pub mod BoundedQueue
pub mod Scheduler
pub mod Model
pub mod Normalizer
pub mod Control
pub mod Processing
pub mod Processors
pub mod Runtime
pub mod Config
pub mod Plugins
pub mod Startup
pub mod Settings
pub mod Mqtt
