-- ===== src/Config/Valid/Whole.antt =====
-- A configuration that is read can be run: what its consumers ask of it holds.
use mini_gateway.Prelude.{
  runtime_error, ℕ, ◌<◌, ◌≡◌, ◌≢◌, refl, subst, Bool, true, false, not, String, concat, List, [],
  map, arith, Result, ok, err, >>=_returns, throw_if-eq-ok, ok_injective, All, All-imp, Distinct,
  is_some, is_empty, if◌then◌else◌,
}
use mini_gateway.Model.{GatewayConfig, CollectionGroup, RawBatch}
use mini_gateway.Model.Std.{Platform}
use mini_gateway.BoundedQueue.{BoundedQueue}
use mini_gateway.BoundedQueue as BoundedQueue
use mini_gateway.Control.Queue.{ControlQueue}
use mini_gateway.Control.Queue as ControlQueue
use mini_gateway.Normalizer.{Normalizer}
use mini_gateway.Normalizer as Normalizer
use mini_gateway.Normalizer.Points.{IsDeviceList, create-IsDeviceList}
use mini_gateway.Scheduler.{create_policy}
use mini_gateway.Runtime.Configure.{make_tasks}
use mini_gateway.Runtime.Configure.Valid.{create_policy-make_tasks}
use mini_gateway.Config.{ApplicationConfig}
use mini_gateway.Config.Json.{JsonLibrary, Parsed, parsed, malformed}
use mini_gateway.Config.Fields.{object_member, size_member}
use mini_gateway.Config.Parse.{
  parse_devices, parse_groups, parse_plugins, parse_run_duration, parse_control_capacity,
  parse_application_config, in_source, parse_config, default_control_queue_capacity,
}
use mini_gateway.Config.Valid.{size_member_bounds}
use mini_gateway.Config.Valid.Plugins.{IsPluginList, parse_plugins_valid}
use mini_gateway.Config.Valid.Devices.{parse_devices_valid}
use mini_gateway.Config.Valid.Groups.{
  IsReadGroup, parse_groups_valid, IsKnownGroup, IsReadGroup-IsKnownGroup,
}

-- Every group has an id of its own and a positive interval and timeout.
abbrev pub IsGroupList : List CollectionGroup → Type 0
IsGroupList gs =
    All (λ g. (g.id ≢ "") × (0 < g.interval) × (0 < g.timeout)) gs × Distinct (map (λ g. g.id) gs)

pub record IsRunnable (std : Platform) (c : ApplicationConfig) (start_time : ℕ) : Type 0 where
  pub normalizer : (n : Normalizer) × (Normalizer.create std c.gateway ≡ ok n)
  pub raw_queue :
      (q : BoundedQueue RawBatch) × (BoundedQueue.create c.gateway.raw_queue_capacity ≡ ok q)
  pub control_queue :
      (q : ControlQueue) × (ControlQueue.create c.gateway.control_queue_capacity ≡ ok q)
  pub schedule :
      create_policy (make_tasks start_time 0 c.gateway.groups)
      ≡ ok (make_tasks start_time 0 c.gateway.groups)
  pub devices : IsDeviceList std c.gateway.devices
  pub group_list : IsGroupList c.gateway.groups
  pub groups : All (IsKnownGroup c.gateway.devices) c.gateway.groups
  pub processors : IsPluginList c.processors
  pub event_publishers : IsPluginList c.event_publishers
  pub device_control_sources : IsPluginList c.device_control_sources

module _ {Json : Type 0} (std : Platform) (json : JsonLibrary Json) where
  control_capacity_positive :
      (runtime : Json) {n : ℕ} → parse_control_capacity std json runtime ≡ ok n → 0 < n
  unfolding parse_control_capacity
  control_capacity_positive runtime {n} h =
      go (is_some (json.find "control_queue_capacity" runtime)) h
    where
      go :
          (b : Bool)
          → (if b
              then size_member std json runtime "control_queue_capacity" "root.runtime" true
              else ok default_control_queue_capacity)
            ≡ ok n
          → 0 < n
      go true e = (size_member_bounds std json runtime "control_queue_capacity" "root.runtime" e).0
      go false e = subst (λ m. 0 < m) (ok_injective e) (omega arith)

  raw_queue_created : (n : ℕ) → 0 < n → (q : BoundedQueue RawBatch) × (BoundedQueue.create n ≡ ok q)
  unfolding BoundedQueue.create
  raw_queue_created n h = (
    record { capacity = n; queue = []; closed = false; accepted = 0; rejected_full = 0 },
    ground arith,
  )

  control_queue_created : (n : ℕ) → 0 < n → (q : ControlQueue) × (ControlQueue.create n ≡ ok q)
  unfolding ControlQueue.create
  control_queue_created n h = (
    record {
      capacity = n;
      queue = [];
      closed = false;
      max_size = 0;
      accepted = 0;
      rejected_full = 0;
      cancelled = 0;
    },
    ground arith,
  )

  pub parse_application_config-IsRunnable :
      (root : Json) (start_time : ℕ) {c : ApplicationConfig}
      → parse_application_config std json root ≡ ok c
      → IsRunnable std c start_time
  unfolding parse_application_config
  parse_application_config-IsRunnable root start_time {c} h =
      let (o, h₁) = throw_if-eq-ok (not (json.is_object root)) _ _ h in
      let (runtime, h₂, e₂) = >>=_returns (object_member std json root "runtime" "root") _ h₁ in
      let (duration, h₃, e₃) = >>=_returns (parse_run_duration std json runtime) _ h₂ in
      let (raw, h₄, e₄) =
        >>=_returns (size_member std json runtime "raw_queue_capacity" "root.runtime" true) _ h₃ in
      let (control, h₅, e₅) = >>=_returns (parse_control_capacity std json runtime) _ h₄ in
      let (devices, h₆, e₆) = >>=_returns (parse_devices std json root) _ h₅ in
      let (groups, h₇, e₇) = >>=_returns (parse_groups std json root devices.1) _ h₆ in
      let (processors, h₈, e₈) =
        >>=_returns (parse_plugins std json root "processors" false) _ h₇ in
      let (publishers, h₉, e₉) =
        >>=_returns (parse_plugins std json root "event_publishers" false) _ h₈ in
      let (sources, done, eₑ) =
        >>=_returns (parse_plugins std json root "device_control_sources" true) _ h₉ in
      let (listed, known) = parse_devices_valid std json root e₆ in
      let (read, distinct) = parse_groups_valid std json root devices.1 e₇ in
      let gateway : GatewayConfig = record {
        raw_queue_capacity = raw;
        control_queue_capacity = control;
        devices = devices.0;
        groups = groups;
      } in
      subst (λ a. IsRunnable std a start_time) (ok_injective done)
        (record {
          normalizer = (create-IsDeviceList std gateway).1 listed;
          raw_queue =
              raw_queue_created raw
                (size_member_bounds std json runtime "raw_queue_capacity" "root.runtime" e₄).0;
          control_queue = control_queue_created control (control_capacity_positive runtime e₅);
          schedule =
              create_policy-make_tasks start_time groups
                (All-imp (IsReadGroup std json devices.1) (λ g. (g.id ≢ "") × (0 < g.interval))
                  groups (λ g r. (r.0, r.1.0)) read)
                distinct;
          devices = listed;
          group_list = (
            All-imp (IsReadGroup std json devices.1)
                (λ g. (g.id ≢ "") × (0 < g.interval) × (0 < g.timeout)) groups
                (λ g r. (r.0, r.1.0, r.2.0)) read,
            distinct,
          );
          groups =
              All-imp (IsReadGroup std json devices.1) (IsKnownGroup devices.0) groups
                (λ g r. IsReadGroup-IsKnownGroup devices.1 devices.0 g known r.3) read;
          processors = parse_plugins_valid std json root "processors" false e₈;
          event_publishers = parse_plugins_valid std json root "event_publishers" false e₉;
          device_control_sources =
              parse_plugins_valid std json root "device_control_sources" true eₑ;
        })

  -- A configuration that `parse_config` returns can be run: the normalizer's constructor and those of both
  -- queues accept it, the scheduling policy admits the tasks of its groups at whatever time the
  -- runtime starts, the devices' ids and each device's point names are non-empty and distinct and no
  -- range is reversed, the groups' ids are non-empty and distinct, their intervals and timeouts
  -- positive, each group refers to a configured device and to points that the device has, and in
  -- each of the three lists of plugins ids and types are non-empty and the ids distinct.
  pub parse_config-IsRunnable :
      (json_text source_name : String) (start_time : ℕ) {c : ApplicationConfig}
      → parse_config std json json_text source_name ≡ ok c
      → IsRunnable std c start_time
  unfolding parse_config in_source
  parse_config-IsRunnable json_text source_name start_time {c} h = go (json.parse json_text) h
    where
      source : String
      source = if is_empty source_name then "<memory>" else source_name

      read :
          (root : Json) (r : Result ApplicationConfig)
          → parse_application_config std json root ≡ r
          → in_source std json source r ≡ ok c
          → IsRunnable std c start_time
      read root (ok a) e f =
          subst (λ b. IsRunnable std b start_time) (ok_injective f)
            (parse_application_config-IsRunnable root start_time e)
      read root (err thrown) e f = absurd cc

      go :
          (p : Parsed Json)
          → (elim p [
            | parsed root ↦ in_source std json source (parse_application_config std json root)
            | malformed error ↦
                err (runtime_error (concat "invalid JSON in " (concat source (concat ": " error))))
          ])
            ≡ ok c
          → IsRunnable std c start_time
      go (parsed root) e = read root (parse_application_config std json root) refl e
      go (malformed error) e = absurd cc
