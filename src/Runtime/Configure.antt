-- ===== src/Runtime/Configure.antt =====
-- `validate_and_configure` of src/core/runtime.cpp, the list of tasks that `start` makes, and the
-- lookups without an exception. A driver or publisher is its id, whether the pointer is set, and
-- what its `configure` and `capabilities` return or throw.
pub mod Valid
pub mod Accept
use mini_gateway.Prelude.{
  ℕ, zero, suc, ◌+◌, ◌*◌, Bool, true, false, not, ◌||◌, String, concat, Option, none, some, List,
  [], ◌∷◌, ◌==◌, leb, length, Table, member, lookup, insert, str_eq, if◌then◌else◌, is_empty,
  throw_if, Result, ok, err, ◌>>=◌, ◌>>◌, Error, invalid_argument,
}
use mini_gateway.Model.{GatewayConfig, DeviceConfig, CollectionGroup}
use mini_gateway.Scheduler.{ScheduleTask, milliseconds_after}
use mini_gateway.Runtime.{AcquisitionMode, poll, find_device}
use mini_gateway.Runtime.Lifecycle.{is_mode}

pub record DriverInstance : Type 0 where
  pub device_id : String
  pub has_driver : Bool
  pub configure : DeviceConfig → Result (Unit {0})
  pub capabilities : Result AcquisitionMode

pub record EventPublisherInstance : Type 0 where
  pub id : String
  pub has_publisher : Bool
  pub configure : GatewayConfig → Result (Unit {0})

-- the loop over the drivers: the devices that have one, and `driver_modes_`
unfoldable pub configure_drivers :
    GatewayConfig
    → List String
    → Table AcquisitionMode
    → List DriverInstance
    → Result (List String × Table AcquisitionMode)
configure_drivers config driver_devices driver_modes [] = ok (driver_devices, driver_modes)
configure_drivers config driver_devices driver_modes (i ∷ is) = do
  throw_if (is_empty i.device_id || not i.has_driver)
      (invalid_argument "every driver instance needs a device id and driver")
  throw_if (member i.device_id driver_devices)
      (invalid_argument (concat "duplicate driver for device: " i.device_id))
  device ← find_device config i.device_id
  i.configure device
  mode ← i.capabilities
  configure_drivers config (i.device_id ∷ driver_devices) (insert i.device_id mode driver_modes) is

-- the loop over the collection groups
unfoldable pub check_groups :
    Table AcquisitionMode → List String → List CollectionGroup → Result (Unit {0})
check_groups driver_modes group_ids [] = ok tt
check_groups driver_modes group_ids (g ∷ gs) = do
  throw_if (is_empty g.id || member g.id group_ids)
      (invalid_argument "collection group ids must be non-empty and unique")
  throw_if (leb g.interval 0 || leb g.timeout 0)
      (invalid_argument "collection group interval and timeout must be positive")
  throw_if (not (is_mode poll (lookup g.device_id driver_modes)))
      (invalid_argument (concat "push device cannot own a collection group: " g.id))
  check_groups driver_modes (g.id ∷ group_ids) gs

-- the loop over the publishers
unfoldable pub configure_publishers :
    GatewayConfig → List String → List EventPublisherInstance → Result (Unit {0})
configure_publishers config publisher_ids [] = ok tt
configure_publishers config publisher_ids (i ∷ is) = do
  throw_if (is_empty i.id || not i.has_publisher)
      (invalid_argument "every event publisher instance needs an id and publisher")
  throw_if (member i.id publisher_ids)
      (invalid_argument (concat "duplicate event publisher: " i.id))
  i.configure config
  configure_publishers config (i.id ∷ publisher_ids) is

-- It leaves `driver_modes_`.
unfoldable pub validate_and_configure :
    GatewayConfig
    → List DriverInstance
    → List EventPublisherInstance
    → Result (Table AcquisitionMode)
unfolding configure_drivers check_groups configure_publishers
validate_and_configure config drivers event_publishers = do
  configured ← configure_drivers config [] [] drivers
  throw_if (not (length configured.0 == length config.devices))
      (invalid_argument "each configured device must have one driver instance")
  check_groups configured.1 [] config.groups
  configure_publishers config [] event_publishers
  ok configured.1

-- the tasks that `start` makes of the groups, from an index on
unfoldable pub make_tasks : ℕ → ℕ → List CollectionGroup → List ScheduleTask
make_tasks start_time index [] = []
make_tasks start_time index (g ∷ gs) =
    record {
      group_id = g.id;
      interval = g.interval;
      next_due = milliseconds_after start_time g.interval;
      stable_order = index;
      skipped_cycles = 0;
    }
    ∷ make_tasks start_time (suc index) gs

-- whether `find_driver_ptr` finds a driver
unfoldable pub find_driver_ptr : List DriverInstance → String → Option DriverInstance
find_driver_ptr [] device_id = none
find_driver_ptr (i ∷ is) device_id =
    if str_eq i.device_id device_id then some i else find_driver_ptr is device_id

-- whether `find_io_gate` finds a gate, by the keys of `io_gates_`
unfoldable pub find_io_gate : List String → String → Bool
find_io_gate [] device_id = false
find_io_gate (key ∷ keys) device_id =
    if str_eq key device_id then true else find_io_gate keys device_id
