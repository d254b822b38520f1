-- ===== src/Control.antt =====
-- include/gateway/control.hpp: the types of device control, shared by the dispatcher, the
-- processors and the control sources. A deadline is a time point of the steady clock.
pub mod Queue
pub mod Dispatcher
pub mod Execute
pub mod Lifecycle
pub mod Service
mod Tests
use mini_gateway.Prelude.{ℕ, ◌-◌, ◌^◌, String, Table}
use mini_gateway.Model.{Scalar}

abbrev pub ControlArguments : Type 0
ControlArguments = Table Scalar

-- `ControlClock::time_point::max()`: no deadline
abbrev pub no_deadline : ℕ
no_deadline = 2 ^ 63 - 1

pub record DeviceControlRequest : Type 0 where
  pub request_id : String
  pub device_id : String
  pub command : String
  pub arguments : ControlArguments
  pub deadline : ℕ

pub data DeviceControlStatus : Type 0 where
  succeeded unsupported invalid_argument timeout cancelled failed : DeviceControlStatus

pub record DeviceControlResult : Type 0 where
  pub request_id : String
  pub status : DeviceControlStatus
  pub outputs : ControlArguments
  pub message : String

pub data ControlSubmitResult : Type 0 where
  accepted queue_full unknown_device invalid_request stopping : ControlSubmitResult

pub record ControlQueueStats : Type 0 where
  pub size : ℕ
  pub capacity : ℕ
  pub max_size : ℕ
  pub accepted : ℕ
  pub rejected_full : ℕ
  pub cancelled : ℕ

pub record ControlStats : Type 0 where
  pub submitted : ℕ
  pub accepted : ℕ
  pub queue_full : ℕ
  pub unknown_device : ℕ
  pub invalid_requests : ℕ
  pub stopping : ℕ
  pub executed : ℕ
  pub succeeded : ℕ
  pub unsupported : ℕ
  pub invalid_argument : ℕ
  pub timeouts : ℕ
  pub cancelled : ℕ
  pub failed : ℕ
  pub queue_wait_ns : ℕ
  pub execution_ns : ℕ
