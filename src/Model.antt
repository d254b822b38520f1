-- ===== src/Model.antt =====
-- include/gateway/model.hpp and src/core/model.cpp: the values, configurations and events that the
-- parts of the gateway exchange.
pub mod Std
pub mod Whole
use mini_gateway.Prelude.{
  ℕ, zero, suc, Bool, true, false, String, concat, Option, none, some, List, [], ◌∷◌, Table, str_eq,
  length, if◌then◌else◌,
}
use mini_gateway.Prelude.Int.{ℤ, pos}
use Std.{Double, Platform}

-- `Scalar`, a `std::variant`
pub data Scalar : Type 0 where
  of_int : ℤ → Scalar
  of_double : Double → Scalar
  of_bool : Bool → Scalar
  of_string : String → Scalar
  of_bytes : List ℕ → Scalar

pub data ValueType : Type 0 where
  integer double boolean string byte_array : ValueType

pub data Quality : Type 0 where
  good timeout disconnected decode_error out_of_range bad : Quality

pub record PointConfig : Type 0 where
  pub name : String
  pub type : ValueType
  pub unit : String
  pub address : Table String
  pub scale : Double
  pub offset : Double
  pub minimum : Option Double
  pub maximum : Option Double

pub record PluginSpec : Type 0 where
  pub type : String
  pub settings_json : String
  pub library : String

pub record DeviceConfig : Type 0 where
  pub id : String
  pub driver : PluginSpec
  pub connection : Table String
  pub points : List PointConfig

-- intervals and timeouts in milliseconds
pub record CollectionGroup : Type 0 where
  pub id : String
  pub device_id : String
  pub interval : ℕ
  pub timeout : ℕ
  pub points : List String

pub record GatewayConfig : Type 0 where
  pub raw_queue_capacity : ℕ
  pub control_queue_capacity : ℕ
  pub devices : List DeviceConfig
  pub groups : List CollectionGroup

pub record RawSample : Type 0 where
  pub point : String
  pub value : Scalar
  pub status : Quality
  pub source_time_ns : ℤ

pub record RawBatch : Type 0 where
  pub device_id : String
  pub source : String
  pub samples : List RawSample

pub record Reading : Type 0 where
  pub point : String
  pub value : Scalar
  pub quality : Quality
  pub unit : String
  pub source_time_ns : ℤ
  pub received_time_ns : ℤ
  pub derived : Bool

pub record Event : Type 0 where
  pub event_id : String
  pub device_id : String
  pub source : String
  pub readings : List Reading
  pub model_version : String

-- `quality == Quality::Good`
abbrev pub is_good : Quality → Bool
is_good good = true
is_good _ = false

unfoldable pub quality_name : Quality → String
quality_name good = "good"
quality_name timeout = "timeout"
quality_name disconnected = "disconnected"
quality_name decode_error = "decode_error"
quality_name out_of_range = "out_of_range"
quality_name bad = "bad"

unfoldable pub numeric_value : Platform → Scalar → Option Double
numeric_value std (of_int item) = some (std.of_int64 item)
numeric_value std (of_double item) = some item
numeric_value std (of_bool item) = some (if item then std.one else std.zero)
numeric_value std (of_bytes item) = none
numeric_value std (of_string item) = std.from_chars item

unfoldable pub scalar_to_string : Platform → Scalar → String
scalar_to_string std (of_bool item) = if item then "true" else "false"
scalar_to_string std (of_double item) = std.to_fixed item
scalar_to_string std (of_int item) = std.to_string item
scalar_to_string std (of_bytes item) =
    concat "<" (concat (std.to_string (pos (length item))) " bytes>")
scalar_to_string std (of_string item) = item

-- the loop of `find_reading`; null is `none`
unfoldable pub find_in : String → List Reading → Option Reading
find_in point [] = none
find_in point (r ∷ rs) = if str_eq r.point point then some r else find_in point rs

unfoldable pub find_reading : Event → String → Option Reading
unfolding find_in
find_reading event point = find_in point event.readings
