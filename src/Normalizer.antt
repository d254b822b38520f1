-- ===== src/Normalizer.antt =====
-- include/gateway/normalizer.hpp and src/core/normalizer.cpp: from raw batches to events. The time
-- of `unix_time_ns()` is an argument of `normalize`.
pub mod Convert
pub mod Readings
pub mod Points
mod Tests
use mini_gateway.Prelude.{
  is_some, ℕ, ◌+◌, ◌-◌, ◌^◌, Bool, true, false, not, ◌&&◌, ◌||◌, String, concat, Option, none, some,
  List, [], ◌∷◌, Table, lookup, insert, str_eq, is_empty, length, increment, if◌then◌else◌, Error,
  invalid_argument, Result, ok, err, ◌>>=◌, ◌>>◌, throw_if, ◌==◌,
}
use mini_gateway.Prelude.Int.{ℤ, pos, negsuc}
use mini_gateway.Model.{
  Scalar, of_int, of_double, of_bool, of_string, of_bytes, ValueType, integer, double, boolean,
  string, byte_array, Quality, good, decode_error, out_of_range, bad, is_good, PointConfig,
  DeviceConfig, GatewayConfig, RawSample, RawBatch, Reading, Event, numeric_value, scalar_to_string,
}
use mini_gateway.Model.Std.{Double, Platform}

abbrev pub int64_max : ℤ
int64_max = pos (2 ^ 63 - 1)

abbrev pub int64_min : ℤ
int64_min = negsuc (2 ^ 63 - 1)

abbrev pub is_zero : ℤ → Bool
is_zero (pos n) = n == 0
is_zero (negsuc n) = false

pub record Normalizer : Type 0 where
  pub points : Table (Table PointConfig)
  pub event_sequence : ℕ
  pub batches : ℕ
  pub readings : ℕ
  pub bad_readings : ℕ

pub record NormalizerStats : Type 0 where
  pub batches : ℕ
  pub readings : ℕ
  pub bad_readings : ℕ

unfoldable pub stats : Normalizer → NormalizerStats
stats n = record { batches = n.batches; readings = n.readings; bad_readings = n.bad_readings }

module _ (std : Platform) where
  unfoldable pub boolean_value : Scalar → Option Bool
  boolean_value (of_bool item) = some item
  boolean_value (of_int item) = some (not (is_zero item))
  boolean_value (of_double item) = some (not (std.equal item std.zero))
  boolean_value (of_bytes item) = none
  boolean_value (of_string item) =
      if str_eq item "true" || str_eq item "1"
      then some true
      else if str_eq item "false" || str_eq item "0"
      then some false
      else none

  -- the test against the configured range
  abbrev pub outside : PointConfig → Double → Bool
  outside config x =
      elim config.minimum [ none ↦ false | some low ↦ std.less x low ]
      || elim config.maximum [ none ↦ false | some high ↦ std.less high x ]

  -- the part of `convert_value` behind the `switch`
  unfoldable pub check_number : PointConfig → Scalar → Option Double → Scalar × Quality
  check_number config value none = (value, good)
  check_number config value (some x) = (value, if outside config x then out_of_range else good)

  unfoldable pub check_range : PointConfig → Scalar → Scalar × Quality
  unfolding check_number
  check_range config value = check_number config value (numeric_value std value)

  -- The cases of the `switch`: `Double` and `Integer` with the result of `numeric_value`.
  unfoldable pub to_double : PointConfig → Scalar → Option Double → Scalar × Quality
  unfolding check_range
  to_double config value none = (value, decode_error)
  to_double config value (some x) =
      if not (std.is_finite x)
      then (value, decode_error)
      else check_range config (of_double (std.add (std.mul x config.scale) config.offset))

  abbrev pub scaled : PointConfig → Double → Double
  scaled config x = std.add (std.mul x config.scale) config.offset

  unfoldable pub to_integer : PointConfig → Scalar → Option Double → Scalar × Quality
  unfolding check_range
  to_integer config value none = (value, decode_error)
  to_integer config value (some x) =
      if not (std.is_finite x)
      then (value, decode_error)
      else if std.less (scaled config x) (std.of_int64 int64_min)
          || std.less (std.of_int64 int64_max) (scaled config x)
      then (value, out_of_range)
      else check_range config (of_int (std.llround (scaled config x)))

  unfoldable pub to_boolean : PointConfig → Scalar → Option Bool → Scalar × Quality
  unfolding check_range
  to_boolean config value none = (value, decode_error)
  to_boolean config value (some b) = check_range config (of_bool b)

  unfoldable pub to_bytes : PointConfig → Scalar → Scalar × Quality
  unfolding check_range
  to_bytes config (of_bytes item) = check_range config (of_bytes item)
  to_bytes config value = (value, decode_error)

  unfoldable pub convert_as : ValueType → PointConfig → Scalar → Scalar × Quality
  unfolding to_double to_integer to_boolean to_bytes
  convert_as string config value = check_range config (of_string (scalar_to_string std value))
  convert_as byte_array config value = to_bytes config value
  convert_as boolean config value = to_boolean config value (boolean_value value)
  convert_as double config value = to_double config value (numeric_value std value)
  convert_as integer config value = to_integer config value (numeric_value std value)

  unfoldable pub convert_value : Scalar → PointConfig → Quality → Scalar × Quality
  unfolding convert_as
  convert_value value config quality =
      if is_good quality then convert_as config.type config value else (value, quality)

  -- `point.minimum && point.maximum && *point.minimum > *point.maximum`
  abbrev pub reversed_range : Option Double → Option Double → Bool
  reversed_range none maximum = false
  reversed_range (some low) none = false
  reversed_range (some low) (some high) = std.less high low

  -- the inner loop of the constructor
  unfoldable pub add_points :
      String → Table PointConfig → List PointConfig → Result (Table PointConfig)
  add_points device_id map [] = ok map
  add_points device_id map (p ∷ ps) = do
    throw_if (is_empty p.name) (invalid_argument "point name cannot be empty")
    throw_if (reversed_range p.minimum p.maximum)
        (invalid_argument (concat "invalid range for point: " p.name))
    throw_if (is_some (lookup p.name map)) (
        invalid_argument
          (concat "duplicate point " (concat p.name (concat " in device " device_id))))
    add_points device_id (insert p.name p map) ps

  -- the outer loop of the constructor
  unfoldable pub add_devices :
      Table (Table PointConfig) → List DeviceConfig → Result (Table (Table PointConfig))
  unfolding add_points
  add_devices points [] = ok points
  add_devices points (d ∷ ds) = do
    throw_if (is_empty d.id) (invalid_argument "device id cannot be empty")
    throw_if (is_some (lookup d.id points)) (invalid_argument (concat "duplicate device id: " d.id))
    map ← add_points d.id [] d.points
    add_devices (insert d.id map points) ds

  -- the constructor
  unfoldable pub create : GatewayConfig → Result Normalizer
  unfolding add_devices
  create config = do
    points ← add_devices [] config.devices
    ok (record { points = points; event_sequence = 0; batches = 0; readings = 0; bad_readings = 0 })

  -- value, quality and unit of one sample, by its device and its point
  unfoldable pub convert_sample : Option (Table PointConfig) → RawSample → Scalar × Quality × String
  convert_sample none sample = (sample.value, bad, "")
  convert_sample (some device) sample = elim (lookup sample.point device) [
    | none ↦ (sample.value, bad, "")
    | some point ↦
        let (value, quality) = convert_value sample.value point sample.status in
        (value, quality, point.unit)
  ]

  unfoldable pub reading_of : Option (Table PointConfig) → ℤ → RawSample → Reading
  unfolding convert_sample
  reading_of device received_at sample =
      let (value, quality, unit) = convert_sample device sample in
      record {
        point = sample.point;
        value = value;
        quality = quality;
        unit = unit;
        source_time_ns =
            if is_zero sample.source_time_ns then received_at else sample.source_time_ns;
        received_time_ns = received_at;
        derived = false;
      }

  -- the counters that one reading moves
  abbrev pub count_reading : Reading → Normalizer → Normalizer
  count_reading r n = record n {
    bad_readings = if is_good r.quality then n.bad_readings else increment n.bad_readings;
    readings = increment n.readings;
  }

  -- the loop of `normalize`
  unfoldable pub normalize_samples :
      Option (Table PointConfig) → ℤ → List RawSample → Normalizer → List Reading × Normalizer
  unfolding reading_of
  normalize_samples device received_at [] n = ([], n)
  normalize_samples device received_at (s ∷ ss) n =
      let r = reading_of device received_at s in
      let (rs, n') = normalize_samples device received_at ss (count_reading r n) in (r ∷ rs, n')

  unfoldable pub normalize : Normalizer → ℤ → RawBatch → Event × Normalizer
  unfolding normalize_samples
  normalize n received_at batch =
      let sequence = increment n.event_sequence in
      let (readings, n') =
        normalize_samples (lookup batch.device_id n.points) received_at batch.samples
          (record n { event_sequence = sequence }) in
      (
        record {
          event_id =
              concat "event-"
                (concat (std.to_string received_at) (concat "-" (std.to_string (pos sequence))));
          device_id = batch.device_id;
          source = batch.source;
          readings = readings;
          model_version = "";
        },
        record n' { batches = increment n'.batches },
      )
