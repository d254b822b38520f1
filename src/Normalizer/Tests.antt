-- ===== src/Normalizer/Tests.antt =====
-- Runs of the normalizer, and the theorems at concrete inputs.
use mini_gateway.Prelude.{
  ◌+◌, ◌%◌, ◌≡◌, refl, false, none, some, [], ◌∷◌, lookup, insert, ok, increment, u64_mod,
}
use mini_gateway.Prelude.Int.{pos}
use mini_gateway.Model.{
  of_int, of_double, good, timeout, bad, out_of_range, integer, double, PointConfig, DeviceConfig,
  GatewayConfig, RawBatch, numeric_value,
}
use mini_gateway.Model.Whole.{whole}
use mini_gateway.Normalizer.{Normalizer, create, convert_value, normalize}
use mini_gateway.Normalizer.Readings.{normalize_counts, count_bad}
use mini_gateway.Normalizer.Points.{
  IsDeviceList, HoldsDevices, create-IsDeviceList, create-HoldsDevices,
}

abbrev level : PointConfig
level = record {
  name = "level";
  type = double;
  unit = "mm";
  address = [];
  scale = 2;
  offset = 1;
  minimum = none;
  maximum = some 100;
}

abbrev count : PointConfig
count = record {
  name = "count";
  type = integer;
  unit = "";
  address = [];
  scale = 1;
  offset = 0;
  minimum = none;
  maximum = none;
}

abbrev tank : DeviceConfig
tank = record {
  id = "tank";
  driver = record { type = "sim"; settings_json = "{}"; library = "" };
  connection = [];
  points = level ∷ count ∷ [];
}

abbrev plant : GatewayConfig
plant = record {
  raw_queue_capacity = 4;
  control_queue_capacity = 4;
  devices = tank ∷ [];
  groups = [];
}

abbrev fresh : Normalizer
fresh = record {
  points = ("tank", ("level", level) ∷ ("count", count) ∷ []) ∷ [];
  event_sequence = 0;
  batches = 0;
  readings = 0;
  bad_readings = 0;
}

makes_plant : create whole plant ≡ ok fresh
unfolding create lookup insert
makes_plant = refl

abbrev batch : RawBatch
batch = record {
  device_id = "tank";
  source = "poll";
  samples =
      record { point = "level"; value = of_int (pos 20); status = good; source_time_ns = pos 0 }
      ∷ record { point = "level"; value = of_int (pos 60); status = good; source_time_ns = pos 5 }
      ∷ record { point = "depth"; value = of_int (pos 1); status = good; source_time_ns = pos 5 }
      ∷ record { point = "count"; value = of_int (pos 3); status = timeout; source_time_ns = pos 5 }
      ∷ [];
}

reads_batch :
    let (event, n) = normalize whole fresh (pos 9) batch in
    (n.readings ≡ 4)
    × (n.bad_readings ≡ 3)
    × (event.readings
        ≡ record {
          point = "level";
          value = of_double 41;
          quality = good;
          unit = "mm";
          source_time_ns = pos 9;
          received_time_ns = pos 9;
          derived = false;
        }
          ∷ record {
            point = "level";
            value = of_double 121;
            quality = out_of_range;
            unit = "mm";
            source_time_ns = pos 5;
            received_time_ns = pos 9;
            derived = false;
          }
          ∷ record {
            point = "depth";
            value = of_int (pos 1);
            quality = bad;
            unit = "";
            source_time_ns = pos 5;
            received_time_ns = pos 9;
            derived = false;
          }
          ∷ record {
            point = "count";
            value = of_int (pos 3);
            quality = timeout;
            unit = "";
            source_time_ns = pos 5;
            received_time_ns = pos 9;
            derived = false;
          }
          ∷ [])
unfolding normalize convert_value numeric_value lookup
reads_batch = (refl, refl, refl)

normalize_counts_example :
    let (event, n') = normalize whole fresh (pos 9) batch in
    (n'.points ≡ fresh.points)
    × (n'.batches ≡ increment 0)
    × (n'.event_sequence ≡ increment 0)
    × (n'.readings % u64_mod ≡ (0 + 4) % u64_mod)
    × (n'.bad_readings % u64_mod ≡ (0 + count_bad event.readings) % u64_mod)
normalize_counts_example = normalize_counts whole fresh (pos 9) batch

create-IsDeviceList_example : IsDeviceList whole plant.devices
create-IsDeviceList_example = (create-IsDeviceList whole plant).0 (fresh, makes_plant)

create-HoldsDevices_example : HoldsDevices whole fresh.points plant.devices
create-HoldsDevices_example = create-HoldsDevices whole plant fresh makes_plant
