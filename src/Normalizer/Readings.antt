-- ===== src/Normalizer/Readings.antt =====
-- What `normalize` makes of a batch.
use mini_gateway.Prelude.{
  ℕ, ◌+◌, ◌%◌, ◌≡◌, false, String, Option, none, some, List, [], ◌∷◌, arith, if◌then◌else◌, ap,
  Table, lookup, length, u64_mod, increment,
}
use mini_gateway.Prelude.Int.{ℤ}
use mini_gateway.Model.{bad, is_good, PointConfig, RawSample, RawBatch, Reading}
use mini_gateway.Model.Std.{Platform}
use mini_gateway.Normalizer.{
  Normalizer, is_zero, reading_of, count_reading, normalize_samples, normalize,
}
use mini_gateway.Normalizer.Convert.{Converted}

module _ (std : Platform) where
  -- The value, quality and unit of a sample whose point has this configuration, or none.
  abbrev pub JudgedAs : Option PointConfig → RawSample → Reading → Type 0
  JudgedAs none s r = (r.quality ≡ bad) × (r.value ≡ s.value) × (r.unit ≡ "")
  JudgedAs (some config) s r =
      Converted std config s.value s.status (r.value, r.quality) × (r.unit ≡ config.unit)

  -- `points_[device_id][point]`
  abbrev pub point_of : Option (Table PointConfig) → String → Option PointConfig
  point_of none point = none
  point_of (some device) point = lookup point device

  -- The reading that belongs to a sample of the device.
  abbrev pub IsReadingOf : Option (Table PointConfig) → ℤ → RawSample → Reading → Type 0
  IsReadingOf device received_at s r =
      (r.point ≡ s.point)
      × (r.received_time_ns ≡ received_at)
      × (r.source_time_ns ≡ (if is_zero s.source_time_ns then received_at else s.source_time_ns))
      × (r.derived ≡ false)
      × JudgedAs (point_of device s.point) s r

-- 1 for a reading whose quality is not good, 0 for a good one
bad_one : Reading → ℕ
bad_one r = if is_good r.quality then 0 else 1

-- how many readings are not good
pub count_bad : List Reading → ℕ
count_bad [] = 0
count_bad (r ∷ rs) = bad_one r + count_bad rs

module _ (std : Platform) where
  bad_counted :
      (r : Reading) (n : Normalizer)
      → (count_reading std r n).bad_readings % u64_mod ≡ (n.bad_readings + bad_one r) % u64_mod
  unfolding bad_one
  bad_counted r n = ground arith

  samples_counted :
      (device : Option (Table PointConfig)) (received_at : ℤ) (ss : List RawSample) (n : Normalizer)
      → let (rs, n') = normalize_samples std device received_at ss n in
        (n'.points ≡ n.points)
        × (n'.batches ≡ n.batches)
        × (n'.event_sequence ≡ n.event_sequence)
        × (n'.readings % u64_mod ≡ (n.readings + length ss) % u64_mod)
        × (n'.bad_readings % u64_mod ≡ (n.bad_readings + count_bad rs) % u64_mod)
  unfolding normalize_samples count_bad
  samples_counted device received_at [] n = ground arith
  samples_counted device received_at (s ∷ ss) n =
      let r = reading_of std device received_at s in
      let ih = samples_counted device received_at ss (count_reading std r n) in
      (ih.0, ih.1, ih.2, omega (arith, ih.3), omega (arith, ih.4, bad_counted r n))

  -- Each batch counts once, each of its samples as one reading, and as bad exactly the readings
  -- whose quality is not good, modulo 2^64; the configured points stay as they are.
  pub normalize_counts :
      (n : Normalizer) (received_at : ℤ) (batch : RawBatch)
      → let (event, n') = normalize std n received_at batch in
        (n'.points ≡ n.points)
        × (n'.batches ≡ increment n.batches)
        × (n'.event_sequence ≡ increment n.event_sequence)
        × (n'.readings % u64_mod ≡ (n.readings + length batch.samples) % u64_mod)
        × (n'.bad_readings % u64_mod ≡ (n.bad_readings + count_bad event.readings) % u64_mod)
  unfolding normalize
  normalize_counts n received_at batch =
      let (points, batches, sequence, readings, poor) =
        samples_counted (lookup batch.device_id n.points) received_at batch.samples
          (record n { event_sequence = increment n.event_sequence }) in
      (points, ap increment batches, sequence, readings, poor)
