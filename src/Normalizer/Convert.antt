-- ===== src/Normalizer/Convert.antt =====
-- What `convert_value` returns, and why.
use mini_gateway.Prelude.{◌≡◌, ◌⊎◌, Bool, true, false, not, ◌&&◌, Option, none, some}
use mini_gateway.Model.{
  Scalar, of_int, of_double, of_bool, of_string, of_bytes, ValueType, integer, double, boolean,
  string, byte_array, Quality, good, decode_error, out_of_range, PointConfig, numeric_value,
  scalar_to_string, is_good,
}
use mini_gateway.Model.Std.{Double, Platform}
use mini_gateway.Normalizer.{boolean_value, int64_max, int64_min}

abbrev is_bytes : Scalar → Bool
is_bytes (of_bytes item) = true
is_bytes _ = false

-- The types that ask for a number.
abbrev is_numeric : ValueType → Bool
is_numeric integer = true
is_numeric double = true
is_numeric _ = false

module _ (std : Platform) where
  -- Not below the configured minimum, and not above the maximum, where there are any.
  abbrev in_bounds : PointConfig → Double → Bool
  in_bounds config x =
      elim config.minimum [ none ↦ true | some low ↦ not (std.less x low) ]
      && elim config.maximum [ none ↦ true | some high ↦ not (std.less high x) ]

  -- The same of a value, if it reads as a number.
  abbrev number_in_range : PointConfig → Option Double → Bool
  number_in_range config none = true
  number_in_range config (some x) = in_bounds config x

  abbrev pub in_range : PointConfig → Scalar → Bool
  in_range config value = number_in_range config (numeric_value std value)

  -- The value that the configured type makes of a sample's value.
  pub data Decodes (config : PointConfig) (value : Scalar) : Scalar → Type 0 where
    as_string : config.type ≡ string → Decodes config value (of_string (scalar_to_string std value))
    as_bytes : config.type ≡ byte_array → is_bytes value ≡ true → Decodes config value value
    as_boolean :
        (b : Bool)
        → config.type ≡ boolean
        → boolean_value std value ≡ some b
        → Decodes config value (of_bool b)
    as_double :
        (x : Double)
        → config.type ≡ double
        → (numeric_value std value ≡ some x) × (std.is_finite x ≡ true)
        → Decodes config value (of_double (std.add (std.mul x config.scale) config.offset))
    as_integer :
        (x : Double)
        → config.type ≡ integer
        → (numeric_value std value ≡ some x) × (std.is_finite x ≡ true)
        → std.less (std.add (std.mul x config.scale) config.offset) (std.of_int64 int64_min) ≡ false
        → std.less (std.of_int64 int64_max) (std.add (std.mul x config.scale) config.offset) ≡ false
        → Decodes config value
            (of_int (std.llround (std.add (std.mul x config.scale) config.offset)))

  -- Why it makes none.
  pub data Undecodable (config : PointConfig) (value : Scalar) : Type 0 where
    no_bytes : config.type ≡ byte_array → is_bytes value ≡ false → Undecodable config value
    no_boolean : config.type ≡ boolean → boolean_value std value ≡ none → Undecodable config value
    no_number :
        is_numeric config.type ≡ true → numeric_value std value ≡ none → Undecodable config value
    not_finite :
        (x : Double)
        → is_numeric config.type ≡ true
        → (numeric_value std value ≡ some x) × (std.is_finite x ≡ false)
        → Undecodable config value

  -- What becomes of a value and its quality.
  pub data Converted (config : PointConfig) (value : Scalar)
      : Quality → Scalar × Quality → Type 0 where
    kept :
        (quality : Quality)
        → is_good quality ≡ false
        → Converted config value quality (value, quality)
    undecodable : Undecodable config value → Converted config value good (value, decode_error)
    too_wide :
        (x : Double)
        → config.type ≡ integer
        → (numeric_value std value ≡ some x) × (std.is_finite x ≡ true)
        → (std.less (std.add (std.mul x config.scale) config.offset) (std.of_int64 int64_min)
            ≡ true)
          ⊎ (std.less (std.of_int64 int64_max) (std.add (std.mul x config.scale) config.offset)
              ≡ true)
        → Converted config value good (value, out_of_range)
    in_bounds_of :
        (result : Scalar)
        → Decodes config value result
        → in_range config result ≡ true
        → Converted config value good (result, good)
    out_of_bounds :
        (result : Scalar)
        → Decodes config value result
        → in_range config result ≡ false
        → Converted config value good (result, out_of_range)
