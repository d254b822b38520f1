-- ===== src/Config/Fields.antt =====
-- The readers of single fields in src/core/config.cpp. A `ConfigError` is a `runtime_error` with its
-- message; a path is the text that names the place in the configuration.
use mini_gateway.Prelude.{
  ℕ, suc, ◌-◌, ◌^◌, Bool, true, false, not, ◌&&◌, ◌||◌, String, concat, Option, none, some, List,
  [], ◌∷◌, ltb, ◌==◌, is_empty, str_eq, if◌then◌else◌, u64_max, Table, member, emplace, Error,
  runtime_error, Result, ok, err, ◌>>=◌, ◌>>◌, throw_if,
}
use mini_gateway.Prelude.Int.{ℤ, pos, negsuc}
use mini_gateway.Model.{ValueType, integer, double, boolean, string, byte_array}
use mini_gateway.Model.Std.{Double, Platform}
use mini_gateway.Config.Json.{JsonLibrary}

-- what `fail` throws
unfoldable pub config_error : String → String → Error
config_error path message = runtime_error (concat path (concat ": " message))

abbrev pub field_path : String → String → String
field_path path key = concat path (concat "." key)

-- `path[index]`
abbrev pub item_path : Platform → String → ℕ → String
item_path std path index = concat path (concat "[" (concat (std.to_string (pos index)) "]"))

module _ {Json : Type 0} (std : Platform) (json : JsonLibrary Json) where
  unfoldable pub json_member : Json → String → String → Result Json
  json_member object key path =
      if not (json.is_object object)
      then err (config_error path "must be an object")
      else elim (json.find key object) [
        | none ↦ err (config_error (field_path path key) "is a required field")
        | some item ↦ ok item
      ]

  unfoldable pub object_member : Json → String → String → Result Json
  unfolding json_member
  object_member object key path = do
    value ← json_member object key path
    throw_if (not (json.is_object value)) (config_error (field_path path key) "must be an object")
    ok value

  unfoldable pub array_member : Json → String → String → Result (List Json)
  unfolding json_member
  array_member object key path = do
    value ← json_member object key path
    throw_if (not (json.is_array value)) (config_error (field_path path key) "must be an array")
    ok (json.elements value)

  unfoldable pub string_value : Json → String → Bool → Result String
  string_value value path allow_empty = do
    throw_if (not (json.is_string value)) (config_error path "must be a string")
    throw_if (not allow_empty && is_empty (json.get_string value))
        (config_error path "must not be empty")
    ok (json.get_string value)

  unfoldable pub string_member : Json → String → String → Bool → Result String
  unfolding json_member string_value
  string_member object key path allow_empty = do
    value ← json_member object key path
    string_value value (field_path path key) allow_empty

  unfoldable pub optional_path_member : Json → String → String → Result String
  unfolding string_value
  optional_path_member object key path = elim (json.find key object) [
    | none ↦ ok ""
    | some item ↦ if json.is_null item then ok "" else string_value item (field_path path key) false
  ]

  unfoldable pub optional_enabled : Json → String → Result Bool
  optional_enabled object path = elim (json.find "enabled" object) [
    | none ↦ ok true
    | some item ↦
        if not (json.is_boolean item)
        then err (config_error (field_path path "enabled") "must be a boolean")
        else ok (json.get_bool item)
  ]

  unfoldable pub signed_value : ℤ → String → Result ℕ
  signed_value (pos value) path = ok value
  signed_value (negsuc value) path = err (config_error path "must be a non-negative integer")

  unfoldable pub unsigned_integer_value : Json → String → Result ℕ
  unfolding signed_value
  unsigned_integer_value value path =
      if not (json.is_number_integer value)
      then err (config_error path "must be a non-negative integer")
      else if json.is_number_unsigned value
      then ok (json.get_uint64 value)
      else signed_value (json.get_int64 value) path

  unfoldable pub unsigned_integer_member : Json → String → String → Result ℕ
  unfolding json_member unsigned_integer_value
  unsigned_integer_member object key path = do
    value ← json_member object key path
    unsigned_integer_value value (field_path path key)

  -- `std::size_t` has 64 bits.
  unfoldable pub size_member : Json → String → String → Bool → Result ℕ
  unfolding unsigned_integer_member
  size_member object key path positive = do
    value ← unsigned_integer_member object key path
    throw_if ((positive && (value == 0)) || ltb u64_max value) (
        config_error (field_path path key)
          (if positive then "must be a positive size" else "is too large"))
    ok value

  -- The representation of `std::chrono::milliseconds` is a signed integer of 64 bits.
  unfoldable pub milliseconds_member : Json → String → String → Bool → Result ℕ
  unfolding unsigned_integer_member
  milliseconds_member object key path positive = do
    value ← unsigned_integer_member object key path
    throw_if ((positive && (value == 0)) || ltb (2 ^ 63 - 1) value) (
        config_error (field_path path key)
          (if positive then "must be a positive duration" else "is too large"))
    ok value

  unfoldable pub finite_number_member : Json → String → String → Result Double
  unfolding json_member
  finite_number_member object key path = do
    value ← json_member object key path
    throw_if (not (json.is_number value)) (config_error (field_path path key) "must be a number")
    throw_if (not (std.is_finite (json.get_double value)))
        (config_error (field_path path key) "must be finite")
    ok (json.get_double value)

  unfoldable pub present_number : Json → String → Result (Option Double)
  present_number item path = do
    throw_if (not (json.is_number item)) (config_error path "must be a number or null")
    throw_if (not (std.is_finite (json.get_double item))) (config_error path "must be finite")
    ok (some (json.get_double item))

  unfoldable pub optional_number_member : Json → String → String → Result (Option Double)
  unfolding present_number
  optional_number_member object key path = elim (json.find key object) [
    | none ↦ ok none
    | some item ↦ if json.is_null item then ok none else present_number item (field_path path key)
  ]

  -- the loop of `string_map`
  unfoldable pub string_items : List (String × Json) → String → Table String → Result (Table String)
  string_items [] path result = ok result
  string_items ((key, item) ∷ rest) path result = do
    throw_if (not (json.is_string item)) (config_error (field_path path key) "must be a string")
    string_items rest path (emplace key (json.get_string item) result)

  unfoldable pub string_map : Json → String → Result (Table String)
  unfolding string_items
  string_map value path = do
    throw_if (not (json.is_object value))
        (config_error path "must be an object containing string values")
    string_items (json.items value) path []

  -- the loop of `string_array`, from an index on, with the texts seen so far
  unfoldable pub unique_strings : ℕ → List String → List Json → String → Result (List String)
  unfolding string_value
  unique_strings index unique [] path = ok []
  unique_strings index unique (value ∷ values) path = do
    item ← string_value value (item_path std path index) false
    throw_if (member item unique)
        (config_error (item_path std path index) "must be unique within the array")
    items ← unique_strings (suc index) (item ∷ unique) values path
    ok (item ∷ items)

  abbrev pub no_elements : List Json → Bool
  no_elements [] = true
  no_elements (value ∷ values) = false

  unfoldable pub string_array : Json → String → Bool → Result (List String)
  unfolding unique_strings
  string_array value path require_non_empty = do
    throw_if (not (json.is_array value) || (require_non_empty && no_elements (json.elements value)))
        (config_error path
          (if require_non_empty then "must be a non-empty array" else "must be an array"))
    unique_strings 0 [] (json.elements value) path

  unfoldable pub named_type : String → String → Result ValueType
  named_type name path =
      if str_eq name "integer"
      then ok integer
      else if str_eq name "double"
      then ok double
      else if str_eq name "boolean"
      then ok boolean
      else if str_eq name "string"
      then ok string
      else if str_eq name "bytes" || str_eq name "byte_array"
      then ok byte_array
      else err (config_error path (concat "unsupported value type '" (concat name "'")))

  unfoldable pub value_type : Json → String → Result ValueType
  unfolding string_value named_type
  value_type value path = do name ← string_value value path false; named_type name path
