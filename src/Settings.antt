-- ===== src/Settings.antt =====
-- include/plugin_support/plugin_json.hpp: the readers of a plugin's settings, over the JSON library.
pub mod Make
mod Tests
use mini_gateway.Prelude.{
  ℕ, ◌-◌, ◌^◌, Bool, true, false, not, ◌&&◌, ◌||◌, String, concat, Option, none, some, List, [],
  ◌∷◌, ltb, ◌==◌, is_empty, if◌then◌else◌, u64_max, member, Error, invalid_argument, Result, ok,
  err, ◌>>=◌, ◌>>◌, throw_if,
}
use mini_gateway.Prelude.Int.{ℤ, pos, negsuc}
use mini_gateway.Model.Std.{Double, Platform}
use mini_gateway.Config.Json.{JsonLibrary, Parsed, parsed, malformed}

-- what `fail` throws
unfoldable pub settings_error : String → String → String → Error
settings_error plugin field message = invalid_argument (
    concat "invalid " (
      concat plugin (
        concat " configuration"
          (concat (if is_empty field then "" else concat "." field) (concat ": " message)))))

module _ {Json : Type 0} (std : Platform) (json : JsonLibrary Json) where
  unfoldable pub parse_object : String → String → Result Json
  parse_object settings_json plugin = elim (json.parse settings_json) [
    | parsed value ↦
        if not (json.is_object value)
        then err (settings_error plugin "" "must be an object")
        else ok value
    | malformed error ↦ err (settings_error plugin "" (concat "contains invalid JSON: " error))
  ]

  unfoldable pub json_member : Json → String → String → Result Json
  json_member object key plugin = elim (json.find key object) [
    | none ↦ err (settings_error plugin key "is required")
    | some item ↦ ok item
  ]

  unfoldable pub string_member : Json → String → String → Bool → Result String
  unfolding json_member
  string_member object key plugin allow_empty = do
    value ← json_member object key plugin
    throw_if (not (json.is_string value)) (settings_error plugin key "must be a string")
    throw_if (not allow_empty && is_empty (json.get_string value))
        (settings_error plugin key "must not be empty")
    ok (json.get_string value)

  unfoldable pub bool_member : Json → String → String → Result Bool
  unfolding json_member
  bool_member object key plugin = do
    value ← json_member object key plugin
    throw_if (not (json.is_boolean value)) (settings_error plugin key "must be a boolean")
    ok (json.get_bool value)

  unfoldable pub unsigned_part : ℤ → String → String → Result ℕ
  unsigned_part (pos value) key plugin = ok value
  unsigned_part (negsuc value) key plugin =
      err (settings_error plugin key "must be a non-negative integer")

  unfoldable pub unsigned_integer_member : Json → String → String → Result ℕ
  unfolding json_member unsigned_part
  unsigned_integer_member object key plugin = do
    value ← json_member object key plugin
    throw_if (not (json.is_number_integer value))
        (settings_error plugin key "must be a non-negative integer")
    if json.is_number_unsigned value
        then ok (json.get_uint64 value)
        else unsigned_part (json.get_int64 value) key plugin

  unfoldable pub size_member : Json → String → String → Bool → Result ℕ
  unfolding unsigned_integer_member
  size_member object key plugin positive = do
    value ← unsigned_integer_member object key plugin
    throw_if ((positive && (value == 0)) || ltb u64_max value)
        (settings_error plugin key (if positive then "must be positive" else "is too large"))
    ok value

  unfoldable pub milliseconds_member : Json → String → String → Bool → Result ℕ
  unfolding unsigned_integer_member
  milliseconds_member object key plugin positive = do
    value ← unsigned_integer_member object key plugin
    throw_if ((positive && (value == 0)) || ltb (2 ^ 63 - 1) value)
        (settings_error plugin key (if positive then "must be positive" else "is too large"))
    ok value

  -- The bounds of all calls are non-negative.
  unfoldable pub int_member : Json → String → String → ℕ → ℕ → Result ℕ
  unfolding unsigned_integer_member
  int_member object key plugin minimum maximum = do
    value ← unsigned_integer_member object key plugin
    throw_if (ltb value minimum || ltb maximum value) (
        settings_error plugin key (
          concat "must be in range "
            (concat (std.to_string (pos minimum)) (concat ".." (std.to_string (pos maximum))))))
    ok value

  -- `unsigned` has 32 bits.
  unfoldable pub unsigned_member : Json → String → String → Result ℕ
  unfolding unsigned_integer_member
  unsigned_member object key plugin = do
    value ← unsigned_integer_member object key plugin
    throw_if (ltb (2 ^ 32 - 1) value) (settings_error plugin key "is too large")
    ok value

  unfoldable pub number_member : Json → String → String → Result Double
  unfolding json_member
  number_member object key plugin = do
    value ← json_member object key plugin
    throw_if (not (json.is_number value)) (settings_error plugin key "must be a number")
    throw_if (not (std.is_finite (json.get_double value)))
        (settings_error plugin key "must be finite")
    ok (json.get_double value)

  -- the loop of `string_array_member`, with the texts seen so far
  unfoldable pub unique_items : List String → List Json → String → String → Result (List String)
  unique_items unique [] key plugin = ok []
  unique_items unique (value ∷ values) key plugin = do
    throw_if (not (json.is_string value)) (settings_error plugin key "must contain only strings")
    throw_if (is_empty (json.get_string value) || member (json.get_string value) unique)
        (settings_error plugin key "must contain unique non-empty strings")
    items ← unique_items (json.get_string value ∷ unique) values key plugin
    ok (json.get_string value ∷ items)

  abbrev pub empty_array : List Json → Bool
  empty_array [] = true
  empty_array (value ∷ values) = false

  unfoldable pub string_array_member : Json → String → String → Bool → Result (List String)
  unfolding json_member unique_items
  string_array_member object key plugin require_non_empty = do
    value ← json_member object key plugin
    throw_if (not (json.is_array value) || (require_non_empty && empty_array (json.elements value)))
        (settings_error plugin key
          (if require_non_empty then "must be a non-empty array" else "must be an array"))
    unique_items [] (json.elements value) key plugin
