-- ===== src/Config/Json.antt =====
-- The JSON library whose values the sources read: the type of its values and the calls that are
-- made of them, without laws.
use mini_gateway.Prelude.{ℕ, Bool, String, Option, List}
use mini_gateway.Prelude.Int.{ℤ}
use mini_gateway.Model.Std.{Double}

-- What `parse` does: it returns a value, or throws with a message.
pub data Parsed (Json : Type 0) : Type 0 where
  parsed : Json → Parsed Json
  malformed : String → Parsed Json

pub record JsonLibrary (Json : Type 0) : Type 0 where
  pub parse : String → Parsed Json
  pub dump : Json → String
  pub is_null : Json → Bool
  pub is_object : Json → Bool
  pub is_array : Json → Bool
  pub is_string : Json → Bool
  pub is_boolean : Json → Bool
  pub is_number : Json → Bool
  pub is_number_integer : Json → Bool
  pub is_number_unsigned : Json → Bool
  -- `find`, which gives `end()` for no member; the members of an object; those of an array
  pub find : String → Json → Option Json
  pub items : Json → List (String × Json)
  pub elements : Json → List Json
  -- `get`, by its type
  pub get_string : Json → String
  pub get_bool : Json → Bool
  pub get_uint64 : Json → ℕ
  pub get_int64 : Json → ℤ
  pub get_double : Json → Double
