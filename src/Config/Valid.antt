-- ===== src/Config/Valid.antt =====
-- What holds of the parts of a configuration that the readers return.
pub mod Devices
pub mod Groups
pub mod Plugins
pub mod Whole
use mini_gateway.Prelude.{
  ℕ, suc, ◌-◌, ◌^◌, ◌<◌, ◌≤◌, ◌≡◌, ◌≢◌, refl, Bool, true, false, not, ◌&&◌, ◌||◌, String, Option,
  none, some, List, [], ◌∷◌, arith, ltb, ◌==◌, eq_iff, is_empty, u64_max, Result, ok, err,
  >>=_returns, throw_if-eq-ok, ◌⊎◌, inl, inr, if◌then◌else◌,
}
use mini_gateway.Model.{PointConfig}
use mini_gateway.Model.Std.{Platform}
use mini_gateway.Normalizer.{reversed_range}
use mini_gateway.Config.Json.{JsonLibrary}
use mini_gateway.Config.Fields.{
  json_member, string_value, string_member, unsigned_integer_member, size_member,
  milliseconds_member, finite_number_member, optional_number_member, string_map, value_type,
  field_path,
}
use mini_gateway.Config.Parse.{parse_point}

module _ {Json : Type 0} (std : Platform) (json : JsonLibrary Json) where
  string_value_named :
      (value : Json) (path : String) {text : String}
      → string_value std json value path false ≡ ok text
      → text ≢ ""
  unfolding string_value
  string_value_named value path {text} h =
      let (a, h₁) = throw_if-eq-ok (not (json.is_string value)) _ _ h in
      let (b, h₂) = throw_if-eq-ok (not false && is_empty (json.get_string value)) _ _ h₁ in
      ground (arith, eq_iff (json.get_string value) "")

  -- A text that must not be empty is not.
  pub string_member_named :
      (object : Json) (key path : String) {text : String}
      → string_member std json object key path false ≡ ok text
      → text ≢ ""
  unfolding string_member
  string_member_named object key path h =
      let (value, h₁, found) = >>=_returns (json_member std json object key path) _ h in
      string_value_named value (field_path path key) h₁

  pub size_member_bounds :
      (object : Json) (key path : String) {n : ℕ}
      → size_member std json object key path true ≡ ok n
      → (0 < n) × (n ≤ u64_max)
  unfolding size_member
  size_member_bounds object key path {n} h =
      let (value, h₁, found) = >>=_returns (unsigned_integer_member std json object key path) _ h in
      let (a, h₂) = throw_if-eq-ok ((true && (value == 0)) || ltb u64_max value) _ _ h₁ in
      ground arith

  pub milliseconds_member_bounds :
      (object : Json) (key path : String) {n : ℕ}
      → milliseconds_member std json object key path true ≡ ok n
      → (0 < n) × (n ≤ 2 ^ 63 - 1)
  unfolding milliseconds_member
  milliseconds_member_bounds object key path {n} h =
      let (value, h₁, found) = >>=_returns (unsigned_integer_member std json object key path) _ h in
      let (a, h₂) = throw_if-eq-ok ((true && (value == 0)) || ltb (2 ^ 63 - 1) value) _ _ h₁ in
      ground arith

  -- A point has a name and a range that is not reversed.
  pub parse_point_valid :
      (value : Json) (path : String) {p : PointConfig}
      → parse_point std json value path ≡ ok p
      → (p.name ≢ "") × (reversed_range std p.minimum p.maximum ≡ false)
  unfolding parse_point
  parse_point_valid value path {p} h =
      let (o, h₁) = throw_if-eq-ok (not (json.is_object value)) _ _ h in
      let (name, h₂, named) = >>=_returns (string_member std json value "name" path false) _ h₁ in
      let (tv, h₃, e₃) = >>=_returns (json_member std json value "type" path) _ h₂ in
      let (type, h₄, e₄) = >>=_returns (value_type std json tv (field_path path "type")) _ h₃ in
      let (unit, h₅, e₅) = >>=_returns (string_member std json value "unit" path true) _ h₄ in
      let (av, h₆, e₆) = >>=_returns (json_member std json value "address" path) _ h₅ in
      let (address, h₇, e₇) =
        >>=_returns (string_map std json av (field_path path "address")) _ h₆ in
      let (scale, h₈, e₈) = >>=_returns (finite_number_member std json value "scale" path) _ h₇ in
      let (offset, h₉, e₉) = >>=_returns (finite_number_member std json value "offset" path) _ h₈ in
      let (minimum, hₐ, eₐ) =
        >>=_returns (optional_number_member std json value "minimum" path) _ h₉ in
      let (maximum, hₑ, eₑ) =
        >>=_returns (optional_number_member std json value "maximum" path) _ hₐ in
      let (range, done) = throw_if-eq-ok (reversed_range std minimum maximum) _ _ hₑ in
      let named : name ≢ "" = string_member_named value "name" path named in
      (ground arith, ground arith)
