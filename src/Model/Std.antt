-- ===== src/Model/Std.antt =====
-- The arithmetic on `double` and the conversions of the C++ standard library that the sources call.
-- They are a parameter of the model, without laws; a theorem that needs a law names it.
use mini_gateway.Prelude.{ℕ, Bool, String, Option}
use mini_gateway.Prelude.Int.{ℤ}

-- A `double` by its bit pattern.
abbrev pub Double : Type 0
Double = ℕ

pub record Platform : Type 0 where
  -- the literals 0.0 and 1.0
  pub zero : Double
  pub one : Double
  pub add : Double → Double → Double
  pub mul : Double → Double → Double
  pub div : Double → Double → Double
  pub sqrt : Double → Double
  -- `<` and `==`
  pub less : Double → Double → Bool
  pub equal : Double → Double → Bool
  pub is_finite : Double → Bool
  -- `static_cast<double>` of a signed and of an unsigned 64-bit integer, `std::llround`
  pub of_int64 : ℤ → Double
  pub of_size : ℕ → Double
  pub llround : Double → ℤ
  -- `std::from_chars` where it reads the whole text; `std::to_string`; `std::fixed` with
  -- `std::setprecision(3)`
  pub from_chars : String → Option Double
  pub to_string : ℤ → String
  pub to_fixed : Double → String
