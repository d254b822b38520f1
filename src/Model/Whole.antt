-- ===== src/Model/Whole.antt =====
-- A platform of whole numbers, by which the tests run: a `double` is its own value.
use mini_gateway.Prelude.{◌+◌, ◌*◌, ◌/◌, true, none, ltb, ◌==◌}
use mini_gateway.Prelude.Int.{pos, pos_part}
use mini_gateway.Model.Std.{Platform}

abbrev pub whole : Platform
whole = record {
  zero = 0;
  one = 1;
  add = λ a b. a + b;
  mul = λ a b. a * b;
  div = λ a b. a / b;
  sqrt = λ a. a;
  less = ltb;
  equal = λ a b. a == b;
  is_finite = λ a. true;
  of_int64 = pos_part;
  of_size = λ n. n;
  llround = pos;
  from_chars = λ s. none;
  to_string = λ i. "7";
  to_fixed = λ a. "7.000";
}
