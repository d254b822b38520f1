-- ===== src/Prelude/Word.antt =====
-- `std::uint64_t` counters: the wrapping `++`, and the saturating addition that scheduler.cpp and
-- control.cpp each define.
use Prim.Native.Nat.{ℕ, ◌+◌, ◌-◌, ◌%◌, ◌^◌, ◌≤◌, min}
use mathlib.Core.Path.{◌≡◌}
use native.Mathlib.Omega.{arith}
use mini_gateway.Prelude.Tests.{ltb, if◌then◌else◌}

abbrev pub u64_mod : ℕ
u64_mod = 2 ^ 64

abbrev pub u64_max : ℕ
u64_max = 2 ^ 64 - 1

-- `++counter`
abbrev pub increment : ℕ → ℕ
increment n = (n + 1) % u64_mod

-- `saturating_add(target, value)`
unfoldable pub saturating_add : ℕ → ℕ → ℕ
saturating_add target value = if ltb (u64_max - target) value then u64_max else target + value

-- On 64-bit values the saturating sum is the exact sum, cut at the largest value.
pub saturating_add_lem : (a b : ℕ) → a ≤ u64_max → saturating_add a b ≡ min (a + b) u64_max
unfolding saturating_add
saturating_add_lem a b h = ground arith
