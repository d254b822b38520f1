-- ===== src/Prelude/Errors.antt =====
-- C++ exceptions as values: the exception class with its message, and the result of a call that
-- may throw.
use Prim.Native.String.{String}
use mathlib.Core.Path.{◌≡◌, refl}
use mathlib.Core.Bool.{Bool, true, false}

-- `foreign` is a thrown object that is no `std::exception`.
pub data Error : Type 0 where
  invalid_argument logic_error runtime_error out_of_range : String → Error
  foreign : Error

-- `error.what()` of a `std::exception`
abbrev pub what : Error → String
what (invalid_argument message) = message
what (logic_error message) = message
what (runtime_error message) = message
what (out_of_range message) = message
what foreign = ""

pub data Result {ℓ} (A : Type ℓ) : Type ℓ where
  ok : A → Result A
  err : Error → Result A

-- A throw passes over what follows.
infixl 6 ◌>>=◌
abbrev pub ◌>>=◌ {ℓ κ} :
    {Before : Type ℓ} {After : Type κ} → Result Before → (Before → Result After) → Result After
◌>>=◌ call continue = elim call [ ok value ↦ continue value | err thrown ↦ err thrown ]

-- `if (test) throw error;`
abbrev pub throw_if : Bool → Error → Result (Unit {0})
throw_if true e = err e
throw_if false e = ok tt

-- Statements without a value, in sequence.
infixl 6 ◌>>◌
abbrev pub ◌>>◌ {ℓ} : {After : Type ℓ} → Result (Unit {0}) → Result After → Result After
call >> rest = call >>= λ done. rest

-- A sequence that returns has returned at each step.
pub >>=_returns {ℓ κ} :
    {Before : Type ℓ} {After : Type κ} {result : After} (call : Result Before)
    (continue : Before → Result After)
    → (call >>= continue) ≡ ok result
    → (middle : Before) × (continue middle ≡ ok result) × (call ≡ ok middle)
>>=_returns (err thrown) continue h = cc
>>=_returns (ok middle) continue h = (middle, h, refl)

pub throw_if-eq-ok {ℓ} :
    {B : Type ℓ} (t : Bool) (e : Error) (k : Result B) {b : B}
    → (throw_if t e >> k) ≡ ok b
    → (t ≡ false) × (k ≡ ok b)
throw_if-eq-ok true e k h = cc
throw_if-eq-ok false e k h = (refl, h)

pub ok_injective {ℓ} : {A : Type ℓ} {a b : A} → ok a ≡ ok b → a ≡ b
ok_injective h = cc
