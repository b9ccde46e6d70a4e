-- ===== src/Base/Result.antt =====
-- What a call of the code gives back: a value, or the exception that it throws. `undefined` stands
-- for an access out of bounds, which C++ leaves without a meaning.
use mathlib.Core.Bool.{Bool, true, false}
use mathlib.Core.Option.{Option, none, some}

pub data Error : Type 0 where
  out_of_range invalid_argument logic_error undefined : Error
  unsupported_version unexpected_header_size insufficient_data : Error
  invalid_magic header_crc_mismatch unknown_message_type : Error

pub data Result {ℓ} (Value : Type ℓ) : Type ℓ where
  err : Error → Result Value
  ok : Value → Result Value

-- A pointer or an optional that the code checks before it goes on.
abbrev pub or_throw {ℓ} : {Value : Type ℓ} → Option Value → Error → Result Value
or_throw (some value) _ = ok value
or_throw none thrown = err thrown

-- `if (!test) throw thrown;`
abbrev pub guard : Bool → Error → Result (Unit {0})
guard false thrown = err thrown
guard true _ = ok tt

-- The statements after a call run only if it has not thrown.
infixl 5 ◌>>=◌ ◌>>◌
abbrev pub ◌>>=◌ {ℓ ℓ'} :
    {Value : Type ℓ} {After : Type ℓ'} → Result Value → (Value → Result After) → Result After
err thrown >>= after = err thrown
ok value >>= after = after value

abbrev pub ◌>>◌ {ℓ} : {After : Type ℓ} → Result (Unit {0}) → Result After → Result After
err thrown >> after = err thrown
ok _ >> after = after
