-- ===== src/Num/Errors.antt =====
-- crates/core/src/num.rs, and the error type of num/pow2.rs. `TryFromIntError` is a parameter, with its size.
use Prim.Native.String.{String}
use gulf.Prelude.{ℕ, ◌≡◌, refl, Bool, Option, none, some, if◌then◌else◌, ◌==◌}
use gulf.Outcome.{Outcome, returns, ◌>>=◌, Result, ok, err, unwrap}

-- `NotPowerOfTwo`.
pub data NotPowerOfTwo : Type 0 where
  not_power_of_two : NotPowerOfTwo

unfoldable pub from_infallible : ⊥ → NotPowerOfTwo
from_infallible value = absurd value

-- `Error::description`.
unfoldable pub description : NotPowerOfTwo → String
description not_power_of_two = "provided value was not a power of two"

-- `Display`, over the formatter's `write_str`; the text is written out a second time.
unfoldable pub display : {S : Type 0} → (String → S → Bool × S) → NotPowerOfTwo → S → Bool × S
display write_str e s = write_str "provided value was not a power of two" s

-- `Result::err`.
abbrev err_of {ℓ κ} : {A : Type ℓ} {E : Type κ} → Result A E → Option E
err_of (ok a) = none
err_of (err e) = some e

-- `try_from_int_error`, with what `NonZero::try_from` answers and the size of its error.
unfoldable pub try_from_int_error : {E : Type 0} → (ℕ → Result ℕ E) → ℕ → Outcome (Result E E)
try_from_int_error try_from size = do
  error ← unwrap (err_of (try_from 0))
  returns (if size == 0 then ok error else err error)

-- Where the number zero is refused, as `NonZero` documents, `try_from_int_error` gives the error of that, marked
-- good exactly where errors have no size; it does not panic.
pub try_from_int_error_lem :
    {E : Type 0} (try_from : ℕ → Result ℕ E) (size : ℕ) {error : E}
    → try_from 0 ≡ err error
    → try_from_int_error try_from size ≡ returns (if size == 0 then ok error else err error)
unfolding try_from_int_error
try_from_int_error_lem try_from size e = rw e refl

-- The text that is displayed is the description.
pub display-description :
    {S : Type 0} (write_str : String → S → Bool × S) (e : NotPowerOfTwo) (s : S)
    → display write_str e s ≡ write_str (description e) s
unfolding display description
display-description write_str not_power_of_two s = refl
