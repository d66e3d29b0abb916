-- ===== src/Num/PowerOfTwo.antt =====
-- crates/core/src/num/pow2.rs: powers of two that fit a `u128`, held by their exponents. The enum
-- `Exponent` has the variants `_00` to `_7F`, whose discriminants are their indices.
pub mod Exponents
pub mod Arithmetic
pub mod Hashing
use Prim.Native.Nat.{compare as number_compare}
use gulf.Prelude.{ℕ, ◌<◌, Bool, true, false, Option, none, some, ltb, leb, Ordering, if◌then◌else◌}
use gulf.Outcome.{Outcome, returns, undefined, Result, ok, err, ◌>>=◌, ◌>>◌}
use gulf.Checked.{strict_add, checked_sub}
use gulf.Hint.{Build, assert_unchecked, unreachable_unchecked}

pub record Exponent : Type 0 where
  pub index : ℕ

pub record PowerOfTwo : Type 0 where
  pub exponent : Exponent

-- `u128::BITS`, which the assertions below `Exponent` compare its variants with.
abbrev pub variants : ℕ
variants = 128

abbrev pub IsPower : PowerOfTwo → Type 0
IsPower p = p.exponent.index < variants

abbrev pub min_power : PowerOfTwo
min_power = record { exponent = record { index = 0 } }

abbrev pub max_power : PowerOfTwo
max_power = record { exponent = record { index = 127 } }

-- `mem::transmute` of a `u8`.
unfoldable pub transmute : ℕ → Outcome PowerOfTwo
transmute e =
    if ltb e variants then returns (record { exponent = record { index = e } }) else undefined

unfoldable pub from_exponent : ℕ → Outcome (Option PowerOfTwo)
unfolding transmute
from_exponent exponent =
    if leb min_power.exponent.index exponent
    then (if leb exponent max_power.exponent.index
        then (do p ← transmute exponent; returns (some p))
        else returns none)
    else returns none

abbrev or_unreachable : Build → Option PowerOfTwo → Outcome PowerOfTwo
or_unreachable b none = unreachable_unchecked b
or_unreachable b (some p) = returns p

unfoldable pub from_exponent_unchecked : Build → ℕ → Outcome PowerOfTwo
unfolding from_exponent unreachable_unchecked
from_exponent_unchecked b exponent = do found ← from_exponent exponent; or_unreachable b found

abbrev pub is_some : Option PowerOfTwo → Bool
is_some none = false
is_some (some p) = true

unfoldable pub to_exponent : Build → PowerOfTwo → Outcome ℕ
unfolding from_exponent assert_unchecked
to_exponent b p = do
  found ← from_exponent p.exponent.index
  assert_unchecked b (is_some found)
  returns p.exponent.index

unfoldable pub checked_mul : Build → PowerOfTwo → PowerOfTwo → Outcome (Option PowerOfTwo)
unfolding to_exponent from_exponent
checked_mul b p rhs = do
  x ← to_exponent b p
  y ← to_exponent b rhs
  exponent ← strict_add 8 x y
  from_exponent exponent

abbrev of_difference : Option ℕ → Outcome (Option PowerOfTwo)
of_difference none = returns none
of_difference (some exponent) = from_exponent exponent

unfoldable pub checked_div : Build → PowerOfTwo → PowerOfTwo → Outcome (Option PowerOfTwo)
unfolding to_exponent from_exponent
checked_div b p rhs = do x ← to_exponent b p; y ← to_exponent b rhs; of_difference (checked_sub x y)

-- `Ord::cmp`.
unfoldable pub cmp : Build → PowerOfTwo → PowerOfTwo → Outcome Ordering
unfolding to_exponent
cmp b p other = do x ← to_exponent b p; y ← to_exponent b other; returns (number_compare x y)

unfoldable pub partial_cmp : Build → PowerOfTwo → PowerOfTwo → Outcome (Option Ordering)
unfolding cmp
partial_cmp b p other = do order ← cmp b p other; returns (some order)

-- `Default`.
abbrev pub default : PowerOfTwo
default = min_power
