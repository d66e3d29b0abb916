-- ===== src/Mem/Mask.antt =====
-- crates/core/src/mem/mask.rs, and the conversions between `Align` and `Mask` of align.rs.
pub mod Values
pub mod Holes
pub mod Inverse
pub mod RoundUp
use Prim.Native.Nat.{bit_and, bit_xor}
use gulf.Prelude.{ℕ, ◌-◌, ◌≡◌, Bool, true, false, Option, none, some, ◌==◌, Ordering, if◌then◌else◌}
use gulf.Word.{is_power_of_two, trailing_zeros, complement, max_value, wrapping_add}
use gulf.Outcome.{Outcome, returns, panics, ◌>>=◌, ◌>>◌, assert, unwrap}
use gulf.Checked.{
  strict_add, strict_sub, strict_shl, unchecked_add, is_multiple_of, nonzero, nonzero_unchecked,
}
use gulf.Hint.{Build, bits, assert_unchecked, unreachable_unchecked}
use gulf.Mem.Repr.{
  MaskRepr, IsIndex, mask_discriminant, mask_repr_min, mask_repr_max, transmute_index,
}
use gulf.Mem.Private
use gulf.Mem.Align
use gulf.Mem.Align.{Align}

pub record Mask : Type 0 where
  pub repr : MaskRepr

abbrev pub IsMask : Build → Mask → Type 0
IsMask b m = IsIndex b m.repr.index

abbrev pub mask_min : Build → Mask
mask_min b = record { repr = mask_repr_min b }

abbrev pub mask_max : Mask
mask_max = record { repr = mask_repr_max }

unfoldable pub transmute : Build → ℕ → Outcome Mask
unfolding transmute_index
transmute b v = do
  i ← transmute_index b (mask_discriminant b) v
  returns (record { repr = record { index = i } })

-- The call of `new_unchecked` is a hint to the compiler: its value is dropped.
unfoldable pub from_nonzero : Build → ℕ → Outcome (Option Mask)
unfolding transmute Align.new_unchecked
from_nonzero b mask = do
  bit ← strict_shl (bits b) 1 (trailing_zeros (bits b) mask)
  trailing_zeros_mask ← strict_sub bit 1
  if bit_xor mask trailing_zeros_mask == max_value (bits b)
      then (do
        sum ← unchecked_add (bits b) (complement (bits b) mask) 1
        hint ← Align.new_unchecked b sum
        m ← transmute b mask
        returns (some m))
      else returns none

abbrev or_unreachable : Build → Option Mask → Outcome Mask
or_unreachable b none = unreachable_unchecked b
or_unreachable b (some m) = returns m

unfoldable pub from_nonzero_unchecked : Build → ℕ → Outcome Mask
unfolding from_nonzero unreachable_unchecked
from_nonzero_unchecked b mask = do found ← from_nonzero b mask; or_unreachable b found

abbrev of_nonzero : Build → Option ℕ → Outcome (Option Mask)
of_nonzero b none = returns none
of_nonzero b (some mask) = from_nonzero b mask

unfoldable pub new : Build → ℕ → Outcome (Option Mask)
unfolding from_nonzero
new b mask = of_nonzero b (nonzero mask)

unfoldable pub new_unchecked : Build → ℕ → Outcome Mask
unfolding new unreachable_unchecked
new_unchecked b mask = do found ← new b mask; or_unreachable b found

unfoldable pub from_align : Build → Align → Outcome Mask
unfolding transmute Align.get
from_align b align = do
  value ← Align.get b align
  less ← strict_sub value 1
  transmute b (complement (bits b) less)

unfoldable pub get_nonzero : Build → Mask → Outcome ℕ
unfolding assert_unchecked
get_nonzero b m = do
  mask ← nonzero_unchecked (mask_discriminant b m.repr.index)
  sum ← unchecked_add (bits b) (complement (bits b) mask) 1
  assert_unchecked b (is_power_of_two (bits b) sum)
  returns mask

unfoldable pub get : Build → Mask → Outcome ℕ
unfolding get_nonzero
get b m = get_nonzero b m

unfoldable pub align : Build → Mask → Outcome Align
unfolding get Align.new
align b m = do
  mask ← get b m
  sum ← strict_add (bits b) (complement (bits b) mask) 1
  found ← Align.new b sum
  unwrap found

unfoldable pub compare : Build → Mask → Mask → Outcome Ordering
unfolding get
compare b m rhs = do x ← get b m; y ← get b rhs; Private.compare x y

unfoldable pub min : Build → Mask → Mask → Outcome Mask
unfolding get new_unchecked
min b m other = do x ← get b m; y ← get b other; least ← Private.min x y; new_unchecked b least

unfoldable pub max : Build → Mask → Mask → Outcome Mask
unfolding get new_unchecked
max b m other = do
  x ← get b m
  y ← get b other
  greatest ← Private.max x y
  new_unchecked b greatest

abbrev clamped : Build → Option ℕ → Outcome (Option Mask)
clamped b none = returns none
clamped b (some mask) = do m ← new_unchecked b mask; returns (some m)

unfoldable pub clamp : Build → Mask → Mask → Mask → Outcome (Option Mask)
unfolding get new_unchecked
clamp b m lo hi = do x ← get b m; l ← get b lo; h ← get b hi; clamped b (Private.clamp x l h)

-- `Align::mask` and `Align::from_mask`.
unfoldable pub mask_of_align : Build → Align → Outcome Mask
unfolding from_align
mask_of_align b a = from_align b a

unfoldable pub align_of_mask : Build → Mask → Outcome Align
unfolding align
align_of_mask b m = align b m

-- `From<Align> for Mask`.
unfoldable pub of_align : Build → Align → Outcome Mask
unfolding mask_of_align
of_align b a = mask_of_align b a

-- `Align::round_up_size`. Its result is a `NonZero`.
unfoldable pub round_up_size : Build → Align → ℕ → Outcome (Option ℕ)
unfolding Align.get mask_of_align get
round_up_size b a size = do
  value ← Align.get b a
  less ← strict_sub value 1
  mask ← mask_of_align b a
  mask_value ← get b mask
  let new_size = bit_and (wrapping_add (bits b) size less) mask_value
  assert (is_multiple_of new_size value)
  returns (nonzero new_size)
