-- ===== src/Mem/Align.antt =====
-- crates/core/src/mem/align.rs: `Align`, but for its conversions to and from `Mask`.
pub mod Values
pub mod Addr
pub mod Order
pub mod Unchecked
use gulf.Prelude.{ℕ, ◌-◌, ◌≡◌, Bool, true, false, Option, none, some, ◌==◌, Ordering, if◌then◌else◌}
use gulf.Word.{is_power_of_two, trailing_zeros}
use gulf.Outcome.{Outcome, returns, panics, ◌>>=◌, ◌>>◌, unwrap}
use gulf.Checked.{strict_sub, strict_shl, nonzero, nonzero_unchecked}
use gulf.Hint.{Build, bits, assert_unchecked}
use gulf.Mem.Repr.{
  AlignRepr, IsIndex, align_discriminant, align_repr_min, align_repr_max, transmute_index,
}
use gulf.Mem.Private

pub record Align : Type 0 where
  pub repr : AlignRepr

-- The variants that exist at the build's pointer width.
abbrev pub IsAlign : Build → Align → Type 0
IsAlign b a = IsIndex b a.repr.index

abbrev pub align_min : Align
align_min = record { repr = align_repr_min }

abbrev pub align_max : Build → Align
align_max b = record { repr = align_repr_max b }

-- `mem::transmute` of a `usize` or a `NonZero<usize>`.
unfoldable pub transmute : Build → ℕ → Outcome Align
unfolding transmute_index
transmute b v = do
  i ← transmute_index b (align_discriminant b) v
  returns (record { repr = record { index = i } })

-- `align` is `Option::map` over a result that may be undefined.
unfoldable pub from_nonzero : Build → ℕ → Outcome (Option Align)
unfolding transmute
from_nonzero b align =
    if is_power_of_two (bits b) align
    then (do a ← transmute b align; returns (some a))
    else returns none

unfoldable pub from_nonzero_unchecked : Build → ℕ → Outcome Align
unfolding transmute
from_nonzero_unchecked b align = do
  assert_unchecked b (is_power_of_two (bits b) align)
  transmute b align

unfoldable pub new : Build → ℕ → Outcome (Option Align)
unfolding transmute
new b align =
    if is_power_of_two (bits b) align
    then (do a ← transmute b align; returns (some a))
    else returns none

unfoldable pub new_unchecked : Build → ℕ → Outcome Align
unfolding transmute
new_unchecked b align = do assert_unchecked b (is_power_of_two (bits b) align); transmute b align

unfoldable pub get_nonzero : Build → Align → Outcome ℕ
get_nonzero b a = do
  align ← nonzero_unchecked (align_discriminant b a.repr.index)
  assert_unchecked b (is_power_of_two (bits b) align)
  returns align

unfoldable pub get : Build → Align → Outcome ℕ
unfolding get_nonzero
get b a = get_nonzero b a

unfoldable pub log2 : Build → Align → Outcome ℕ
unfolding get_nonzero
log2 b a = do align ← get_nonzero b a; returns (trailing_zeros (bits b) align)

unfoldable pub from_addr_nonzero : Build → ℕ → Outcome Align
unfolding new
from_addr_nonzero b addr = do
  align ← strict_shl (bits b) 1 (trailing_zeros (bits b) addr)
  found ← new b align
  unwrap found

abbrev align_of_address : Build → Option ℕ → Outcome (Option Align)
align_of_address b none = returns none
align_of_address b (some addr) = do a ← from_addr_nonzero b addr; returns (some a)

unfoldable pub from_addr : Build → ℕ → Outcome (Option Align)
unfolding from_addr_nonzero
from_addr b addr = align_of_address b (nonzero addr)

unfoldable pub max_size : Build → Align → Outcome ℕ
unfolding get
max_size b a = do largest ← get b (align_max b); align ← get b a; strict_sub largest align

unfoldable pub compare : Build → Align → Align → Outcome Ordering
unfolding get
compare b a rhs = do x ← get b a; y ← get b rhs; Private.compare x y

unfoldable pub min : Build → Align → Align → Outcome Align
unfolding get new_unchecked
min b a other = do x ← get b a; y ← get b other; least ← Private.min x y; new_unchecked b least

unfoldable pub max : Build → Align → Align → Outcome Align
unfolding get new_unchecked
max b a other = do
  x ← get b a
  y ← get b other
  greatest ← Private.max x y
  new_unchecked b greatest

abbrev clamped : Build → Option ℕ → Outcome (Option Align)
clamped b none = returns none
clamped b (some align) = do a ← new_unchecked b align; returns (some a)

unfoldable pub clamp : Build → Align → Align → Align → Outcome (Option Align)
unfolding get new_unchecked
clamp b a lo hi = do x ← get b a; l ← get b lo; h ← get b hi; clamped b (Private.clamp x l h)

-- `Ord::clamp`, which panics where `max < min`.
unfoldable pub ord_clamp : Build → Align → Align → Align → Outcome Align
unfolding clamp
ord_clamp b a lo hi = do r ← clamp b a lo hi; unwrap r
