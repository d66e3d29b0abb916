-- ===== src/Mem/Layout.antt =====
-- Sizes against alignments: `max_size`, `layout_with_size` and `from_layout` of align.rs, with
-- `core::alloc::Layout`, whose constructor checks that the size, rounded up to the alignment, is at
-- most `isize::MAX`.
use native.Mathlib.Decide.{dec_lt}
use gulf.Prelude.{
  ℕ, ◌+◌, ◌-◌, ◌^◌, ◌≤◌, ◌<◌, ◌≡◌, refl, ◌⊎◌, inl, inr, ◌&&◌, leb, if◌then◌else◌, arith, two_pow_le,
  one-le-two_pow,
}
use gulf.Word.{is_power_of_two}
use gulf.Outcome.{Outcome, returns, Result, ok, err, ◌>>=◌}
use gulf.Checked.{strict_sub-fits}
use gulf.Hint.{Build, bits, bits_large}
use gulf.Mem.Align.{Align, IsAlign, align_max, get, max_size, new_unchecked}
use gulf.Mem.Align.Values.{get_lem, is_power_of_two-true, new_unchecked-two_pow}

-- `core::alloc::Layout` and `LayoutError`.
pub record Layout : Type 0 where
  pub size : ℕ
  pub align : ℕ

pub data LayoutError : Type 0 where
  layout_error : LayoutError

-- `isize::MAX`.
abbrev pub isize_max : Build → ℕ
isize_max b = 2 ^ (bits b - 1) - 1

-- `Layout::from_size_align`, by its documentation.
abbrev pub from_size_align : Build → ℕ → ℕ → Result Layout LayoutError
from_size_align b size align =
    if is_power_of_two (bits b) align && leb size (isize_max b + 1 - align)
    then ok (record { size = size; align = align })
    else err layout_error

unfoldable pub layout_with_size : Build → Align → ℕ → Outcome (Result Layout LayoutError)
unfolding get
layout_with_size b a size = do align ← get b a; returns (from_size_align b size align)

unfoldable pub from_layout : Build → Layout → Outcome Align
unfolding new_unchecked
from_layout b l = new_unchecked b l.align

half_lt : (b : Build) → IsAlign b (align_max b)
half_lt b = omega (arith, bits_large b)

-- `max_size` never underflows: it is `2^(w-1)` less the alignment, at a width of `w` bits.
pub max_size_lem :
    (b : Build) (a : Align)
    → IsAlign b a
    → max_size b a ≡ returns (2 ^ (bits b - 1) - 2 ^ a.repr.index)
unfolding max_size
max_size_lem b a h = rw (
  get_lem b (align_max b) (half_lt b),
  get_lem b a h,
  strict_sub-fits (2 ^ (bits b - 1)) (2 ^ a.repr.index)
      (two_pow_le a.repr.index (bits b - 1) (omega arith)),
)

-- `max_size` is the largest size that a layout of the alignment may have: `layout_with_size`
-- succeeds on exactly the sizes up to it, and the layout then has the size asked for and gives the
-- alignment back.
pub layout_with_size-max_size :
    (b : Build) (a : Align) (size : ℕ)
    → IsAlign b a
    → (m : ℕ) × (max_size b a ≡ returns m)
      × (((l : Layout) × (size ≤ m)
            × (layout_with_size b a size ≡ returns (ok l))
            × (l.size ≡ size)
            × (from_layout b l ≡ returns a))
          ⊎ ((m < size) × (layout_with_size b a size ≡ returns (err layout_error))))
unfolding layout_with_size from_layout
layout_with_size-max_size b a size h =
    let i = a.repr.index in
    let m = 2 ^ (bits b - 1) - 2 ^ i in
    let one = is_power_of_two-true b i h in
    let half = one-le-two_pow (bits b - 1) in
    let test : isize_max b + 1 - 2 ^ i ≡ m = omega arith in
    (
      m,
      max_size_lem b a h,
      elim (dec_lt m size) [
        | yes over ↦ inr (over, rw (get_lem b a h, one) (ground arith))
        | no fits ↦ inl (
          record { size = size; align = 2 ^ i },
          omega arith,
          rw (get_lem b a h, one) (ground arith),
          refl,
          new_unchecked-two_pow b i h,
        )
      ],
    )
