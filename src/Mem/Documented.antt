-- ===== src/Mem/Documented.antt =====
-- crates/core/src/mem/layout_private.rs, align.rs and mask.rs: the constants that the documentation of
-- `Align` and `Mask` names for each pointer width, and the assertions on them at compile time.
use gulf.Prelude.{ℕ, ◌≡◌, refl, Bool, not, ◌&&◌, ◌==◌}
use gulf.Word.{leading_ones, trailing_zeros, count_ones}
use gulf.Outcome.{Outcome, returns, ◌>>=◌, ◌>>◌, assert}
use gulf.Checked.{strict_add}
use gulf.Hint.{Build, PointerWidth, width16, width32, width64, width_bits, bits, assert_unchecked}
use gulf.Mem.Repr.{align_discriminant, mask_discriminant}
use gulf.Mem.Private.{has_hole}
use gulf.Mem.Align.{Align, align_min, align_max}
use gulf.Mem.Mask.{Mask, mask_min, mask_max, mask_of_align}
use gulf.Mem.Layout.{isize_max}

-- What `get!` answers.
pub record Constants : Type 0 where
  pub least_align : ℕ
  pub greatest_align : ℕ
  pub least_mask : ℕ
  pub greatest_mask : ℕ
  pub without_hole : ℕ
  pub with_hole : ℕ

unfoldable pub constants : PointerWidth → Constants
constants width16 = record {
  least_align = 0x0001;
  greatest_align = 0x8000;
  least_mask = 0x8000;
  greatest_mask = 0xFFFF;
  without_hole = 0xFFF0;
  with_hole = 0xF0F0;
}
constants width32 = record {
  least_align = 0x0000_0001;
  greatest_align = 0x8000_0000;
  least_mask = 0x8000_0000;
  greatest_mask = 0xFFFF_FFFF;
  without_hole = 0xFFFF_0000;
  with_hole = 0xFF0F_0000;
}
constants width64 = record {
  least_align = 0x0000_0000_0000_0001;
  greatest_align = 0x8000_0000_0000_0000;
  least_mask = 0x8000_0000_0000_0000;
  greatest_mask = 0xFFFF_FFFF_FFFF_FFFF;
  without_hole = 0xFFFF_FFFF_0000_0000;
  with_hole = 0xFFFF_FF0F_0000_0000;
}

-- `repr as usize`.
abbrev align_bits : Build → Align → ℕ
align_bits b a = align_discriminant b a.repr.index

abbrev mask_bits : Build → Mask → ℕ
mask_bits b m = mask_discriminant b m.repr.index

-- The assertions of align.rs on `Align::MIN` and `Align::MAX`.
unfoldable pub align_assertions : Build → Outcome (Unit {0})
unfolding constants
align_assertions b = do
  assert (align_bits b align_min == (constants b.pointer_width).least_align)
  assert (align_bits b (align_max b) == (constants b.pointer_width).greatest_align)
  assert (align_bits b align_min == 1)
  largest ← strict_add (bits b) (isize_max b) 1
  assert (align_bits b (align_max b) == largest)

-- The assertions of mask.rs on `Mask::MIN`, `Mask::MAX` and the examples of masks.
unfoldable pub mask_assertions : Build → Outcome (Unit {0})
unfolding constants mask_of_align has_hole
mask_assertions b = do
  least ← mask_of_align b (align_max b)
  assert (
      mask_bits b (mask_min b) == (constants b.pointer_width).least_mask
      && (mask_bits b (mask_min b) == mask_bits b least))
  greatest ← mask_of_align b align_min
  assert (
      mask_bits b mask_max == (constants b.pointer_width).greatest_mask
      && (mask_bits b mask_max == mask_bits b greatest))
  hole ← has_hole b (constants b.pointer_width).without_hole
  assert (not hole)
  hole ← has_hole b (constants b.pointer_width).with_hole
  assert hole

hold :
    (p : PointerWidth) (debug_assertions miri : Bool)
    → (align_assertions
          (record { pointer_width = p; debug_assertions = debug_assertions; miri = miri })
        ≡ returns tt)
      × (mask_assertions
            (record { pointer_width = p; debug_assertions = debug_assertions; miri = miri })
          ≡ returns tt)
unfolding align_assertions mask_assertions constants mask_of_align has_hole width_bits leading_ones
    trailing_zeros count_ones assert_unchecked
hold width16 d m = (refl, refl)
hold width32 d m = (refl, refl)
hold width64 d m = (refl, refl)

-- For each of the three pointer widths, the assertions that align.rs and mask.rs make at compile time hold:
-- the documented bounds are those of alignments and masks, the greatest alignment is `isize::MAX + 1`, and
-- the documented examples have a hole and have none.
pub assertions-hold :
    (b : Build) → (align_assertions b ≡ returns tt) × (mask_assertions b ≡ returns tt)
assertions-hold b = hold b.pointer_width b.debug_assertions b.miri
