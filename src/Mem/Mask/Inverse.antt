-- ===== src/Mem/Mask/Inverse.antt =====
-- `Align` and `Mask` stand for one another.
use Prim.Native.Nat.{compare as number_compare}
use gulf.Prelude.{ℕ, ◌-◌, ◌^◌, ◌≤◌, ◌≡◌, ap, arith, two_pow_lt, one-le-two_pow}
use gulf.Outcome.{returns, ◌>>=◌}
use gulf.Checked.{strict_sub-fits, strict_add}
use gulf.Word.{complement}
use gulf.Hint.{Build, bits}
use gulf.Mem.Private.Order.{compare_lem}
use gulf.Mem.Repr.{IsIndex}
use gulf.Mem.Align
use gulf.Mem.Align.{Align, IsAlign}
use gulf.Mem.Align.Values
use gulf.Mem.Align.Values.{align_at, new-two_pow}
use gulf.Mem.Mask.{Mask, IsMask, mask_of_align, align_of_mask, compare}
use gulf.Mem.Mask.Values.{mask_at, high, transmute-high, get_lem}

complement-align : (b : Build) (i : ℕ) → IsIndex b i → complement (bits b) (2 ^ i - 1) ≡ high b i
complement-align b i h = omega (arith, one-le-two_pow i, two_pow_lt i (bits b) h)

strict_add-high :
    (b : Build) (i : ℕ)
    → IsIndex b i
    → strict_add (bits b) (complement (bits b) (high b i)) 1 ≡ returns (2 ^ i)
strict_add-high b i h =
    let e : complement (bits b) (high b i) ≡ 2 ^ i - 1 =
      omega (arith, one-le-two_pow i, two_pow_lt i (bits b) h) in
    ground (arith, e, one-le-two_pow i, two_pow_lt i (bits b) h)

-- The mask of an alignment is the variant of the same index.
pub mask_of_align-index :
    (b : Build) (a : Align) → IsAlign b a → mask_of_align b a ≡ returns (mask_at a.repr.index)
unfolding mask_of_align
mask_of_align-index b a h =
    let i = a.repr.index in
    rw (
      Values.get_lem b a h,
      strict_sub-fits (2 ^ i) 1 (one-le-two_pow i),
      complement-align b i h,
      transmute-high b i h,
    )

align_of_mask-index :
    (b : Build) (m : Mask) → IsMask b m → align_of_mask b m ≡ returns (align_at m.repr.index)
unfolding align_of_mask
align_of_mask-index b m h =
    let i = m.repr.index in rw (get_lem b m h, strict_add-high b i h, new-two_pow b i h)

-- The mask of every alignment converts back to that alignment.
pub align_of_mask-mask_of_align :
    (b : Build) (a : Align) → IsAlign b a → (mask_of_align b a >>= align_of_mask b) ≡ returns a
align_of_mask-mask_of_align b a h =
    rw (mask_of_align-index b a h) (align_of_mask-index b (mask_at a.repr.index) h)

-- The alignment of every mask converts back to that mask.
pub mask_of_align-align_of_mask :
    (b : Build) (m : Mask) → IsMask b m → (align_of_mask b m >>= mask_of_align b) ≡ returns m
mask_of_align-align_of_mask b m h =
    rw (align_of_mask-index b m h) (mask_of_align-index b (align_at m.repr.index) h)

-- Complementing reverses the order.
number_compare-high :
    (w x y : ℕ) → x ≤ w → y ≤ w → number_compare (w - x) (w - y) ≡ number_compare y x
number_compare-high w x y hx hy = ground arith

-- Masks are ordered against their alignments: the masks of two alignments compare as the alignments do
-- in the opposite order.
pub compare-mask :
    (b : Build) (a c : Align)
    → IsAlign b a
    → IsAlign b c
    → (do m ← mask_of_align b a; n ← mask_of_align b c; compare b m n) ≡ Align.compare b c a
unfolding compare Align.compare
compare-mask b a c ha hc =
    rw
      (
        mask_of_align-index b a ha,
        mask_of_align-index b c hc,
        get_lem b (mask_at a.repr.index) ha,
        get_lem b (mask_at c.repr.index) hc,
        Values.get_lem b a ha,
        Values.get_lem b c hc,
        compare_lem (high b a.repr.index) (high b c.repr.index),
        compare_lem (2 ^ c.repr.index) (2 ^ a.repr.index),
      )
      (ap returns (
        number_compare-high (2 ^ bits b) (2 ^ a.repr.index) (2 ^ c.repr.index)
          (omega (arith, two_pow_lt a.repr.index (bits b) ha))
          (omega (arith, two_pow_lt c.repr.index (bits b) hc))))

-- Masks and alignments convert to each other and back: the mask of every alignment converts back to it and
-- the alignment of every mask to that, and the masks of two alignments compare as the alignments do the
-- other way round.
pub masks-Invert :
    (b : Build) (a c : Align) (m : Mask)
    → IsAlign b a
    → IsAlign b c
    → IsMask b m
    → ((mask_of_align b a >>= align_of_mask b) ≡ returns a)
      × ((align_of_mask b m >>= mask_of_align b) ≡ returns m)
      × ((do n ← mask_of_align b a; k ← mask_of_align b c; compare b n k) ≡ Align.compare b c a)
masks-Invert b a c m ha hc hm = (
  align_of_mask-mask_of_align b a ha,
  mask_of_align-align_of_mask b m hm,
  compare-mask b a c ha hc,
)
