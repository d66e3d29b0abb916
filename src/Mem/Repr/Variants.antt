-- ===== src/Mem/Repr/Variants.antt =====
-- The discriminants of the two enums of layout_private.rs, and `mem::transmute` of one of them.
use native.Mathlib.Decide.{ℕ_discrete}
use gulf.Prelude.{
  ℕ, zero, suc, ◌-◌, ◌^◌, ◌<◌, ◌≡◌, sym, ap, ◌∙◌, some, arith, two_pow_lt, two_pow-injective,
  one-le-two_pow,
}
use gulf.Outcome.{returns}
use gulf.Hint.{Build, bits}
use gulf.Mem.Repr.{
  IsIndex, align_discriminant, mask_discriminant, find_variant, known_variant, transmute_index,
}

pub align_discriminant_lem : (b : Build) (i : ℕ) → IsIndex b i → align_discriminant b i ≡ 2 ^ i
align_discriminant_lem b i h = grind (arith, two_pow_lt i (bits b) h)

pub mask_discriminant_lem :
    (b : Build) (i : ℕ) → IsIndex b i → mask_discriminant b i ≡ 2 ^ bits b - 2 ^ i
mask_discriminant_lem b i h =
    omega (arith, align_discriminant_lem b i h, one-le-two_pow i, two_pow_lt i (bits b) h)

find_variant_lem :
    (d : ℕ → ℕ) (n i : ℕ)
    → i < n
    → ((j : ℕ) → j < n → d j ≡ d i → j ≡ i)
    → find_variant d n (d i) ≡ some i
unfolding find_variant
find_variant_lem d zero i h inj = absurd (omega arith)
find_variant_lem d (suc n) i h inj = elim (ℕ_discrete i n) [
  | yes e ↦ rw e (ground arith)
  | no ne ↦ ground (
    arith,
    inj n (omega arith),
    find_variant_lem d n i (omega arith) (λ j hj. inj j (omega arith)),
  )
]

-- A discriminant is read back as its own variant, where no two variants share one.
module _ (b : Build) (d : ℕ → ℕ) (i : ℕ) (h : IsIndex b i) where
  transmute_index_lem :
      ((j : ℕ) → IsIndex b j → d j ≡ d i → j ≡ i) → transmute_index b d (d i) ≡ returns i
  unfolding transmute_index
  transmute_index_lem inj = ap known_variant (find_variant_lem d (bits b) i h inj)

pub transmute_index-align :
    (b : Build) (i : ℕ) → IsIndex b i → transmute_index b (align_discriminant b) (2 ^ i) ≡ returns i
transmute_index-align b i h = rw (← align_discriminant_lem b i h) (
    transmute_index_lem b (align_discriminant b) i h λ j hj e.
      two_pow-injective j i
        (sym (align_discriminant_lem b j hj) ∙ e ∙ align_discriminant_lem b i h))

pub transmute_index-mask :
    (b : Build) (i : ℕ)
    → IsIndex b i
    → transmute_index b (mask_discriminant b) (2 ^ bits b - 2 ^ i) ≡ returns i
transmute_index-mask b i h = rw (← mask_discriminant_lem b i h) (
    transmute_index_lem b (mask_discriminant b) i h λ j hj e. two_pow-injective j i (
      omega (
        arith,
        sym (mask_discriminant_lem b j hj) ∙ e ∙ mask_discriminant_lem b i h,
        two_pow_lt i (bits b) h,
        two_pow_lt j (bits b) hj,
      )))
