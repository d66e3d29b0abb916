-- ===== src/Mem/Mask/Values.antt =====
-- Which words `Mask` accepts, and that it gives them back.
use Prim.Native.Nat.{bit_xor}
use gulf.Prelude.{
  ℕ, zero, suc, ◌+◌, ◌-◌, ◌*◌, ◌^◌, ◌<◌, ◌≡◌, ◌≢◌, refl, sym, ap, ◌∙◌, ◌⊎◌, inl, inr, Bool, true,
  false, Option, some, none, arith, two_pow_lt, two_pow-suc, one-le-two_pow, Bool-cases, ◌==◌,
  ==_iff,
}
use gulf.Word.{
  max_value, complement, trailing_zeros, trailing_zeros-odd, odd_part, bit_xor-ones,
  bit_xor-complement,
}
use gulf.Outcome.{Outcome, returns}
use gulf.Checked.{
  nonzero-pos, nonzero_unchecked-pos, strict_shl-one, strict_sub-fits, unchecked_add,
}
use gulf.Hint.{Build, bits, assert_unchecked-true}
use gulf.Mem.Repr.{IsIndex}
use gulf.Mem.Repr.Variants.{mask_discriminant_lem, transmute_index-mask}
use gulf.Mem.Align.Values.{new_unchecked-two_pow, is_power_of_two-true}
use gulf.Mem.Mask.{Mask, IsMask, transmute, from_nonzero, new, new_unchecked, get}

abbrev pub mask_at : ℕ → Mask
mask_at i = record { repr = record { index = i } }

-- The word with all bits set but the lowest `i`.
abbrev pub high : Build → ℕ → ℕ
high b i = 2 ^ bits b - 2 ^ i

pub transmute-high :
    (b : Build) (i : ℕ) → IsIndex b i → transmute b (high b i) ≡ returns (mask_at i)
unfolding transmute
transmute-high b i h = rw (transmute_index-mask b i h)

high_odd : (w i : ℕ) → i < w → (m : ℕ) × (2 ^ w - 2 ^ i ≡ 2 ^ i * (2 * m + 1))
high_odd zero i h = absurd (omega arith)
high_odd (suc w) zero h = (2 ^ w - 1, omega (arith, two_pow-suc w, one-le-two_pow w))
high_odd (suc w) (suc i) h =
    let (m, e) = high_odd w i (omega arith) in
    (
      m,
      omega
          (arith, e, two_pow-suc w, two_pow-suc i, ap (λ (t : ℕ). t * (2 * m + 1)) (two_pow-suc i)),
    )

pub trailing_zeros-high : (b : Build) (i : ℕ) → IsIndex b i → trailing_zeros (bits b) (high b i) ≡ i
trailing_zeros-high b i h =
    let (m, e) = high_odd (bits b) i h in
    ap (trailing_zeros (bits b)) e ∙ trailing_zeros-odd (bits b) i m h

complement-high : (b : Build) (i : ℕ) → IsIndex b i → complement (bits b) (high b i) ≡ 2 ^ i - 1
complement-high b i h = omega (arith, one-le-two_pow i, two_pow_lt i (bits b) h)

-- `!mask + 1` fits, and is the alignment's value.
pub unchecked_add-high :
    (b : Build) (i : ℕ)
    → IsIndex b i
    → unchecked_add (bits b) (complement (bits b) (high b i)) 1 ≡ returns (2 ^ i)
unchecked_add-high b i h =
    ground (arith, complement-high b i h, one-le-two_pow i, two_pow_lt i (bits b) h)

-- The test of `from_nonzero`, on a word with `k` trailing zeros.
ones_test : Build → ℕ → ℕ → Bool
ones_test b k mask = bit_xor mask (2 ^ k - 1) == max_value (bits b)

ones_test-high : (b : Build) (i : ℕ) → IsIndex b i → ones_test b i (high b i) ≡ true
unfolding ones_test
ones_test-high b i h = (==_iff _ _).1 (
    bit_xor-complement (bits b) (high b i) (2 ^ i - 1)
      (omega (arith, one-le-two_pow i, two_pow_lt i (bits b) h)))

ones_test-true :
    (b : Build) (i mask : ℕ)
    → IsIndex b i
    → mask < 2 ^ bits b
    → ones_test b i mask ≡ true
    → mask ≡ high b i
unfolding ones_test
ones_test-true b i mask h hm t =
    let one = one-le-two_pow i in
    let lt = two_pow_lt i (bits b) h in
    let sum = bit_xor-ones (bits b) mask (2 ^ i - 1) hm (omega arith) ((==_iff _ _).0 t) in
    omega arith

from_nonzero-high :
    (b : Build) (i : ℕ) → IsIndex b i → from_nonzero b (high b i) ≡ returns (some (mask_at i))
unfolding from_nonzero
from_nonzero-high b i h =
    let test : (bit_xor (high b i) (2 ^ i - 1) == max_value (bits b)) ≡ true =
      unfold ones_test in ones_test-high b i h in
    rw (
      trailing_zeros-high b i h,
      strict_shl-one (bits b) i h,
      strict_sub-fits (2 ^ i) 1 (one-le-two_pow i),
      test,
      unchecked_add-high b i h,
      new_unchecked-two_pow b i h,
      transmute-high b i h,
    )

from_nonzero-none :
    (b : Build) (i mask : ℕ)
    → IsIndex b i
    → trailing_zeros (bits b) mask ≡ i
    → ones_test b i mask ≡ false
    → from_nonzero b mask ≡ returns none
unfolding from_nonzero ones_test
from_nonzero-none b i mask h tz f =
    rw (tz, strict_shl-one (bits b) i h, strict_sub-fits (2 ^ i) 1 (one-le-two_pow i), f)

pub get_lem : (b : Build) (m : Mask) → IsMask b m → get b m ≡ returns (high b m.repr.index)
unfolding get
get_lem b m h =
    let i = m.repr.index in
    rw (
      mask_discriminant_lem b i h,
      nonzero_unchecked-pos (high b i) (omega (arith, two_pow_lt i (bits b) h)),
      unchecked_add-high b i h,
      assert_unchecked-true b (is_power_of_two-true b i h),
    )

-- What a constructor makes of a word: a mask whose value is that word, where it is `!(align - 1)` of
-- some alignment, and nothing otherwise.
abbrev pub Masks : Build → ℕ → Outcome (Option Mask) → Type 0
Masks b n made =
    ((m : Mask) × IsMask b m
      × (made ≡ returns (some m))
      × (get b m ≡ returns n)
      × (n ≡ high b m.repr.index))
    ⊎ (((i : ℕ) → IsIndex b i → n ≢ high b i) × (made ≡ returns none))

from_nonzero-Masks : (b : Build) (n : ℕ) → 0 < n → n < 2 ^ bits b → Masks b n (from_nonzero b n)
from_nonzero-Masks b n pos h =
    let (k, odd, below, at) = odd_part (bits b) n pos h in
    let tz : trailing_zeros (bits b) n ≡ k =
      ap (trailing_zeros (bits b)) at ∙ trailing_zeros-odd (bits b) k odd below in
    elim (Bool-cases (ones_test b k n)) [
      | inl t ↦
          let e = ones_test-true b k n below h t in
          inl (
            mask_at k,
            below,
            ap (from_nonzero b) e ∙ from_nonzero-high b k below,
            get_lem b (mask_at k) below ∙ ap returns (sym e),
            e,
          )
      | inr f ↦ inr (
        (λ i hi e.
            let same : i ≡ k =
              sym (trailing_zeros-high b i hi) ∙ ap (trailing_zeros (bits b)) (sym e) ∙ tz in
            let t : ones_test b i n ≡ true = ap (ones_test b i) e ∙ ones_test-high b i hi in
            let t' : ones_test b k n ≡ true = rw same at t in cc),
        from_nonzero-none b k n below tz f,
      )
    ]

-- `Mask::new` accepts exactly the words `2^w - 2^i` with `i < w`, for every word of the build's width
-- `w`, and its result has that word as its value. It neither panics nor reaches undefined behaviour.
pub new-Masks : (b : Build) (n : ℕ) → n < 2 ^ bits b → Masks b n (new b n)
unfolding new
new-Masks b zero h = inr ((λ i hi e. omega (arith, two_pow_lt i (bits b) hi)), refl)
new-Masks b (suc n) h =
    rw (nonzero-pos (suc n) (omega arith)) (from_nonzero-Masks b (suc n) (omega arith) h)

pub new-high : (b : Build) (i : ℕ) → IsIndex b i → new b (high b i) ≡ returns (some (mask_at i))
unfolding new
new-high b i h =
    rw (nonzero-pos (high b i) (omega (arith, two_pow_lt i (bits b) h))) (from_nonzero-high b i h)

pub new_unchecked-high :
    (b : Build) (i : ℕ) → IsIndex b i → new_unchecked b (high b i) ≡ returns (mask_at i)
unfolding new_unchecked
new_unchecked-high b i h = rw (new-high b i h)
