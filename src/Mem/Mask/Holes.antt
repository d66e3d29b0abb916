-- ===== src/Mem/Mask/Holes.antt =====
-- `has_hole` of layout_private.rs, the check that the documentation of `Mask` gives.
use native.Mathlib.Decide.{dec_lt}
use gulf.Prelude.{
  ℕ, ◌+◌, ◌-◌, ◌*◌, ◌^◌, ◌≤◌, ◌<◌, ◌≡◌, refl, sym, ap, ◌∙◌, ◌⊎◌, inl, inr, Bool, true, false, not,
  some, none, arith, two_pow-add, Bool-cases, ◌==◌, ==_iff,
}
use gulf.Word.{
  trailing_zeros, trailing_zeros-odd, trailing_zeros-zero, trailing_zeros-le, odd_part,
  leading_ones, leading_ones-le, leading_ones-fits, leading_ones-high,
}
use gulf.Outcome.{returns}
use gulf.Checked.{strict_add-fits}
use gulf.Hint.{Build, bits, bits_small}
use gulf.Mem.Repr.{IsIndex}
use gulf.Mem.Private.{has_hole}
use gulf.Mem.Mask.{Mask, new, IsMask}
use gulf.Mem.Mask.Values.{high, trailing_zeros-high, new-Masks}

-- The count of the word's bits that `has_hole` takes.
abbrev covered : Build → ℕ → ℕ
covered b n = leading_ones (bits b) n + trailing_zeros (bits b) n

covered-high : (b : Build) (i : ℕ) → IsIndex b i → covered b (high b i) ≡ bits b
covered-high b i h =
    omega (arith, leading_ones-high (bits b) i (omega arith), trailing_zeros-high b i h)

scale : (d x y : ℕ) → x ≤ y → d * x ≤ d * y
scale d x y h = grind arith

-- The one odd multiple of `2 ^ k` within `2 ^ k` of `2 ^ w` is `2 ^ w - 2 ^ k`.
last_odd_multiple :
    (w k m : ℕ)
    → k < w
    → 2 ^ k * (2 * m + 1) < 2 ^ w
    → 2 ^ w ≤ 2 ^ k * (2 * m + 1) + 2 ^ k
    → 2 ^ k * (2 * m + 1) ≡ 2 ^ w - 2 ^ k
last_odd_multiple w k m below lt fits =
    let t = 2 ^ (w - k) in
    let whole : 2 ^ w ≡ 2 ^ k * t =
      ap (λ (s : ℕ). 2 ^ s) (let e : w ≡ k + (w - k) = omega arith in e) ∙ two_pow-add k (w - k) in
    elim (dec_lt t (2 * m + 2)) [
      | yes small ↦ absurd (omega (arith, scale (2 ^ k) t (2 * m + 1) (omega arith)))
      | no large ↦ elim (dec_lt (2 * m + 2) t) [
        | yes huge ↦ absurd (omega (arith, scale (2 ^ k) (2 * m + 3) t (omega arith)))
        | no le ↦ let e : t ≡ 2 * m + 2 = omega arith in omega (arith, ap (λ (s : ℕ). 2 ^ k * s) e)
      ]
    ]

-- With as many leading ones as there are bits above the lowest one, all those bits are set.
high_of_covered :
    (b : Build) (n : ℕ)
    → 0 < n
    → n < 2 ^ bits b
    → covered b n ≡ bits b
    → (i : ℕ) × IsIndex b i × (n ≡ high b i)
high_of_covered b n pos h e =
    let w = bits b in
    let (k, m, below, at) = odd_part w n pos h in
    let tz : trailing_zeros w n ≡ k = ap (trailing_zeros w) at ∙ trailing_zeros-odd w k m below in
    let rest : w - leading_ones w n ≡ k = omega arith in
    let fits : 2 ^ w ≤ n + 2 ^ k =
      omega (arith, leading_ones-fits w n h, ap (λ (s : ℕ). 2 ^ s) rest) in
    (k, below, at ∙ last_odd_multiple w k m below (omega arith) (omega arith))

pub has_hole_lem : (b : Build) (n : ℕ) → has_hole b n ≡ returns (not (covered b n == bits b))
unfolding has_hole
has_hole_lem b n =
    let sum : covered b n < 2 ^ 32 =
      omega (arith, leading_ones-le (bits b) n, trailing_zeros-le (bits b) n, bits_small b) in
    rw (strict_add-fits 32 (leading_ones (bits b) n) (trailing_zeros (bits b) n) sum)

-- For every word that is not zero, either
-- `Mask::new` makes a mask of it and `has_hole` is false, or it makes none and `has_hole` is true.
pub new-has_hole :
    (b : Build) (n : ℕ)
    → 0 < n
    → n < 2 ^ bits b
    → ((m : Mask) × IsMask b m × (new b n ≡ returns (some m)) × (has_hole b n ≡ returns false))
      ⊎ ((new b n ≡ returns none) × (has_hole b n ≡ returns true))
new-has_hole b n pos h = elim (new-Masks b n h) [
  | inl (m, is, made, _, at) ↦ inl (
    m,
    is,
    made,
    has_hole_lem b n
        ∙ ap (λ (s : Bool). returns (not s))
            ((==_iff _ _).1 (ap (covered b) at ∙ covered-high b m.repr.index is)),
  )
  | inr (other, made) ↦ inr (
    made,
    elim (Bool-cases (covered b n == bits b)) [
      | inl t ↦
          let (i, below, at) = high_of_covered b n pos h ((==_iff _ _).0 t) in
          absurd (other i below at)
      | inr f ↦ has_hole_lem b n ∙ ap (λ (s : Bool). returns (not s)) f
    ],
  )
]

-- Zero has no hole, and is no mask.
pub zero_no_hole : (b : Build) → (has_hole b 0 ≡ returns false) × (new b 0 ≡ returns none)
unfolding new
zero_no_hole b =
    let w = bits b in
    let e : 2 ^ w - 2 ^ w ≡ 0 = omega arith in
    let none_lead : leading_ones w 0 ≡ w - w =
      ap (leading_ones w) (sym e) ∙ leading_ones-high w w (omega arith) in
    let all : covered b 0 ≡ w = omega (arith, none_lead, trailing_zeros-zero w) in
    (has_hole_lem b 0 ∙ ap (λ (s : Bool). returns (not s)) ((==_iff _ _).1 all), refl)
