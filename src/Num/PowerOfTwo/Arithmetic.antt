-- ===== src/Num/PowerOfTwo/Arithmetic.antt =====
-- Products, quotients and comparisons of powers of two against those of the numbers.
use Prim.Native.Nat.{compare as number_compare}
use native.Mathlib.Decide.{dec_lt}
use gulf.Prelude.{
  ℕ, ◌+◌, ◌-◌, ◌*◌, ◌^◌, ◌≤◌, ◌<◌, ◌≡◌, sym, ap, ◌∙◌, ◌⊎◌, inl, inr, none, some, arith, two_pow-add,
  two_pow_lt, compare-two_pow, two_pow_le,
}
use gulf.Outcome.{returns}
use gulf.Checked.{strict_add-fits, checked_sub}
use gulf.Hint.{Build}
use gulf.Num.PowerOfTwo.{
  PowerOfTwo, IsPower, variants, from_exponent, checked_mul, checked_div, cmp,
}
use gulf.Num.PowerOfTwo.Exponents.{
  power_at, from_exponent-some, from_exponent-none, to_exponent_lem,
}

-- The number that a power of two stands for.
abbrev pub value : PowerOfTwo → ℕ
value p = 2 ^ p.exponent.index

-- `u128::MAX + 1`, as the power of two that no value reaches.
abbrev pub u128_limit : ℕ
u128_limit = 2 ^ variants

module _ (b : Build) (p q : PowerOfTwo) (hp : IsPower p) (hq : IsPower q) where
  abbrev i : ℕ
  i = p.exponent.index

  abbrev j : ℕ
  j = q.exponent.index

  -- The sum of two exponents never overflows a `u8`.
  checked_mul-sum : checked_mul b p q ≡ from_exponent (i + j)
  unfolding checked_mul
  checked_mul-sum =
      rw (to_exponent_lem b p hp, to_exponent_lem b q hq, strict_add-fits 8 i j (omega arith))

  -- `checked_mul` gives the power that stands for the product, where a `u128` can hold the product,
  -- and nothing where it cannot.
  pub checked_mul-value :
      ((r : PowerOfTwo) × IsPower r
        × (checked_mul b p q ≡ returns (some r))
        × (value r ≡ value p * value q))
      ⊎ ((u128_limit ≤ value p * value q) × (checked_mul b p q ≡ returns none))
  checked_mul-value = elim (dec_lt (i + j) variants) [
    | yes fits ↦
        inl (
          power_at (i + j),
          fits,
          checked_mul-sum ∙ from_exponent-some (i + j) fits,
          two_pow-add i j,
        )
    | no over ↦ inr (
      omega (arith, two_pow-add i j, two_pow_le variants (i + j) (omega arith)),
      checked_mul-sum ∙ from_exponent-none (i + j) (omega arith),
    )
  ]

  -- `checked_div` gives the power that stands for the exact quotient, where the divisor is at most
  -- the dividend, and nothing where it is larger.
  pub checked_div-value :
      ((r : PowerOfTwo) × IsPower r
        × (checked_div b p q ≡ returns (some r))
        × (value r * value q ≡ value p))
      ⊎ ((value p < value q) × (checked_div b p q ≡ returns none))
  unfolding checked_div
  checked_div-value = elim (dec_lt i j) [
    | yes less ↦
        let none_left : checked_sub i j ≡ none = ground arith in
        inr (two_pow_lt i j less, rw (to_exponent_lem b p hp, to_exponent_lem b q hq, none_left))
    | no fits ↦
        let rest : checked_sub i j ≡ some (i - j) = ground arith in
        let whole : (i - j) + j ≡ i = omega arith in
        inl (
          power_at (i - j),
          omega arith,
          rw (to_exponent_lem b p hp, to_exponent_lem b q hq, rest)
              (from_exponent-some (i - j) (omega arith)),
          sym (two_pow-add (i - j) j) ∙ ap (λ (t : ℕ). 2 ^ t) whole,
        )
  ]

  -- `cmp` orders powers of two as the numbers that they stand for.
  pub cmp-value : cmp b p q ≡ returns (number_compare (value p) (value q))
  unfolding cmp
  cmp-value = rw (to_exponent_lem b p hp, to_exponent_lem b q hq, compare-two_pow i j)

-- What a checked product and a checked quotient have to be.
abbrev pub Product : Build → PowerOfTwo → PowerOfTwo → Type 0
Product b p q =
    ((r : PowerOfTwo) × IsPower r
      × (checked_mul b p q ≡ returns (some r))
      × (value r ≡ value p * value q))
    ⊎ ((u128_limit ≤ value p * value q) × (checked_mul b p q ≡ returns none))

abbrev pub Quotient : Build → PowerOfTwo → PowerOfTwo → Type 0
Quotient b p q =
    ((r : PowerOfTwo) × IsPower r
      × (checked_div b p q ≡ returns (some r))
      × (value r * value q ≡ value p))
    ⊎ ((value p < value q) × (checked_div b p q ≡ returns none))

-- `checked_mul` gives the power that stands for the product where a `u128` can hold it, `checked_div` the
-- one that stands for the exact quotient where the divisor is at most the dividend, and each gives nothing
-- otherwise; `cmp` orders powers as the numbers that they stand for.
pub arithmetic-value :
    (b : Build) (p q : PowerOfTwo)
    → IsPower p
    → IsPower q
    → Product b p q × Quotient b p q × (cmp b p q ≡ returns (number_compare (value p) (value q)))
arithmetic-value b p q hp hq =
    (checked_mul-value b p q hp hq, checked_div-value b p q hp hq, cmp-value b p q hp hq)
