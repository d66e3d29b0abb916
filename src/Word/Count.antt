-- ===== src/Word/Count.antt =====
-- What `count_ones`, `trailing_zeros` and `leading_ones` find, at every width.
use native.Mathlib.Decide.{ℕ_discrete, dec_le}
use gulf.Prelude.{
  ℕ, zero, suc, ◌+◌, ◌-◌, ◌*◌, ◌/◌, ◌%◌, ◌^◌, ◌≤◌, ◌<◌, ◌≡◌, ap, true, ◌↔◌, arith, ==_iff,
  two_pow-suc, one-le-two_pow, two_pow_le,
}
use gulf.Word.Defs.{count_ones, trailing_zeros, leading_ones, is_power_of_two}

half_two_pow : (k : ℕ) → 2 ^ suc k / 2 ≡ 2 ^ k
half_two_pow k = omega (arith, two_pow-suc k)

count_ones-zero : (w : ℕ) → count_ones w 0 ≡ 0
unfolding count_ones
count_ones-zero zero = omega arith
count_ones-zero (suc w) = omega (arith, count_ones-zero w)

count_ones-eq_zero : (w x : ℕ) → x < 2 ^ w → count_ones w x ≡ 0 → x ≡ 0
unfolding count_ones
count_ones-eq_zero zero x h e = omega arith
count_ones-eq_zero (suc w) x h e =
    let half = count_ones-eq_zero w (x / 2) (omega (arith, two_pow-suc w)) (omega arith) in
    omega arith

count_ones-eq_one : (w x : ℕ) → x < 2 ^ w → count_ones w x ≡ 1 → (k : ℕ) × (k < w) × (x ≡ 2 ^ k)
unfolding count_ones
count_ones-eq_one zero x h e = absurd (omega arith)
count_ones-eq_one (suc w) x h e = elim (ℕ_discrete (x % 2) 1) [
  | yes odd ↦
      let half = count_ones-eq_zero w (x / 2) (omega (arith, two_pow-suc w)) (omega arith) in
      (0, omega arith, omega arith)
  | no even ↦
      let (k, below, at) =
        count_ones-eq_one w (x / 2) (omega (arith, two_pow-suc w)) (omega arith) in
      (suc k, omega arith, omega (arith, two_pow-suc k))
]

count_ones-two_pow : (w k : ℕ) → k < w → count_ones w (2 ^ k) ≡ 1
unfolding count_ones
count_ones-two_pow zero k h = absurd (omega arith)
count_ones-two_pow (suc w) zero h = omega (arith, count_ones-zero w)
count_ones-two_pow (suc w) (suc k) h =
    omega (
      arith,
      two_pow-suc k,
      ap (count_ones w) (half_two_pow k),
      count_ones-two_pow w k (omega arith),
    )

-- The test answers whether the word is a power of two.
pub is_power_of_two_iff :
    (w x : ℕ) → x < 2 ^ w → (is_power_of_two w x ≡ true) ↔ ((k : ℕ) × (k < w) × (x ≡ 2 ^ k))
is_power_of_two_iff w x h = (
  (λ t. count_ones-eq_one w x h ((==_iff _ _).0 t)),
  (λ (k, below, at). (==_iff _ _).1 (rw at (count_ones-two_pow w k below))),
)

pub trailing_zeros-le : (w x : ℕ) → trailing_zeros w x ≤ w
unfolding trailing_zeros
trailing_zeros-le zero x = omega arith
trailing_zeros-le (suc w) x = ground (arith, trailing_zeros-le w (x / 2))

pub trailing_zeros-zero : (w : ℕ) → trailing_zeros w 0 ≡ w
unfolding trailing_zeros
trailing_zeros-zero zero = omega arith
trailing_zeros-zero (suc w) = omega (arith, trailing_zeros-zero w)

double_odd : (k m : ℕ) → 2 ^ suc k * (2 * m + 1) ≡ 2 * (2 ^ k * (2 * m + 1))
double_odd k m = omega (arith, ap (λ (t : ℕ). t * (2 * m + 1)) (two_pow-suc k))

pub trailing_zeros-odd : (w k m : ℕ) → k < w → trailing_zeros w (2 ^ k * (2 * m + 1)) ≡ k
unfolding trailing_zeros
trailing_zeros-odd zero k m h = absurd (omega arith)
trailing_zeros-odd (suc w) zero m h = ground arith
trailing_zeros-odd (suc w) (suc k) m h =
    let half : 2 ^ suc k * (2 * m + 1) / 2 ≡ 2 ^ k * (2 * m + 1) = omega (arith, double_odd k m) in
    ground (
      arith,
      double_odd k m,
      half,
      ap (trailing_zeros w) half,
      trailing_zeros-odd w k m (omega arith),
    )

pub trailing_zeros-two_pow : (w k : ℕ) → k < w → trailing_zeros w (2 ^ k) ≡ k
trailing_zeros-two_pow w k h =
    let e : 2 ^ k * (2 * 0 + 1) ≡ 2 ^ k = omega arith in
    omega (arith, ap (trailing_zeros w) e, trailing_zeros-odd w k 0 h)

-- A word that is not zero is a power of two times an odd number.
pub odd_part : (w x : ℕ) → 0 < x → x < 2 ^ w → (k m : ℕ) × (k < w) × (x ≡ 2 ^ k * (2 * m + 1))
odd_part zero x pos h = absurd (omega arith)
odd_part (suc w) x pos h = elim (ℕ_discrete (x % 2) 1) [
  | yes odd ↦ (0, x / 2, omega arith, omega arith)
  | no even ↦
      let (k, m, below, at) = odd_part w (x / 2) (omega arith) (omega (arith, two_pow-suc w)) in
      (suc k, m, omega arith, omega (arith, double_odd k m))
]

pub leading_ones-le : (w x : ℕ) → leading_ones w x ≤ w
unfolding leading_ones
leading_ones-le zero x = omega arith
leading_ones-le (suc w) x = ground (arith, leading_ones-le w (x - 2 ^ w))

-- The bits above the leading ones are all set.
pub leading_ones-fits : (w x : ℕ) → x < 2 ^ w → 2 ^ w ≤ x + 2 ^ (w - leading_ones w x)
unfolding leading_ones
leading_ones-fits zero x h = omega arith
leading_ones-fits (suc w) x h = elim (dec_le (2 ^ w) x) [
  | yes top ↦
      let n = leading_ones w (x - 2 ^ w) in
      let e : suc w - suc n ≡ w - n = omega arith in
      ground (
        arith,
        two_pow-suc w,
        ap (λ (t : ℕ). 2 ^ t) e,
        leading_ones-fits w (x - 2 ^ w) (omega (arith, two_pow-suc w)),
      )
  | no low ↦ let e : suc w - 0 ≡ suc w = omega arith in ground (arith, ap (λ (t : ℕ). 2 ^ t) e)
]

pub leading_ones-high : (w j : ℕ) → j ≤ w → leading_ones w (2 ^ w - 2 ^ j) ≡ w - j
unfolding leading_ones
leading_ones-high zero j h = omega arith
leading_ones-high (suc w) j h = elim (dec_le j w) [
  | yes inner ↦
      let e : 2 ^ suc w - 2 ^ j - 2 ^ w ≡ 2 ^ w - 2 ^ j = omega (arith, two_pow-suc w) in
      ground (
        arith,
        two_pow-suc w,
        two_pow_le j w inner,
        one-le-two_pow j,
        ap (leading_ones w) e,
        leading_ones-high w j inner,
      )
  | no outer ↦ let e : j ≡ suc w = omega arith in rw e (ground (arith, one-le-two_pow w))
]
