-- ===== src/Prelude/Powers.antt =====
-- Powers of two.
use Prim.Native.Nat.{ℕ, zero, suc, ◌+◌, ◌*◌, ◌^◌, ◌≤◌, ◌<◌, compare}
use mathlib.Core.Path.{◌≡◌, ap}
use native.Mathlib.Decide.{dec_lt}
use native.Mathlib.Omega.{arith}
use native.Mathlib.Nat.{pow-suc, one-le-pow}

pub two_pow-suc : (k : ℕ) → 2 ^ suc k ≡ 2 * 2 ^ k
two_pow-suc k = omega (arith, pow-suc 2 k)

pub one-le-two_pow : (k : ℕ) → 1 ≤ 2 ^ k
one-le-two_pow k = one-le-pow k 2 (omega arith)

-- A power of two doubles with its exponent, so it is strictly monotone.
pub two_pow_lt : (j k : ℕ) → j < k → 2 ^ j < 2 ^ k
two_pow_lt zero zero h = absurd (omega arith)
two_pow_lt zero (suc k) h = omega (arith, two_pow-suc k, one-le-two_pow k)
two_pow_lt (suc j) zero h = absurd (omega arith)
two_pow_lt (suc j) (suc k) h =
    omega (arith, two_pow-suc k, two_pow-suc j, two_pow_lt j k (omega arith))

pub two_pow_le : (j k : ℕ) → j ≤ k → 2 ^ j ≤ 2 ^ k
two_pow_le zero k h = one-le-two_pow k
two_pow_le (suc j) zero h = absurd (omega arith)
two_pow_le (suc j) (suc k) h =
    omega (arith, two_pow-suc k, two_pow-suc j, two_pow_le j k (omega arith))

pub two_pow-add : (j k : ℕ) → 2 ^ (j + k) ≡ 2 ^ j * 2 ^ k
two_pow-add zero k = let e : 0 + k ≡ k = omega arith in omega (arith, ap (λ (t : ℕ). 2 ^ t) e)
two_pow-add (suc j) k =
    let e : suc j + k ≡ suc (j + k) = omega arith in
    omega (
      arith,
      ap (λ (t : ℕ). 2 ^ t) e,
      two_pow-suc (j + k),
      two_pow-add j k,
      ap (λ (t : ℕ). t * 2 ^ k) (two_pow-suc j),
    )

-- The exponent is determined by the power.
pub two_pow-injective : (j k : ℕ) → 2 ^ j ≡ 2 ^ k → j ≡ k
two_pow-injective j k e = elim (dec_lt j k) [
  | yes lt ↦ absurd (omega (arith, two_pow_lt j k lt))
  | no ge ↦ elim (dec_lt k j) [
    | yes lt ↦ absurd (omega (arith, two_pow_lt k j lt))
    | no le ↦ omega arith
  ]
]

pub compare-two_pow : (i j : ℕ) → compare (2 ^ i) (2 ^ j) ≡ compare i j
compare-two_pow i j = elim (dec_lt i j) [
  | yes lt ↦ ground (arith, two_pow_lt i j lt)
  | no ge ↦ elim (dec_lt j i) [
    | yes gt ↦ ground (arith, two_pow_lt j i gt)
    | no le ↦ let e : i ≡ j = omega arith in rw e (ground arith)
  ]
]
