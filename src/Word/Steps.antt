-- ===== src/Word/Steps.antt =====
-- The native bit operations, one binary digit at a time.
use Prim.Native.Nat.{
  min, digits, bitwise, bit_and, bit_xor, bit_and-bitwise, bit_xor-bitwise, differ,
}
use native.Mathlib.Nat.{le_refl}
use gulf.Prelude.{ℕ, zero, suc, ◌+◌, ◌*◌, ◌/◌, ◌%◌, ◌≤◌, ◌≡◌, refl, arith}

module _ (z : ℕ → ℕ) (f : ℕ → ℕ → ℕ) where
  -- More fuel than digits changes nothing.
  digits_more : (n m a b : ℕ) → a ≤ n → a ≤ m → digits z f n a b ≡ digits z f m a b
  digits_more zero zero a b p q = refl
  digits_more zero (suc m) zero b p q = refl
  digits_more zero (suc m) (suc a) b p q = absurd (omega arith)
  digits_more (suc n) zero zero b p q = refl
  digits_more (suc n) zero (suc a) b p q = absurd (omega arith)
  digits_more (suc n) (suc m) zero b p q = refl
  digits_more (suc n) (suc m) (suc a) b p q =
      rw (digits_more n m (suc a / 2) (b / 2) (omega arith) (omega arith))

  bitwise_low_digit :
      (a b : ℕ)
      → bitwise z f (suc a) b ≡ bitwise z f (suc a / 2) (b / 2) * 2 + f (suc a % 2) (b % 2)
  bitwise_low_digit a b =
      omega (arith, digits_more a (suc a / 2) (suc a / 2) (b / 2) (omega arith) (le_refl _))

pub bit_and_low_digit : (a b : ℕ) → bit_and a b ≡ bit_and (a / 2) (b / 2) * 2 + min (a % 2) (b % 2)
bit_and_low_digit zero b = simp bit_and-bitwise (omega arith)
bit_and_low_digit (suc a) b = simp bit_and-bitwise (bitwise_low_digit (λ y. 0) min a b)

pub bit_xor_low_digit :
    (a b : ℕ) → bit_xor a b ≡ bit_xor (a / 2) (b / 2) * 2 + differ (a % 2) (b % 2)
bit_xor_low_digit zero b = simp bit_xor-bitwise (omega arith)
bit_xor_low_digit (suc a) b = simp bit_xor-bitwise (bitwise_low_digit (λ y. y) differ a b)
