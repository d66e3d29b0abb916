-- ===== src/Word/Mask.antt =====
-- `^` and `&` against the masks of crates/core/src/mem, at every width.
use Prim.Native.Nat.{bit_and, bit_xor, differ}
use gulf.Prelude.{
  ℕ, zero, suc, ◌+◌, ◌-◌, ◌*◌, ◌/◌, ◌%◌, ◌^◌, ◌≤◌, ◌<◌, ◌≡◌, refl, ap, ap₂, ◌⊎◌, inl, inr, arith,
  two_pow-suc, one-le-two_pow, two_pow_le,
}
use gulf.Word.Steps.{bit_and_low_digit, bit_xor_low_digit}

differ_bits :
    (x y : ℕ) → x < 2 → y < 2 → ((x + y ≡ 1) × (differ x y ≡ 1)) ⊎ ((x ≡ y) × (differ x y ≡ 0))
differ_bits zero zero hx hy = inr (refl, refl)
differ_bits zero (suc zero) hx hy = inl (refl, refl)
differ_bits zero (suc (suc y)) hx hy = absurd (omega arith)
differ_bits (suc zero) zero hx hy = inl (refl, refl)
differ_bits (suc zero) (suc zero) hx hy = inr (refl, refl)
differ_bits (suc zero) (suc (suc y)) hx hy = absurd (omega arith)
differ_bits (suc (suc x)) y hx hy = absurd (omega arith)

-- Two words whose exclusive or is all ones are complements.
pub bit_xor-ones : (w a b : ℕ) → a < 2 ^ w → b < 2 ^ w → bit_xor a b ≡ 2 ^ w - 1 → a + b ≡ 2 ^ w - 1
bit_xor-ones zero a b ha hb e = omega arith
bit_xor-ones (suc w) a b ha hb e =
    let bits = differ_bits (a % 2) (b % 2) (omega arith) (omega arith) in
    let step = bit_xor_low_digit a b in
    let one = one-le-two_pow w in
    let two = two_pow-suc w in
    let half = bit_xor-ones w (a / 2) (b / 2) (omega arith) (omega arith) (omega arith) in
    omega arith

pub bit_xor-complement : (w a b : ℕ) → a + b ≡ 2 ^ w - 1 → bit_xor a b ≡ 2 ^ w - 1
bit_xor-complement zero zero zero e = refl
bit_xor-complement zero zero (suc b) e = absurd (omega arith)
bit_xor-complement zero (suc a) b e = absurd (omega arith)
bit_xor-complement (suc w) a b e =
    let bits = differ_bits (a % 2) (b % 2) (omega arith) (omega arith) in
    let step = bit_xor_low_digit a b in
    let one = one-le-two_pow w in
    let two = two_pow-suc w in
    let half = bit_xor-complement w (a / 2) (b / 2) (omega arith) in omega arith

bit_and-ones : (w x : ℕ) → x < 2 ^ w → bit_and x (2 ^ w - 1) ≡ x
bit_and-ones zero zero h = refl
bit_and-ones zero (suc x) h = absurd (omega arith)
bit_and-ones (suc w) x h =
    let half : (2 ^ suc w - 1) / 2 ≡ 2 ^ w - 1 = omega (arith, two_pow-suc w, one-le-two_pow w) in
    omega (
      arith,
      bit_and_low_digit x (2 ^ suc w - 1),
      ap (bit_and (x / 2)) half,
      bit_and-ones w (x / 2) (omega (arith, two_pow-suc w)),
      two_pow-suc w,
      one-le-two_pow w,
    )

double : (q k : ℕ) → q * 2 ^ suc k ≡ 2 * (q * 2 ^ k)
double q k = omega (arith, ap (λ (t : ℕ). q * t) (two_pow-suc k))

-- A mask of high bits clears the low ones.
pub bit_and-high :
    (w k q r : ℕ)
    → k ≤ w
    → r < 2 ^ k
    → q * 2 ^ k + r < 2 ^ w
    → bit_and (q * 2 ^ k + r) (2 ^ w - 2 ^ k) ≡ q * 2 ^ k
bit_and-high w zero q r hk hr h =
    let e : q * 2 ^ 0 + r ≡ q * 2 ^ 0 = omega arith in
    rw e (bit_and-ones w (q * 2 ^ 0) (omega arith))
bit_and-high zero (suc k) q r hk hr h = absurd (omega arith)
bit_and-high (suc w) (suc k) q r hk hr h =
    let dq = double q k in
    let dk = two_pow-suc k in
    let dw = two_pow-suc w in
    let below : 2 ^ k ≤ 2 ^ w = two_pow_le k w (omega arith) in
    let low : (q * 2 ^ suc k + r) / 2 ≡ q * 2 ^ k + r / 2 = omega arith in
    let high : (2 ^ suc w - 2 ^ suc k) / 2 ≡ 2 ^ w - 2 ^ k = omega arith in
    let halves = ap₂ bit_and low high in
    let step = bit_and_low_digit (q * 2 ^ suc k + r) (2 ^ suc w - 2 ^ suc k) in
    let rest = bit_and-high w k q (r / 2) (omega arith) (omega arith) (omega arith) in omega arith
