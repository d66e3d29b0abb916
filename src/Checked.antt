-- ===== src/Checked.antt =====
-- The arithmetic of Rust's integers that reports overflow, at width `w`, and `NonZero`. A
-- `NonZero<usize>` is a positive number.
use gulf.Prelude.{
  ℕ, ◌+◌, ◌-◌, ◌*◌, ◌%◌, ◌^◌, Bool, Option, none, some, ltb, leb, ◌==◌, if◌then◌else◌, ◌≤◌, ◌<◌,
  ◌≡◌, arith, two_pow_lt,
}
use gulf.Outcome.{Outcome, returns, panics, undefined}

-- `x.strict_add(y)`.
abbrev pub strict_add : ℕ → ℕ → ℕ → Outcome ℕ
strict_add w x y = if ltb (x + y) (2 ^ w) then returns (x + y) else panics

-- `x.strict_sub(y)`.
abbrev pub strict_sub : ℕ → ℕ → Outcome ℕ
strict_sub x y = if leb y x then returns (x - y) else panics

-- `x.strict_shl(k)`: only the distance is checked, and bits shifted out are lost.
abbrev pub strict_shl : ℕ → ℕ → ℕ → Outcome ℕ
strict_shl w x k = if ltb k w then returns (x * 2 ^ k % 2 ^ w) else panics

-- `x.unchecked_add(y)`.
abbrev pub unchecked_add : ℕ → ℕ → ℕ → Outcome ℕ
unchecked_add w x y = if ltb (x + y) (2 ^ w) then returns (x + y) else undefined

-- `x.checked_sub(y)`.
abbrev pub checked_sub : ℕ → ℕ → Option ℕ
checked_sub x y = if leb y x then some (x - y) else none

-- `x.is_multiple_of(y)`; `x % 0` is `x` on these numbers, as the method wants it.
abbrev pub is_multiple_of : ℕ → ℕ → Bool
is_multiple_of x y = x % y == 0

-- `NonZero::new`.
abbrev pub nonzero : ℕ → Option ℕ
nonzero x = if x == 0 then none else some x

-- `NonZero::new_unchecked`.
abbrev pub nonzero_unchecked : ℕ → Outcome ℕ
nonzero_unchecked x = if x == 0 then undefined else returns x

-- Within their bounds the checked operations return the plain result.
pub strict_add-fits : (w x y : ℕ) → x + y < 2 ^ w → strict_add w x y ≡ returns (x + y)
strict_add-fits w x y h = ground arith

pub strict_sub-fits : (x y : ℕ) → y ≤ x → strict_sub x y ≡ returns (x - y)
strict_sub-fits x y h = ground arith

pub unchecked_add-fits : (w x y : ℕ) → x + y < 2 ^ w → unchecked_add w x y ≡ returns (x + y)
unchecked_add-fits w x y h = ground arith

pub strict_shl-one : (w k : ℕ) → k < w → strict_shl w 1 k ≡ returns (2 ^ k)
strict_shl-one w k h =
    let kept : 1 * 2 ^ k % 2 ^ w ≡ 2 ^ k = grind (arith, two_pow_lt k w h) in ground (arith, kept)

pub nonzero-pos : (x : ℕ) → 0 < x → nonzero x ≡ some x
nonzero-pos x h = ground arith

pub nonzero_unchecked-pos : (x : ℕ) → 0 < x → nonzero_unchecked x ≡ returns x
nonzero_unchecked-pos x h = ground arith
