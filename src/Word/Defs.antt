-- ===== src/Word/Defs.antt =====
-- Unsigned machine words of any width, as native numbers, and the operations of Rust's `usize` and
-- `u8` that crates/core uses on them. A word of width `w` is a number below `2 ^ w`.

use gulf.Prelude.{ℕ, zero, suc, ◌+◌, ◌-◌, ◌/◌, ◌%◌, ◌^◌, Bool, leb, ◌==◌, if◌then◌else◌}

-- `T::MAX`.
abbrev pub max_value : ℕ → ℕ
max_value w = 2 ^ w - 1

-- `!x`.
abbrev pub complement : ℕ → ℕ → ℕ
complement w x = 2 ^ w - 1 - x

-- `x.wrapping_add(y)`.
abbrev pub wrapping_add : ℕ → ℕ → ℕ → ℕ
wrapping_add w x y = (x + y) % 2 ^ w

-- `x.count_ones()`, from the lowest bit.
unfoldable pub count_ones : ℕ → ℕ → ℕ
count_ones zero x = 0
count_ones (suc w) x = x % 2 + count_ones w (x / 2)

-- `x.trailing_zeros()`, the width at zero.
unfoldable pub trailing_zeros : ℕ → ℕ → ℕ
trailing_zeros zero x = 0
trailing_zeros (suc w) x = if x % 2 == 0 then suc (trailing_zeros w (x / 2)) else 0

-- `x.leading_ones()`, from the highest bit.
unfoldable pub leading_ones : ℕ → ℕ → ℕ
leading_ones zero x = 0
leading_ones (suc w) x = if leb (2 ^ w) x then suc (leading_ones w (x - 2 ^ w)) else 0

-- `x.is_power_of_two()`.
abbrev pub is_power_of_two : ℕ → ℕ → Bool
is_power_of_two w x = count_ones w x == 1
