-- ===== src/Prelude/Int.antt =====
-- Signed integers over the native numbers: a C `int` by its value.
use Prim.Native.Nat.{ℕ, zero, suc}
use mathlib.Core.Path.{◌≡◌, refl}
use mathlib.Core.Logic.{◌↔◌}
use mathlib.Core.Bool.{Bool, true, false}
use native.Mathlib.Omega.{arith}

-- `negsuc n` is -(n + 1).
pub data ℤ : Type 0 where
  pos : ℕ → ℤ
  negsuc : ℕ → ℤ

abbrev pub minus_one : ℤ
minus_one = negsuc 0

-- `x == -1`.
abbrev pub is_minus_one : ℤ → Bool
is_minus_one (pos n) = false
is_minus_one (negsuc zero) = true
is_minus_one (negsuc (suc n)) = false

-- `x < 0`.
abbrev pub is_negative : ℤ → Bool
is_negative (pos n) = false
is_negative (negsuc n) = true

pub is_minus_one_iff : (x : ℤ) → (is_minus_one x ≡ true) ↔ (x ≡ minus_one)
is_minus_one_iff (pos n) = (λ h. cc, λ h. cc)
is_minus_one_iff (negsuc zero) = (λ h. refl, λ h. refl)
is_minus_one_iff (negsuc (suc n)) = (λ h. cc, λ h. ground arith)
