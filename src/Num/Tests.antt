-- ===== src/Num/Tests.antt =====
-- Runs of num at concrete powers of two.
use gulf.Prelude.{◌≡◌, refl, false, some, arith}
use gulf.Outcome.{returns}
use gulf.Hint.{Build, width32}
use gulf.Num.PowerOfTwo.{PowerOfTwo, checked_div}
use gulf.Num.PowerOfTwo.Arithmetic.{value}
use gulf.Num.PowerOfTwo.Arithmetic.{Product, Quotient, arithmetic-value}
use gulf.Num.PowerOfTwo.{cmp}
use Prim.Native.Nat.{compare}

abbrev b32 : Build
b32 = record { pointer_width = width32; debug_assertions = false; miri = false }

abbrev kilo : PowerOfTwo
kilo = record { exponent = record { index = 10 } }

abbrev giga : PowerOfTwo
giga = record { exponent = record { index = 30 } }

checked_div_run :
    checked_div b32 giga kilo ≡ returns (some (record { exponent = record { index = 20 } }))
unfolding checked_div
checked_div_run = refl

arithmetic-value_example :
    Product b32 giga kilo
    × Quotient b32 giga kilo
    × (cmp b32 giga kilo ≡ returns (compare (value giga) (value kilo)))
arithmetic-value_example = arithmetic-value b32 giga kilo (omega arith) (omega arith)
