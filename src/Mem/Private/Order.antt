-- ===== src/Mem/Private/Order.antt =====
-- The helpers on plain `usize`s agree with the order of the numbers.
use Prim.Native.Nat.{compare as number_compare}
use gulf.Prelude.{ℕ, ◌≡◌, arith, leb, if◌then◌else◌}
use gulf.Outcome.{returns}
use gulf.Mem.Private.{compare, min, max}

-- Both tests of `compare` are never true at once.
pub compare_lem : (x y : ℕ) → compare x y ≡ returns (number_compare x y)
unfolding compare
compare_lem x y = ground arith

pub min_lem : (x y : ℕ) → min x y ≡ returns (if leb x y then x else y)
unfolding min
min_lem x y = ground arith

pub max_lem : (x y : ℕ) → max x y ≡ returns (if leb x y then y else x)
unfolding max
max_lem x y = ground arith
