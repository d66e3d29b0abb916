-- ===== src/Mem/Private.antt =====
-- crates/core/src/mem/layout_private.rs: the helpers on plain `usize`s.
pub mod Order
use gulf.Prelude.{
  ℕ, ◌+◌, ◌≡◌, Bool, true, false, not, Option, none, some, Ordering, ltb, leb, ◌==◌, if◌then◌else◌,
}
use gulf.Word.{leading_ones, trailing_zeros}
use gulf.Outcome.{Outcome, returns, panics, ◌>>=◌}
use gulf.Checked.{strict_add}
use gulf.Hint.{Build, bits}

-- The sum is of two `u32`s.
unfoldable pub has_hole : Build → ℕ → Outcome Bool
has_hole b value = do
  sum ← strict_add 32 (leading_ones (bits b) value) (trailing_zeros (bits b) value)
  returns (not (sum == bits b))

abbrev comparison : Bool → Bool → Outcome Ordering
comparison true false = returns Ordering.gt
comparison false false = returns Ordering.eq
comparison false true = returns Ordering.lt
comparison true true = panics

unfoldable pub compare : ℕ → ℕ → Outcome Ordering
compare lhs rhs = comparison (ltb rhs lhs) (ltb lhs rhs)

unfoldable pub min : ℕ → ℕ → Outcome ℕ
unfolding compare
min a b = do
  order ← compare b a
  elim order [ Ordering.lt ↦ returns b | Ordering.gt ↦ returns a | Ordering.eq ↦ returns a ]

unfoldable pub max : ℕ → ℕ → Outcome ℕ
unfolding compare
max a b = do
  order ← compare b a
  elim order [ Ordering.lt ↦ returns a | Ordering.gt ↦ returns b | Ordering.eq ↦ returns b ]

unfoldable pub clamp : ℕ → ℕ → ℕ → Option ℕ
clamp value lo hi =
    if leb lo hi
    then (if ltb value lo then some lo else if ltb hi value then some hi else some value)
    else none
