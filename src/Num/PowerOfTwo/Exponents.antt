-- ===== src/Num/PowerOfTwo/Exponents.antt =====
-- Which exponents are accepted.
use native.Mathlib.Decide.{dec_lt}
use gulf.Prelude.{ℕ, ◌≤◌, ◌<◌, ◌≡◌, ◌⊎◌, inl, inr, none, some, arith}
use gulf.Outcome.{returns}
use gulf.Hint.{Build, unreachable_unchecked}
use gulf.Num.PowerOfTwo.{
  PowerOfTwo, IsPower, variants, from_exponent, from_exponent_unchecked, to_exponent,
}

abbrev pub power_at : ℕ → PowerOfTwo
power_at e = record { exponent = record { index = e } }

pub from_exponent-some : (e : ℕ) → e < variants → from_exponent e ≡ returns (some (power_at e))
unfolding from_exponent
from_exponent-some e h = ground arith

pub from_exponent-none : (e : ℕ) → variants ≤ e → from_exponent e ≡ returns none
unfolding from_exponent
from_exponent-none e h = ground arith

pub to_exponent_lem :
    (b : Build) (p : PowerOfTwo) → IsPower p → to_exponent b p ≡ returns p.exponent.index
unfolding to_exponent
to_exponent_lem b p h = rw (from_exponent-some p.exponent.index h)

-- Every `u8` either is the exponent of the power that `from_exponent` makes of it, and the unchecked
-- constructor makes the same; or it is 128 or more, `from_exponent` makes nothing of it, and the
-- unchecked constructor reaches its `unreachable_unchecked!`.
pub from_exponent-to_exponent :
    (b : Build) (e : ℕ)
    → e < 256
    → ((p : PowerOfTwo) × IsPower p
        × (from_exponent e ≡ returns (some p))
        × (from_exponent_unchecked b e ≡ returns p)
        × (to_exponent b p ≡ returns e))
      ⊎ ((variants ≤ e)
          × (from_exponent e ≡ returns none)
          × (from_exponent_unchecked b e ≡ unreachable_unchecked b))
unfolding from_exponent_unchecked
from_exponent-to_exponent b e h = elim (dec_lt e variants) [
  | yes below ↦ inl (
    power_at e,
    below,
    from_exponent-some e below,
    rw (from_exponent-some e below),
    to_exponent_lem b (power_at e) below,
  )
  | no above ↦
      let none_made = from_exponent-none e (omega arith) in
      inr (omega arith, none_made, rw none_made)
]
