-- ===== src/Mem/Align/Unchecked.antt =====
-- The `unsafe` constructors of `Align`, on every word.
use gulf.Prelude.{
  ℕ, ◌^◌, ◌<◌, ◌≡◌, ap, ◌∙◌, ◌⊎◌, inl, inr, Bool, false, some, none, Bool-cases, arith,
}
use gulf.Word.{is_power_of_two, is_power_of_two_iff}
use gulf.Outcome.{Outcome, returns, ◌>>◌}
use gulf.Hint.{Build, bits, assert_unchecked, unreachable_unchecked}
use gulf.Mem.Align.{
  Align, IsAlign, from_nonzero, from_nonzero_unchecked, new, new_unchecked, transmute,
}
use gulf.Mem.Align.Values.{align_at, new-two_pow, new_unchecked-two_pow}

module _ (b : Build) (n : ℕ) where
  -- What the four constructors make of a word.
  abbrev pub Agree : Type 0
  Agree =
      ((a : Align) × IsAlign b a
        × (new b n ≡ returns (some a))
        × (from_nonzero b n ≡ returns (some a))
        × (new_unchecked b n ≡ returns a)
        × (from_nonzero_unchecked b n ≡ returns a))
      ⊎ ((new b n ≡ returns none)
          × (from_nonzero b n ≡ returns none)
          × (new_unchecked b n ≡ unreachable_unchecked b)
          × (from_nonzero_unchecked b n ≡ unreachable_unchecked b))

assert_unchecked-false :
    (b : Build) {c : Bool} (k : Outcome Align)
    → c ≡ false
    → (assert_unchecked b c >> k) ≡ unreachable_unchecked b
unfolding assert_unchecked unreachable_unchecked
assert_unchecked-false b k e = rw e (ground arith)

-- For every word, either the four constructors make the same alignment, or `new` and `from_nonzero`
-- make none and the unchecked ones run into their `assert_unchecked!`.
pub constructors-Agree : (b : Build) (n : ℕ) → n < 2 ^ bits b → Agree b n
unfolding from_nonzero from_nonzero_unchecked new new_unchecked
constructors-Agree b n h = elim (Bool-cases (is_power_of_two (bits b) n)) [
  | inl t ↦
      let (i, below, at) = (is_power_of_two_iff (bits b) n h).0 t in
      let made = ap (new b) at ∙ new-two_pow b i below in
      let forced = ap (new_unchecked b) at ∙ new_unchecked-two_pow b i below in
      inl (align_at i, below, made, made, forced, forced)
  | inr f ↦
      let forced = assert_unchecked-false b (transmute b n) f in inr (rw f, rw f, forced, forced)
]
