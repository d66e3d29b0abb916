-- ===== src/Mem/Align/Values.antt =====
-- Which words `Align` accepts, and that it gives them back.
use native.Mathlib.Decide.{dec_lt}
use gulf.Prelude.{
  ℕ, ◌^◌, ◌<◌, ◌≡◌, ◌≢◌, refl, sym, ap, ◌∙◌, ◌⊎◌, inl, inr, true, false, Option, some, none, arith,
  two_pow_lt, two_pow_le, one-le-two_pow, Bool-cases,
}
use gulf.Word.{is_power_of_two, is_power_of_two_iff}
use gulf.Outcome.{Outcome, returns, ◌>>=◌}
use gulf.Checked.{nonzero_unchecked-pos}
use gulf.Hint.{Build, bits, assert_unchecked-true}
use gulf.Mem.Repr.{IsIndex}
use gulf.Mem.Repr.Variants.{align_discriminant_lem, transmute_index-align}
use gulf.Mem.Align.{Align, IsAlign, transmute, new, new_unchecked, get}

abbrev pub align_at : ℕ → Align
align_at i = record { repr = record { index = i } }

pub is_power_of_two-true :
    (b : Build) (i : ℕ) → IsIndex b i → is_power_of_two (bits b) (2 ^ i) ≡ true
is_power_of_two-true b i h =
    (is_power_of_two_iff (bits b) (2 ^ i) (two_pow_lt i (bits b) h)).1 (i, h, refl)

pub transmute-two_pow :
    (b : Build) (i : ℕ) → IsIndex b i → transmute b (2 ^ i) ≡ returns (align_at i)
unfolding transmute
transmute-two_pow b i h = rw (transmute_index-align b i h)

pub new-two_pow : (b : Build) (i : ℕ) → IsIndex b i → new b (2 ^ i) ≡ returns (some (align_at i))
unfolding new
new-two_pow b i h = rw (is_power_of_two-true b i h, transmute-two_pow b i h)

pub new_unchecked-two_pow :
    (b : Build) (i : ℕ) → IsIndex b i → new_unchecked b (2 ^ i) ≡ returns (align_at i)
unfolding new_unchecked
new_unchecked-two_pow b i h =
    rw (assert_unchecked-true b (is_power_of_two-true b i h)) (transmute-two_pow b i h)

pub get_lem : (b : Build) (a : Align) → IsAlign b a → get b a ≡ returns (2 ^ a.repr.index)
unfolding get
get_lem b a h = rw (
  align_discriminant_lem b a.repr.index h,
  nonzero_unchecked-pos (2 ^ a.repr.index) (one-le-two_pow a.repr.index),
  assert_unchecked-true b (is_power_of_two-true b a.repr.index h),
)

-- What a constructor makes of a word: an alignment whose value is that word, for a power of two, and
-- nothing for any other.
abbrev pub Accepts : Build → ℕ → Outcome (Option Align) → Type 0
Accepts b n made =
    ((a : Align) × IsAlign b a
      × (made ≡ returns (some a))
      × (get b a ≡ returns n)
      × (n ≡ 2 ^ a.repr.index))
    ⊎ (((i : ℕ) → n ≢ 2 ^ i) × (made ≡ returns none))

not-two_pow :
    (b : Build) (n : ℕ) → n < 2 ^ bits b → is_power_of_two (bits b) n ≡ false → (i : ℕ) → n ≢ 2 ^ i
not-two_pow b n h e i at = elim (dec_lt i (bits b)) [
  | yes below ↦ let t = (is_power_of_two_iff (bits b) n h).1 (i, below, at) in cc
  | no above ↦ omega (arith, two_pow_le (bits b) i (omega arith))
]

-- `Align::new` accepts exactly the powers of two, for every word, and its result has that word as
-- its value. It neither panics nor reaches undefined behaviour.
pub new-Accepts : (b : Build) (n : ℕ) → n < 2 ^ bits b → Accepts b n (new b n)
new-Accepts b n h = elim (Bool-cases (is_power_of_two (bits b) n)) [
  | inl t ↦
      let (i, below, at) = (is_power_of_two_iff (bits b) n h).0 t in
      inl (
        align_at i,
        below,
        ap (new b) at ∙ new-two_pow b i below,
        get_lem b (align_at i) below ∙ ap returns (sym at),
        at,
      )
  | inr f ↦ inr (not-two_pow b n h f, unfold new in rw f)
]

-- `get` and `new` are inverse: the value of an alignment is made into that alignment.
pub new-get : (b : Build) (a : Align) → IsAlign b a → (get b a >>= new b) ≡ returns (some a)
new-get b a h = rw (get_lem b a h) (new-two_pow b a.repr.index h)
