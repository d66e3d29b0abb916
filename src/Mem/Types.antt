-- ===== src/Mem/Types.antt =====
-- crates/core/src/mem/align.rs: the alignments of types and values, `AlignError`, and `Default`. What
-- `align_of` and `align_of_val` answer is a parameter.
use Prim.Native.String.{String}
use gulf.Prelude.{ℕ, ◌^◌, ◌<◌, ◌≡◌, ap, ◌∙◌, Bool}
use gulf.Outcome.{Outcome, returns}
use gulf.Hint.{Build, bits}
use gulf.Mem.Align.{Align, IsAlign, new_unchecked, get}
use gulf.Mem.Align.Values.{align_at, new_unchecked-two_pow, get_lem}
use gulf.Mem.Convert.{AlignError, align_error}

-- `Align::of`, with the answer of `align_of::<T>()`.
unfoldable pub of : Build → ℕ → Outcome Align
unfolding new_unchecked
of b align_of = new_unchecked b align_of

-- `Align::of_val`, with what `align_of_val` answers for each value.
unfoldable pub of_val {ℓ} : {T : Type ℓ} → Build → (T → ℕ) → T → Outcome Align
unfolding new_unchecked
of_val b align_of_val val = new_unchecked b (align_of_val val)

-- `From<NotPowerOfTwo>`, whose argument holds nothing.
unfoldable pub from_not_power_of_two : Unit {0} → AlignError
from_not_power_of_two e = align_error

-- `From<Infallible>`, which has no argument to be given.
unfoldable pub from_infallible : ⊥ → AlignError
from_infallible value = absurd value

-- `Error::description`.
unfoldable pub description : AlignError → String
description align_error = "could not create an `Align`"

-- `Display`, over the formatter's `write_str`.
unfoldable pub display : {S : Type 0} → (String → S → Bool × S) → AlignError → S → Bool × S
unfolding description
display write_str e s = write_str (description e) s

-- An alignment of a type, as the documentation of `align_of` has it: a power of two that a `usize` holds.
abbrev pub IsTypeAlign : Build → ℕ → Type 0
IsTypeAlign b n = (i : ℕ) × (i < bits b) × (n ≡ 2 ^ i)

-- Where the compiler answers with a power of two that a `usize` holds, `of` and `of_val` make the alignment of
-- exactly that value, and are never undefined.
pub of-get {ℓ} :
    {T : Type ℓ} (b : Build) (align_of_val : T → ℕ) (val : T)
    → IsTypeAlign b (align_of_val val)
    → (a : Align) × IsAlign b a
      × (of b (align_of_val val) ≡ returns a)
      × (of_val b align_of_val val ≡ returns a)
      × (get b a ≡ returns (align_of_val val))
unfolding of of_val
of-get b align_of_val val (i, below, at) =
    let made = ap (new_unchecked b) at ∙ new_unchecked-two_pow b i below in
    (align_at i, below, made, made, get_lem b (align_at i) below ∙ rw at)
