-- ===== src/Mem/Repr.antt =====
-- crates/core/src/mem/layout_private.rs: the enums that `define!` and `generate!` make, and what
-- `mem::transmute` of a `usize` to one of them does. An enum of `w` variants is the index of the
-- variant, below `w`.
pub mod Variants
use gulf.Prelude.{ℕ, zero, suc, ◌-◌, ◌*◌, ◌%◌, ◌^◌, ◌<◌, Option, none, some, ◌==◌, if◌then◌else◌}
use gulf.Word.{complement}
use gulf.Outcome.{Outcome, returns, undefined}
use gulf.Hint.{Build, bits}

pub record AlignRepr : Type 0 where
  pub index : ℕ

pub record MaskRepr : Type 0 where
  pub index : ℕ

-- The variants of both enums are those of `Index`.
abbrev pub IsIndex : Build → ℕ → Type 0
IsIndex b i = i < bits b

-- `AlignRepr::X as usize`, `1 << X`.
abbrev pub align_discriminant : Build → ℕ → ℕ
align_discriminant b i = 1 * 2 ^ i % 2 ^ bits b

-- `MaskRepr::X as usize`, `!(AlignRepr::X - 1)`.
abbrev pub mask_discriminant : Build → ℕ → ℕ
mask_discriminant b i = complement (bits b) (align_discriminant b i - 1)

abbrev pub align_repr_min : AlignRepr
align_repr_min = record { index = 0 }

abbrev pub align_repr_max : Build → AlignRepr
align_repr_max b = record { index = bits b - 1 }

abbrev pub mask_repr_min : Build → MaskRepr
mask_repr_min b = record { index = bits b - 1 }

abbrev pub mask_repr_max : MaskRepr
mask_repr_max = record { index = 0 }

-- The variant, among the first `n`, whose discriminant is `v`.
unfoldable pub find_variant : (ℕ → ℕ) → ℕ → ℕ → Option ℕ
find_variant d zero v = none
find_variant d (suc n) v = if d n == v then some n else find_variant d n v

-- A bit pattern that is no discriminant is undefined behaviour.
abbrev pub known_variant : Option ℕ → Outcome ℕ
known_variant none = undefined
known_variant (some i) = returns i

unfoldable pub transmute_index : Build → (ℕ → ℕ) → ℕ → Outcome ℕ
unfolding find_variant
transmute_index b d v = known_variant (find_variant d (bits b) v)
