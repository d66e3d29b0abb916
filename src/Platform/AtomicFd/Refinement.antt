-- ===== src/Platform/AtomicFd/Refinement.antt =====
-- An `AtomicFd` against the `Option<OwnedFd>` that it is made of.
use gulf.Prelude.{
  zero, suc, ◌≡◌, refl, ap, ap₂, Bool-cases, inl, inr, Bool, true, false, not, Option, none, some,
  List, [], ◌∷◌, ◌++◌,
}
use gulf.Prelude.Int.{ℤ, pos, negsuc, minus_one, is_minus_one, is_minus_one_iff}
use gulf.Outcome.{ok_or}
use gulf.Platform.Errno.{ebadf}
use gulf.Platform.AtomicFd.{
  OwnedFd, IsOwned, IsOwnedOption, to_bits, of_bits, AtomicFd, new, into_inner, swap, is_some,
  is_none, load_borrowed, drop, closes, from_raw_fd, into_raw_fd, try_into_owned, load_raw,
  as_raw_fd, into_option, debug, get_mut, as_mut,
}
use mathlib.Core.Option

pub of_bits-to_bits : (o : Option OwnedFd) → IsOwnedOption o → of_bits (to_bits o) ≡ o
of_bits-to_bits none h = refl
of_bits-to_bits (some fd) h = elim (Bool-cases (is_minus_one fd.raw)) [
  | inl t ↦ absurd (h ((is_minus_one_iff fd.raw).0 t))
  | inr f ↦ rw f
]

pub to_bits-of_bits : (x : ℤ) → to_bits (of_bits x) ≡ x
to_bits-of_bits (pos n) = refl
to_bits-of_bits (negsuc zero) = refl
to_bits-of_bits (negsuc (suc n)) = refl

pub not_minus_one : (fd : OwnedFd) → IsOwned fd → is_minus_one fd.raw ≡ false
not_minus_one fd h = elim (Bool-cases (is_minus_one fd.raw)) [
  | inl t ↦ absurd (h ((is_minus_one_iff fd.raw).0 t))
  | inr f ↦ f
]

-- What the swaps of a list of values return, and the cell after them.
abbrev pub swaps : AtomicFd → List (Option OwnedFd) → List (Option OwnedFd) × AtomicFd
swaps a [] = ([], a)
swaps a (o ∷ os) =
    let (old, next) = swap a o in let (olds, last) = swaps next os in (old ∷ olds, last)

abbrev pub AllOwned : List (Option OwnedFd) → Type 0
AllOwned [] = Unit
AllOwned (o ∷ os) = IsOwnedOption o × AllOwned os

-- No swap loses a descriptor or makes one up: what a row of swaps returns, with what the cell holds
-- after them at the end, is what it was made with, followed by what the swaps put in.
pub swaps-conserve :
    (o : Option OwnedFd) (os : List (Option OwnedFd))
    → IsOwnedOption o
    → AllOwned os
    → (swaps (new o) os).0 ++ into_inner (swaps (new o) os).1 ∷ [] ≡ o ∷ os
unfolding swap into_inner new
swaps-conserve o [] h all = ap (λ t. t ∷ []) (of_bits-to_bits o h)
swaps-conserve o (p ∷ os) h all = ap₂ ◌∷◌ (of_bits-to_bits o h) (swaps-conserve p os all.0 all.1)

-- A raw descriptor goes through an `AtomicFd` unchanged, for every bit pattern, and the cell answers
-- `is_some` exactly where the pattern is not -1.
pub into_raw_fd-from_raw_fd :
    (x : ℤ) → (into_raw_fd (from_raw_fd x) ≡ x) × (is_some (from_raw_fd x) ≡ not (is_minus_one x))
unfolding into_raw_fd from_raw_fd is_some
into_raw_fd-from_raw_fd (pos n) = (refl, refl)
into_raw_fd-from_raw_fd (negsuc zero) = (refl, refl)
into_raw_fd-from_raw_fd (negsuc (suc n)) = (refl, refl)

-- The raw descriptor of a value, or -1, and whether there is one.
abbrev raw_of : Option OwnedFd → ℤ
raw_of none = minus_one
raw_of (some fd) = fd.raw

abbrev has_fd : Option OwnedFd → Bool
has_fd none = false
has_fd (some fd) = true

-- What every method that reads a cell, or takes what is in it, makes of a cell that shows a value.
pub record Observed {R : Type 0} (a : AtomicFd) (o : Option OwnedFd)
    (f : Option OwnedFd → R × Option OwnedFd) : Type 0 where
  loaded_raw : load_raw a ≡ raw_of o
  raw_fd : as_raw_fd a ≡ raw_of o
  borrowed : load_borrowed a ≡ o
  answers_some : is_some a ≡ has_fd o
  answers_none : is_none a ≡ not (has_fd o)
  inner : into_inner a ≡ o
  option : into_option a ≡ o
  taken_raw : into_raw_fd a ≡ raw_of o
  owned : try_into_owned a ≡ ok_or o ebadf
  dropped : drop a ≡ closes o
  shown : debug a ≡ Option.map OwnedFd.raw o
  -- What is done with the reference is done with the value, and the cell is that of the value left.
  changed : get_mut a f ≡ ((f o).0, new (f o).1)
  changed_by_as_mut : as_mut a f ≡ ((f o).0, new (f o).1)
  swapped : (swap a (f o).1) ≡ (o, new (f o).1)

pub new-Observed :
    {R : Type 0} (o : Option OwnedFd) (f : Option OwnedFd → R × Option OwnedFd)
    → IsOwnedOption o
    → Observed (new o) o f
unfolding new load_raw as_raw_fd load_borrowed is_some is_none into_inner into_option into_raw_fd
    try_into_owned drop debug get_mut as_mut swap
new-Observed none f h = record {
  loaded_raw = refl;
  raw_fd = refl;
  borrowed = refl;
  answers_some = refl;
  answers_none = refl;
  inner = refl;
  option = refl;
  taken_raw = refl;
  owned = refl;
  dropped = refl;
  shown = refl;
  changed = refl;
  changed_by_as_mut = refl;
  swapped = refl;
}
new-Observed (some fd) f h =
    let full : is_minus_one fd.raw ≡ false = not_minus_one fd h in
    record {
      loaded_raw = refl;
      raw_fd = refl;
      borrowed = rw full refl;
      answers_some = rw full refl;
      answers_none = rw full refl;
      inner = rw full refl;
      option = rw full refl;
      taken_raw = rw full refl;
      owned = rw full refl;
      dropped = rw full refl;
      shown = rw full refl;
      changed = rw full refl;
      changed_by_as_mut = rw full refl;
      swapped = rw full refl;
    }

-- Every method that reads a cell or takes what is in it, on a cell made of an optional descriptor, shows
-- that value: `load_raw`, `as_raw_fd`, `into_raw_fd` and `Debug` its raw descriptor, `load_borrowed`,
-- `into_inner`, `Option::from` and `swap` the value, `is_some` and `is_none` whether there is one,
-- `try_from` the descriptor or `EBADF`, `get_mut` and `as_mut` the value and what is left of it, and
-- `drop` closes it and no other. A cell made of a raw descriptor gives it back, for every bit pattern,
-- and answers `is_some` exactly where it is not -1.
pub cell-Observed :
    {R : Type 0} (o : Option OwnedFd) (f : Option OwnedFd → R × Option OwnedFd) (x : ℤ)
    → IsOwnedOption o
    → Observed (new o) o f
      × (into_raw_fd (from_raw_fd x) ≡ x)
      × (is_some (from_raw_fd x) ≡ not (is_minus_one x))
cell-Observed o f x h =
    let (same, some_iff) = into_raw_fd-from_raw_fd x in (new-Observed o f h, same, some_iff)
