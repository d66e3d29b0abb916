-- ===== src/Platform/AtomicFd/Access.antt =====
-- What is done to an `AtomicFd` through a reference to its value.
use gulf.Prelude.{◌≡◌, refl, ap, Bool-cases, inl, inr, Option, some}
use gulf.Prelude.Int.{is_minus_one, is_minus_one_iff}
use gulf.Platform.AtomicFd.{
  OwnedFd, IsOwnedOption, AtomicFd, new, into_inner, swap, get_mut, from_option, into_option,
  from_owned, debug, as_raw_fd,
}
use gulf.Platform.AtomicFd.Refinement.{of_bits-to_bits}

-- `Option::replace` through the reference is `swap`.
pub get_mut-swap : (a : AtomicFd) (fd : Option OwnedFd) → get_mut a (λ old. (old, fd)) ≡ swap a fd
unfolding get_mut swap
get_mut-swap a fd = refl

-- On a cell made of an optional descriptor, a reference to the value does what it does to that value, and
-- the cell is then the one made of what is left.
pub get_mut-new :
    {R : Type 0} (o : Option OwnedFd) (f : Option OwnedFd → R × Option OwnedFd)
    → IsOwnedOption o
    → get_mut (from_option o) f ≡ ((f o).0, from_option (f o).1)
unfolding get_mut from_option new
get_mut-new o f h = ap (λ t. ((f t).0, from_option (f t).1)) (of_bits-to_bits o h)

-- A descriptor that is converted into a cell is what the cell is converted into and what `Debug` shows.
pub from_owned-into_option :
    (fd : OwnedFd)
    → IsOwnedOption (some fd)
    → (into_option (from_owned fd) ≡ some fd) × (debug (from_owned fd) ≡ some fd.raw)
unfolding into_option from_owned new into_inner debug as_raw_fd
from_owned-into_option fd h = elim (Bool-cases (is_minus_one fd.raw)) [
  | inl t ↦ absurd (h ((is_minus_one_iff fd.raw).0 t))
  | inr f ↦ (rw f, rw f)
]
