-- ===== src/Mem/Traits.antt =====
-- crates/core/src/mem/align.rs: the trait implementations of `Align` that go through its accessors:
-- conversions, borrows, hashing, `Ord`, and the comparisons with numbers in both directions.
pub mod Contracts
use Prim.Native.Nat.{compare as number_compare}
use gulf.Prelude.{ℕ, Option, some, List, map, Bool, ◌==◌, Ordering}
use gulf.Outcome.{Outcome, returns, Result, ok_or, ◌>>=◌}
use gulf.Hint.{Build}
use gulf.Mem.Repr.{align_discriminant}
use gulf.Mem.Align.{
  Align, get, get_nonzero, from_addr, compare, new_unchecked, from_nonzero_unchecked,
}
use gulf.Mem.Align
use gulf.Mem.Mask.{Mask}
use gulf.Mem.Mask
use gulf.Mem.Layout.{Layout, from_layout}
use gulf.Mem.Convert.{AlignError, align_error, dangling}
use gulf.Mem.Convert

-- `From<Align>` for numbers and pointers, which are their addresses.
unfoldable pub into_nonzero : Build → Align → Outcome ℕ
unfolding get_nonzero
into_nonzero b a = get_nonzero b a

unfoldable pub into_usize : Build → Align → Outcome ℕ
unfolding get
into_usize b a = get b a

unfoldable pub into_nonnull : Build → Align → Outcome ℕ
unfolding dangling
into_nonnull b a = dangling b a

unfoldable pub into_const_pointer : Build → Align → Outcome ℕ
unfolding dangling
into_const_pointer b a = dangling b a

unfoldable pub into_mut_pointer : Build → Align → Outcome ℕ
unfolding dangling
into_mut_pointer b a = dangling b a

-- `From<Mask>`, `From<Layout>` and `TryFrom<*mut T>`.
unfoldable pub from_mask : Build → Mask → Outcome Align
unfolding Mask.align
from_mask b m = Mask.align b m

unfoldable pub of_layout : Build → Layout → Outcome Align
unfolding from_layout
of_layout b l = from_layout b l

unfoldable pub try_from_mut_pointer : Build → ℕ → Outcome (Result Align AlignError)
unfolding from_addr
try_from_mut_pointer b addr = do found ← from_addr b addr; returns (ok_or found align_error)

-- `Ord`.
unfoldable pub cmp : Build → Align → Align → Outcome Ordering
unfolding compare
cmp b a other = compare b a other

unfoldable pub ord_max : Build → Align → Align → Outcome Align
unfolding Align.max
ord_max b a other = Align.max b a other

unfoldable pub ord_min : Build → Align → Align → Outcome Align
unfolding Align.min
ord_min b a other = Align.min b a other

-- `Hash`: the hasher's `write_usize`, and `usize::hash_slice` for the bits of the alignments.
module _ {H : Type 0} where
  unfoldable pub hash : (ℕ → H → H) → Build → Align → H → Outcome H
  unfolding get
  hash write_usize b a state = do align ← get b a; returns (write_usize align state)

  unfoldable pub hash_slice : (List ℕ → H → H) → Build → List Align → H → H
  hash_slice hash_usizes b aligns state =
      hash_usizes (map (λ a. align_discriminant b a.repr.index) aligns) state

-- What `Debug` writes: the value and the exponent.
unfoldable pub debug : Build → Align → Outcome (ℕ × ℕ)
unfolding get Align.log2
debug b a = do align ← get b a; exponent ← Align.log2 b a; returns (align, exponent)

-- `PartialEq` and `PartialOrd` between alignments and numbers.
unfoldable pub eq_nonzero : Build → Align → ℕ → Outcome Bool
unfolding get_nonzero
eq_nonzero b a other = do align ← get_nonzero b a; returns (align == other)

unfoldable pub partial_cmp_nonzero : Build → Align → ℕ → Outcome (Option Ordering)
unfolding get_nonzero
partial_cmp_nonzero b a other = do
  align ← get_nonzero b a
  returns (some (number_compare align other))

unfoldable pub usize_eq : Build → ℕ → Align → Outcome Bool
unfolding get
usize_eq b n other = do align ← get b other; returns (n == align)

unfoldable pub usize_partial_cmp : Build → ℕ → Align → Outcome (Option Ordering)
unfolding get
usize_partial_cmp b n other = do align ← get b other; returns (some (number_compare n align))

unfoldable pub nonzero_eq : Build → ℕ → Align → Outcome Bool
unfolding get_nonzero
nonzero_eq b n other = do align ← get_nonzero b other; returns (n == align)

unfoldable pub nonzero_partial_cmp : Build → ℕ → Align → Outcome (Option Ordering)
unfolding get_nonzero
nonzero_partial_cmp b n other = do
  align ← get_nonzero b other
  returns (some (number_compare n align))

-- `AsRef<NonZero<usize>>`: the bits, with `from_nonzero_unchecked` as a hint. `Borrow` is `AsRef`.
unfoldable pub as_ref_nonzero : Build → Align → Outcome ℕ
unfolding from_nonzero_unchecked
as_ref_nonzero b a = do
  let this = align_discriminant b a.repr.index
  hint ← from_nonzero_unchecked b this
  returns this

unfoldable pub borrow : Build → Align → Outcome ℕ
unfolding Convert.as_ref
borrow b a = Convert.as_ref b a

unfoldable pub borrow_nonzero : Build → Align → Outcome ℕ
unfolding as_ref_nonzero
borrow_nonzero b a = as_ref_nonzero b a
