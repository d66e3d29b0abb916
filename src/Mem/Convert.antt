-- ===== src/Mem/Convert.antt =====
-- The trait implementations of align.rs: conversions between `Align` and numbers, addresses, masks
-- and layouts, and comparisons with numbers.
use Prim.Native.Nat.{compare as number_compare}
use gulf.Prelude.{
  ℕ, ◌^◌, ◌<◌, ◌≡◌, ap, ◌∙◌, inl, inr, ◌↔◌, Bool, true, Option, some, ◌==◌, ==_iff, Ordering, sym,
}
use gulf.Outcome.{Outcome, returns, Result, ok, ok_or, ◌>>=◌}
use gulf.Hint.{Build, bits}
use gulf.Mem.Repr.{align_discriminant}
use gulf.Mem.Repr.Variants.{align_discriminant_lem}
use gulf.Mem.Align.{
  Align, IsAlign, align_min, new, new_unchecked, from_nonzero, from_addr_nonzero, from_addr, get,
  get_nonzero, compare,
}
use gulf.Mem.Align.Values.{new-Accepts, get_lem, new-two_pow, new_unchecked-two_pow}
use gulf.Mem.Align.Addr.{from_addr_nonzero-get}

pub data AlignError : Type 0 where
  align_error : AlignError

-- `TryFrom<usize>` and `TryFrom<NonZero<usize>>`.
unfoldable pub try_from_usize : Build → ℕ → Outcome (Result Align AlignError)
unfolding new
try_from_usize b align = do found ← new b align; returns (ok_or found align_error)

unfoldable pub try_from_nonzero : Build → ℕ → Outcome (Result Align AlignError)
unfolding from_nonzero
try_from_nonzero b align = do found ← from_nonzero b align; returns (ok_or found align_error)

-- `From<NonNull<T>>` and `TryFrom<*const T>`: of the pointer's address.
unfoldable pub from_nonnull : Build → ℕ → Outcome Align
unfolding from_addr_nonzero
from_nonnull b addr = from_addr_nonzero b addr

unfoldable pub try_from_pointer : Build → ℕ → Outcome (Result Align AlignError)
unfolding from_addr
try_from_pointer b addr = do found ← from_addr b addr; returns (ok_or found align_error)

-- `Align::dangling`, and `From<Align>` for `NonNull<T>` and the raw pointers: the address.
unfoldable pub dangling : Build → Align → Outcome ℕ
unfolding get_nonzero
dangling b a = get_nonzero b a

-- `Default`.
abbrev pub default : Align
default = align_min

-- `PartialEq<usize>` and `PartialOrd<usize>`.
unfoldable pub eq_usize : Build → Align → ℕ → Outcome Bool
unfolding get
eq_usize b a other = do align ← get b a; returns (align == other)

unfoldable pub partial_cmp_usize : Build → Align → ℕ → Outcome (Option Ordering)
unfolding get
partial_cmp_usize b a other = do align ← get b a; returns (some (number_compare align other))

-- `PartialOrd`, over `compare`.
unfoldable pub partial_cmp : Build → Align → Align → Outcome (Option Ordering)
unfolding compare
partial_cmp b a other = do order ← compare b a other; returns (some order)

-- `AsRef<usize>`: the bits of the alignment, with `new_unchecked` as a hint.
unfoldable pub as_ref : Build → Align → Outcome ℕ
unfolding new_unchecked
as_ref b a = do
  let this = align_discriminant b a.repr.index
  hint ← new_unchecked b this
  returns this

eq_usize_lem :
    (b : Build) (a : Align) (n : ℕ) → IsAlign b a → eq_usize b a n ≡ returns (2 ^ a.repr.index == n)
unfolding eq_usize
eq_usize_lem b a n h = rw (get_lem b a h)

pub try_from_usize-new :
    (b : Build) (n : ℕ) {o : Option Align}
    → new b n ≡ returns o
    → try_from_usize b n ≡ returns (ok_or o align_error)
unfolding try_from_usize
try_from_usize-new b n e = rw e

-- `try_from` on a number and the equality with a number agree: for every word and alignment, the
-- conversion of the word yields the alignment exactly when `==` says that they are equal.
pub try_from_usize-eq_usize :
    (b : Build) (a : Align) (n : ℕ)
    → IsAlign b a
    → n < 2 ^ bits b
    → (try_from_usize b n ≡ returns (ok a)) ↔ (eq_usize b a n ≡ returns true)
try_from_usize-eq_usize b a n h hn = (there, back)
  where
    there : try_from_usize b n ≡ returns (ok a) → eq_usize b a n ≡ returns true
    there e = elim (new-Accepts b n hn) [
      | inl (c, _, made, value, _) ↦
          let same : c ≡ a = cc (try_from_usize-new b n made) in
          let at : 2 ^ a.repr.index ≡ n = cc (get_lem b a h) in
          eq_usize_lem b a n h ∙ ap returns ((==_iff _ n).1 at)
      | inr (_, made) ↦ cc (try_from_usize-new b n made)
    ]

    back : eq_usize b a n ≡ returns true → try_from_usize b n ≡ returns (ok a)
    back e =
        let test : (2 ^ a.repr.index == n) ≡ true = cc (eq_usize_lem b a n h) in
        let at = (==_iff (2 ^ a.repr.index) n).0 test in
        let made : new b n ≡ returns (some a) =
          ap (new b) (sym at) ∙ new-two_pow b a.repr.index h in
        try_from_usize-new b n made

-- A dangling pointer for an alignment converts back to that alignment.
pub from_nonnull-dangling :
    (b : Build) (a : Align) → IsAlign b a → (dangling b a >>= from_nonnull b) ≡ returns a
unfolding dangling from_nonnull get
from_nonnull-dangling b a h = from_addr_nonzero-get b a h

-- The hint in `as_ref` is sound, and the reference reads the alignment's value.
pub as_ref-get : (b : Build) (a : Align) → IsAlign b a → as_ref b a ≡ get b a
unfolding as_ref
as_ref-get b a h =
    rw (
      align_discriminant_lem b a.repr.index h,
      get_lem b a h,
      new_unchecked-two_pow b a.repr.index h,
    )
