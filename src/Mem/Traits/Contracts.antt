-- ===== src/Mem/Traits/Contracts.antt =====
-- What the traits of `Align` promise to hash maps and to sorted collections.
use Prim.Native.Nat.{compare as number_compare}
use gulf.Prelude.{
  ℕ, ◌^◌, ◌<◌, ◌≡◌, refl, sym, ap, ◌∙◌, ◌↔◌, Bool, true, some, ◌==◌, ==_comm, reverse,
  compare-reverse, compare-two_pow, two_pow-injective, Ordering, arith,
}
use gulf.Outcome.{returns, ok}
use gulf.Hint.{Build, bits}
use gulf.Mem.Align.{Align, IsAlign, get, get_nonzero}
use gulf.Mem.Align.Values.{get_lem}
use gulf.Mem.Align.Order.{compare-index}
use gulf.Mem.Convert.{
  eq_usize, partial_cmp_usize, as_ref-get, try_from_usize, try_from_usize-eq_usize,
}
use gulf.Mem.Traits.{
  cmp, hash, eq_nonzero, partial_cmp_nonzero, usize_eq, usize_partial_cmp, nonzero_eq,
  nonzero_partial_cmp, borrow,
}

abbrev value : Align → ℕ
value a = 2 ^ a.repr.index

value-injective : (a c : Align) → value a ≡ value c → a ≡ c
value-injective a c e =
    let same : a.repr.index ≡ c.repr.index = two_pow-injective a.repr.index c.repr.index e in
    ap (λ i. record { repr = record { index = i } }) same

borrow_lem : (b : Build) (a : Align) → IsAlign b a → borrow b a ≡ returns (value a)
unfolding borrow
borrow_lem b a h = as_ref-get b a h ∙ get_lem b a h

-- What `Borrow` promises: the borrowed numbers compare, are equal and hash as the alignments do.
abbrev pub Borrows : {H : Type 0} → (ℕ → H → H) → Build → Align → Align → H → Type 0
Borrows write_usize b a c state =
    (v : ℕ) × (w : ℕ) × (borrow b a ≡ returns v)
    × (borrow b c ≡ returns w)
    × (cmp b a c ≡ returns (number_compare v w))
    × ((a ≡ c) ↔ (v ≡ w))
    × (hash write_usize b a state ≡ returns (write_usize v state))

-- `Borrow<usize>` keeps its contract: two alignments compare as the numbers that they are borrowed as,
-- are equal exactly where those are, and each gives a hasher what its number would give it.
pub borrow-Borrows :
    {H : Type 0} (write_usize : ℕ → H → H) (b : Build) (a c : Align) (state : H)
    → IsAlign b a
    → IsAlign b c
    → Borrows write_usize b a c state
unfolding cmp hash
borrow-Borrows write_usize b a c state ha hc = (
  value a,
  value c,
  borrow_lem b a ha,
  borrow_lem b c hc,
  compare-index b a c ha hc ∙ ap returns (sym (compare-two_pow a.repr.index c.repr.index)),
  (λ e. ap value e, λ e. value-injective a c e),
  rw (get_lem b a ha) refl,
)

-- The six comparisons of an alignment with a number, and of a number with an alignment.
abbrev pub Mirrors : Build → Align → ℕ → Type 0
Mirrors b a n =
    (equal : Bool) × (order : Ordering) × ((equal ≡ true) ↔ (order ≡ Ordering.eq))
    × (eq_usize b a n ≡ returns equal)
    × (usize_eq b n a ≡ returns equal)
    × (eq_nonzero b a n ≡ returns equal)
    × (nonzero_eq b n a ≡ returns equal)
    × (partial_cmp_usize b a n ≡ returns (some order))
    × (usize_partial_cmp b n a ≡ returns (some (reverse order)))
    × (partial_cmp_nonzero b a n ≡ returns (some order))
    × (nonzero_partial_cmp b n a ≡ returns (some (reverse order)))
    × ((equal ≡ true) ↔ (try_from_usize b n ≡ returns (ok a)))

-- For every alignment and number, the comparisons of one with the other, as `usize` or as `NonZero`, in
-- both directions, return: the equalities agree with each other, the orders are the same or, the other
-- way round, reversed, and are `Equal` exactly where the two are equal; and they are equal exactly where
-- `try_from` makes the alignment of the number.
pub comparisons-Mirrors :
    (b : Build) (a : Align) (n : ℕ) → IsAlign b a → n < 2 ^ bits b → Mirrors b a n
unfolding eq_usize usize_eq eq_nonzero nonzero_eq partial_cmp_usize usize_partial_cmp
    partial_cmp_nonzero nonzero_partial_cmp get
comparisons-Mirrors b a n h word =
    let (there, back) = try_from_usize-eq_usize b a n h word in
    let read : get_nonzero b a ≡ returns (value a) = get_lem b a h in
    let equality : eq_usize b a n ≡ returns (value a == n) = rw read refl in
    let turned : (n == value a) ≡ (value a == n) = ==_comm n (value a) in
    let reversed : number_compare n (value a) ≡ reverse (number_compare (value a) n) =
      sym (compare-reverse (value a) n) in
    (
      (value a == n),
      number_compare (value a) n,
      ground arith,
      rw read refl,
      rw (read, turned) refl,
      rw read refl,
      rw (read, turned) refl,
      rw read refl,
      rw (read, reversed) refl,
      rw read refl,
      rw (read, reversed) refl,
      (λ e. back (equality ∙ ap returns e), λ e. cc (equality, there e)),
    )
