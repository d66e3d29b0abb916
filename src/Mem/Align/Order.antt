-- ===== src/Mem/Align/Order.antt =====
-- Comparing alignments.
use Prim.Native.Nat.{compare as number_compare}
use gulf.Prelude.{ℕ, ◌^◌, ◌≡◌, some, none, arith, compare-two_pow, leb, ltb, if◌then◌else◌}
use gulf.Outcome.{returns, panics}
use gulf.Hint.{Build}
use gulf.Mem.Private
use gulf.Mem.Private.Order.{compare_lem, min_lem, max_lem}
use gulf.Mem.Align.{Align, IsAlign, compare, min, max, clamp, ord_clamp}
use gulf.Mem.Align.Values.{get_lem, new_unchecked-two_pow}

-- The tests on two alignments' values are those on their exponents.
leb-two_pow : (i j : ℕ) → leb (2 ^ i) (2 ^ j) ≡ leb i j
leb-two_pow i j = ground (arith, compare-two_pow i j)

ltb-two_pow : (i j : ℕ) → ltb (2 ^ i) (2 ^ j) ≡ ltb i j
ltb-two_pow i j = ground (arith, compare-two_pow i j)

module _ (b : Build) (a c : Align) (ha : IsAlign b a) (hc : IsAlign b c) where
  -- `compare` on two alignments compares their exponents.
  pub compare-index : compare b a c ≡ returns (number_compare a.repr.index c.repr.index)
  unfolding compare
  compare-index = rw (
    get_lem b a ha,
    get_lem b c hc,
    compare_lem (2 ^ a.repr.index) (2 ^ c.repr.index),
    compare-two_pow a.repr.index c.repr.index,
  )

  -- The least of two alignments is the one with the least exponent.
  pub min-index : min b a c ≡ returns (if leb a.repr.index c.repr.index then a else c)
  unfolding min
  min-index =
      rw
        (
          get_lem b a ha,
          get_lem b c hc,
          min_lem (2 ^ a.repr.index) (2 ^ c.repr.index),
          leb-two_pow a.repr.index c.repr.index,
        )
        (ground
          (arith, new_unchecked-two_pow b a.repr.index ha, new_unchecked-two_pow b c.repr.index hc))

  -- The greatest of two alignments is the one with the greatest exponent.
  pub max-index : max b a c ≡ returns (if leb a.repr.index c.repr.index then c else a)
  unfolding max
  max-index =
      rw
        (
          get_lem b a ha,
          get_lem b c hc,
          max_lem (2 ^ a.repr.index) (2 ^ c.repr.index),
          leb-two_pow a.repr.index c.repr.index,
        )
        (ground
          (arith, new_unchecked-two_pow b a.repr.index ha, new_unchecked-two_pow b c.repr.index hc))

-- The alignment of a range that is nearest to another, by exponent.
abbrev pub nearest : Align → Align → Align → Align
nearest a lo hi =
    if ltb a.repr.index lo.repr.index then lo else if ltb hi.repr.index a.repr.index then hi else a

module _ (b : Build) (a lo hi : Align) (ha : IsAlign b a) (hl : IsAlign b lo)
    (hh : IsAlign b hi) where
  -- `clamp` gives the alignment of the range that is nearest by exponent, and nothing where the range
  -- is empty.
  pub clamp-nearest :
      clamp b a lo hi
      ≡ returns (if leb lo.repr.index hi.repr.index then some (nearest a lo hi) else none)
  unfolding clamp Private.clamp
  clamp-nearest =
      rw
        (
          get_lem b a ha,
          get_lem b lo hl,
          get_lem b hi hh,
          leb-two_pow lo.repr.index hi.repr.index,
          ltb-two_pow a.repr.index lo.repr.index,
          ltb-two_pow hi.repr.index a.repr.index,
        )
        (ground (
          arith,
          new_unchecked-two_pow b a.repr.index ha,
          new_unchecked-two_pow b lo.repr.index hl,
          new_unchecked-two_pow b hi.repr.index hh,
        ))

  -- `Ord::clamp` gives the alignment of the range that is nearest by exponent, and panics where the
  -- range is empty.
  pub ord_clamp-nearest :
      ord_clamp b a lo hi
      ≡ (if leb lo.repr.index hi.repr.index then returns (nearest a lo hi) else panics)
  unfolding ord_clamp
  ord_clamp-nearest = rw clamp-nearest (ground arith)

-- The least, the greatest and the nearest of alignments by their exponents.
abbrev pub Orders : Build → Align → Align → Align → Type 0
Orders b a lo hi =
    (compare b a lo ≡ returns (number_compare a.repr.index lo.repr.index))
    × (min b a lo ≡ returns (if leb a.repr.index lo.repr.index then a else lo))
    × (max b a lo ≡ returns (if leb a.repr.index lo.repr.index then lo else a))
    × (clamp b a lo hi
        ≡ returns (if leb lo.repr.index hi.repr.index then some (nearest a lo hi) else none))
    × (ord_clamp b a lo hi
        ≡ (if leb lo.repr.index hi.repr.index then returns (nearest a lo hi) else panics))

-- `compare`, `min` and `max` go by the exponents of alignments; `clamp` gives the alignment of the range
-- that is nearest by exponent and nothing where the range is empty, and `Ord::clamp` gives the same or
-- panics there.
pub order-Orders :
    (b : Build) (a lo hi : Align) → IsAlign b a → IsAlign b lo → IsAlign b hi → Orders b a lo hi
order-Orders b a lo hi ha hl hh = (
  compare-index b a lo ha hl,
  min-index b a lo ha hl,
  max-index b a lo ha hl,
  clamp-nearest b a lo hi ha hl hh,
  ord_clamp-nearest b a lo hi ha hl hh,
)
