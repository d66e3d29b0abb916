-- ===== src/Mem/Align/Addr.antt =====
-- The alignment that `Align` reads off a memory address.
use gulf.Prelude.{
  ℕ, zero, suc, ◌+◌, ◌*◌, ◌^◌, ◌≤◌, ◌<◌, ◌≡◌, refl, sym, ap, ◌∙◌, ◌⊎◌, inl, inr, ◌↔◌, some, none,
  arith, two_pow-suc,
}
use gulf.Word.{trailing_zeros-odd, trailing_zeros-two_pow, odd_part}
use gulf.Outcome.{returns, ◌>>=◌}
use gulf.Checked.{strict_shl-one, nonzero-pos}
use gulf.Hint.{Build, bits}
use gulf.Mem.Align.{Align, IsAlign, from_addr_nonzero, from_addr, log2, get}
use gulf.Mem.Align.Values.{align_at, new-two_pow, get_lem}

abbrev pub Divides : ℕ → ℕ → Type 0
Divides d x = (q : ℕ) × (x ≡ d * q)

double : (k t : ℕ) → 2 ^ suc k * t ≡ 2 * (2 ^ k * t)
double k t = omega (arith, ap (λ (s : ℕ). s * t) (two_pow-suc k))

-- No higher power of two divides a word than the one beside its odd part.
odd_part_highest : (k j m q : ℕ) → 2 ^ k * (2 * m + 1) ≡ 2 ^ j * q → j ≤ k
odd_part_highest k zero m q e = omega arith
odd_part_highest zero (suc j) m q e = absurd (omega (arith, double j q))
odd_part_highest (suc k) (suc j) m q e =
    let lower = odd_part_highest k j m q (omega (arith, double j q, double k (2 * m + 1))) in
    omega arith

odd_part-Divides : (k j m : ℕ) → j ≤ k → Divides (2 ^ j) (2 ^ k * (2 * m + 1))
odd_part-Divides k zero m h = (2 ^ k * (2 * m + 1), omega arith)
odd_part-Divides zero (suc j) m h = absurd (omega arith)
odd_part-Divides (suc k) (suc j) m h =
    let (q, e) = odd_part-Divides k j m (omega arith) in
    (q, omega (arith, double j q, double k (2 * m + 1)))

-- `a` has the largest power of two that divides `addr`.
abbrev pub IsAlignOf : Build → ℕ → Align → Type 0
IsAlignOf b addr a = IsAlign b a × ((j : ℕ) → Divides (2 ^ j) addr ↔ (j ≤ a.repr.index))

from_addr_nonzero-odd :
    (b : Build) (k m : ℕ)
    → k < bits b
    → from_addr_nonzero b (2 ^ k * (2 * m + 1)) ≡ returns (align_at k)
unfolding from_addr_nonzero
from_addr_nonzero-odd b k m h =
    rw (trailing_zeros-odd (bits b) k m h, strict_shl-one (bits b) k h, new-two_pow b k h)

-- The `unwrap` in `from_addr_nonzero` never fails, and its result is the alignment of the address.
pub from_addr_nonzero-IsAlignOf :
    (b : Build) (addr : ℕ)
    → 0 < addr
    → addr < 2 ^ bits b
    → (a : Align) × (from_addr_nonzero b addr ≡ returns a) × IsAlignOf b addr a
from_addr_nonzero-IsAlignOf b addr pos h =
    let (k, m, below, at) = odd_part (bits b) addr pos h in
    (
      align_at k,
      ap (from_addr_nonzero b) at ∙ from_addr_nonzero-odd b k m below,
      (
        below,
        λ j. (
          (λ (q, e). odd_part_highest k j m q (sym at ∙ e)),
          (λ le. let (q, e) = odd_part-Divides k j m le in (q, at ∙ e)),
        ),
      ),
    )

-- For every address: the null address has no alignment, and any other address gets the largest
-- power of two that divides it. No call panics or is undefined.
pub from_addr-IsAlignOf :
    (b : Build) (addr : ℕ)
    → addr < 2 ^ bits b
    → ((addr ≡ 0) × (from_addr b addr ≡ returns none))
      ⊎ ((a : Align) × (from_addr b addr ≡ returns (some a)) × IsAlignOf b addr a)
unfolding from_addr
from_addr-IsAlignOf b zero h = inl (refl, refl)
from_addr-IsAlignOf b (suc n) h =
    let (a, e, is) = from_addr_nonzero-IsAlignOf b (suc n) (omega arith) h in
    inr (a, rw (nonzero-pos (suc n) (omega arith), e), is)

-- The base-two logarithm of an alignment is its exponent.
pub log2_lem : (b : Build) (a : Align) → IsAlign b a → log2 b a ≡ returns a.repr.index
unfolding log2 get
log2_lem b a h = rw (get_lem b a h) (ap returns (trailing_zeros-two_pow (bits b) a.repr.index h))

-- The address of a dangling pointer, `dangling(self)`, has exactly the alignment that it was made
-- for.
pub from_addr_nonzero-get :
    (b : Build) (a : Align) → IsAlign b a → (get b a >>= from_addr_nonzero b) ≡ returns a
from_addr_nonzero-get b a h =
    let e : 2 ^ a.repr.index * (2 * 0 + 1) ≡ 2 ^ a.repr.index = omega arith in
    rw (get_lem b a h) (ap (from_addr_nonzero b) (sym e) ∙ from_addr_nonzero-odd b _ 0 h)
