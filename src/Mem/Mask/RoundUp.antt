-- ===== src/Mem/Mask/RoundUp.antt =====
-- Rounding a size up to a multiple of an alignment.
use Prim.Native.Nat.{bit_and}
use native.Mathlib.Decide.{ℕ_discrete, dec_lt}
use native.Mathlib.Nat.{
  mod-lt, mod-eq_of_lt, mod-eq-sub-mod, div-eq_of_lt, div-add-mod', mul-mod_left,
}
use gulf.Prelude.{
  ℕ, ◌+◌, ◌-◌, ◌*◌, ◌/◌, ◌%◌, ◌^◌, ◌≤◌, ◌<◌, ◌≡◌, refl, sym, ap, ◌∙◌, ◌⊎◌, inl, inr, some, none,
  arith, two_pow_lt, one-le-two_pow,
}
use gulf.Outcome.{returns}
use gulf.Checked.{strict_sub-fits, nonzero, nonzero-pos}
use gulf.Word.{wrapping_add, bit_and-high}
use gulf.Hint.{Build, bits}
use gulf.Mem.Repr.{IsIndex}
use gulf.Mem.Align.{Align, IsAlign}
use gulf.Mem.Align.Values
use gulf.Mem.Mask.{round_up_size}
use gulf.Mem.Mask.Values.{mask_at, high, get_lem}
use gulf.Mem.Mask.Inverse.{mask_of_align-index}

-- Clearing the low bits of a word rounds it down to a multiple.
bit_and-round_down :
    (b : Build) (i x : ℕ) → IsIndex b i → x < 2 ^ bits b → bit_and x (high b i) ≡ x / 2 ^ i * 2 ^ i
bit_and-round_down b i x h hx =
    let whole = div-add-mod' x (2 ^ i) in
    let rest = mod-lt x (one-le-two_pow i) in
    ap (λ (t : ℕ). bit_and t (high b i)) (sym whole)
    ∙ bit_and-high (bits b) i (x / 2 ^ i) (x % 2 ^ i) (omega arith) rest (omega arith)

-- `round_up_size` as arithmetic; its assertion always holds.
round_up_size-value :
    (b : Build) (a : Align) (size : ℕ)
    → IsAlign b a
    → round_up_size b a size
      ≡ returns (
          nonzero (
            wrapping_add (bits b) size (2 ^ a.repr.index - 1)
            / 2 ^ a.repr.index
            * 2 ^ a.repr.index))
unfolding round_up_size
round_up_size-value b a size h =
    let i = a.repr.index in
    let x = wrapping_add (bits b) size (2 ^ i - 1) in
    rw (
      mask_of_align-index b a h,
      Values.get_lem b a h,
      strict_sub-fits (2 ^ i) 1 (one-le-two_pow i),
      get_lem b (mask_at i) h,
      bit_and-round_down b i x h (mod-lt (size + (2 ^ i - 1)) (one-le-two_pow (bits b))),
      mul-mod_left (x / 2 ^ i) (2 ^ i),
    )

-- `n` is the least multiple of `d` that is at least `size`.
abbrev pub IsRoundedUp : ℕ → ℕ → ℕ → Type 0
IsRoundedUp d size n = ((q : ℕ) × (n ≡ q * d)) × (size ≤ n) × (n < size + d)

-- The number under the masks, without and with a wrap.
abbrev masked : ℕ → ℕ → ℕ → ℕ
masked w d size = (size + (d - 1)) % w / d * d

module _ (w d size : ℕ) (pos : 1 ≤ d) (le : d ≤ w) (hs : size < w) where
  masked-fits : size ≤ w - d → IsRoundedUp d size (masked w d size)
  masked-fits fits =
      let plain : (size + (d - 1)) % w ≡ size + (d - 1) = mod-eq_of_lt (omega arith) in
      let x = (size + (d - 1)) % w in
      let rest = mod-lt x pos in
      let whole = div-add-mod' x d in ((x / d, refl), omega arith, omega arith)

  masked-small : (size ≡ 0) ⊎ (w - d < size) → masked w d size ≡ 0
  masked-small c =
      let small : (size + (d - 1)) % w < d = elim c [
        | inl e ↦
            let plain : (size + (d - 1)) % w ≡ size + (d - 1) = mod-eq_of_lt (omega arith) in
            omega arith
        | inr over ↦
            let wrapped = mod-eq-sub-mod {n = size + (d - 1)} {m = w} (omega arith) in
            let plain : (size + (d - 1) - w) % w ≡ size + (d - 1) - w =
              mod-eq_of_lt (omega arith) in
            omega arith
      ] in
      rw (div-eq_of_lt small) (omega arith)

-- `round_up_size`, for every size and alignment: the size zero gives nothing; a size of at most
-- `2^w - align`, with `w` the width, gives the least multiple of the alignment that is not below it;
-- any larger size gives nothing. No assertion fails.
pub round_up_size-IsRoundedUp :
    (b : Build) (a : Align) (size : ℕ)
    → IsAlign b a
    → size < 2 ^ bits b
    → let d = 2 ^ a.repr.index in
      ((size ≡ 0) × (round_up_size b a size ≡ returns none))
      ⊎ ((n : ℕ) × (0 < size)
          × (size ≤ 2 ^ bits b - d)
          × (round_up_size b a size ≡ returns (some n))
          × IsRoundedUp d size n)
      ⊎ ((2 ^ bits b - d < size) × (round_up_size b a size ≡ returns none))
round_up_size-IsRoundedUp b a size h hs =
    let i = a.repr.index in
    let d = 2 ^ i in
    let value = round_up_size-value b a size h in
    let one = one-le-two_pow i in
    let w = 2 ^ bits b in
    let le : d ≤ w = omega (arith, two_pow_lt i (bits b) h) in
    let nothing = λ (n : ℕ). returns (nonzero n) in
    elim (ℕ_discrete size 0) [
      | yes e ↦ inl (e, value ∙ ap nothing (masked-small w d size one le hs (inl e)))
      | no ne ↦ elim (dec_lt (2 ^ bits b - d) size) [
        | yes over ↦
            inr (inr (over, value ∙ ap nothing (masked-small w d size one le hs (inr over))))
        | no fits ↦
            let rounded = masked-fits w d size one le hs (omega arith) in
            inr (
              inl (
                masked w d size,
                omega arith,
                omega arith,
                value ∙ ap returns (nonzero-pos (masked w d size) (omega arith)),
                rounded,
              ))
      ]
    ]
