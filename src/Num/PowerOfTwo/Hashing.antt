-- ===== src/Num/PowerOfTwo/Hashing.antt =====
-- crates/core/src/num/pow2.rs: `Hash`, over a hasher's `write_u8` and what `u8::hash_slice` does with it.
use Prim.Native.Nat.{compare as number_compare}
use gulf.Prelude.{ℕ, ◌≡◌, refl, ap, sym, ◌∙◌, List, map, Ordering, arith}
use gulf.Outcome.{Outcome, returns, panics, undefined, ◌>>=◌}
use gulf.Hint.{Build}
use gulf.Num.PowerOfTwo.{PowerOfTwo, IsPower, to_exponent, cmp}
use gulf.Num.PowerOfTwo.Exponents.{to_exponent_lem}

module _ {H : Type 0} where
  unfoldable pub hash : (ℕ → H → H) → Build → PowerOfTwo → H → Outcome H
  unfolding to_exponent
  hash write_u8 b p state = do exponent ← to_exponent b p; returns (write_u8 exponent state)

  -- The powers are read as the bytes that they are.
  unfoldable pub hash_slice : (List ℕ → H → H) → List PowerOfTwo → H → H
  hash_slice hash_u8s data_ state = hash_u8s (map (λ p. p.exponent.index) data_) state

equal_numbers : (m n : ℕ) → number_compare m n ≡ Ordering.eq → m ≡ n
equal_numbers m n e = ground arith

abbrev answer : Outcome Ordering → Ordering
answer (returns order) = order
answer panics = Ordering.lt
answer undefined = Ordering.lt

cmp_lem :
    (b : Build) (p q : PowerOfTwo)
    → IsPower p
    → IsPower q
    → cmp b p q ≡ returns (number_compare p.exponent.index q.exponent.index)
unfolding cmp
cmp_lem b p q hp hq = rw (to_exponent_lem b p hp, to_exponent_lem b q hq) refl

-- Powers that `cmp` finds equal are the same, and give every hasher the same.
pub cmp-hash :
    {H : Type 0} (write_u8 : ℕ → H → H) (b : Build) (p q : PowerOfTwo) (state : H)
    → IsPower p
    → IsPower q
    → cmp b p q ≡ returns Ordering.eq
    → (p ≡ q)
      × (hash write_u8 b p state ≡ returns (write_u8 p.exponent.index state))
      × (hash write_u8 b q state ≡ returns (write_u8 p.exponent.index state))
unfolding hash
cmp-hash write_u8 b p q state hp hq e =
    let same : p.exponent.index ≡ q.exponent.index =
      equal_numbers p.exponent.index q.exponent.index (ap answer (sym (cmp_lem b p q hp hq) ∙ e)) in
    (
      ap (λ i. record { exponent = record { index = i } }) same,
      rw (to_exponent_lem b p hp) refl,
      rw (to_exponent_lem b q hq, sym same) refl,
    )
