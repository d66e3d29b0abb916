-- ===== src/Hint.antt =====
-- crates/core/src/hint.rs, and the configuration that a build of the crates is made for.
use gulf.Prelude.{refl, not, ℕ, Bool, true, false, ◌||◌, if◌then◌else◌, ◌≡◌, ◌≤◌, arith}
use gulf.Outcome.{Outcome, returns, panics, undefined}

-- `target_pointer_width`: the three that `define!` of mem/layout_private.rs accepts.
pub data PointerWidth : Type 0 where
  width16 width32 width64 : PointerWidth

-- The target and the two flags that `ub_checks` reads.
pub record Build : Type 0 where
  pub pointer_width : PointerWidth
  pub debug_assertions : Bool
  pub miri : Bool

-- `usize::BITS`.
unfoldable pub width_bits : PointerWidth → ℕ
width_bits width16 = 16
width_bits width32 = 32
width_bits width64 = 64

abbrev pub bits : Build → ℕ
bits b = width_bits b.pointer_width

width_bits_large : (p : PointerWidth) → 16 ≤ width_bits p
unfolding width_bits
width_bits_large width16 = omega arith
width_bits_large width32 = omega arith
width_bits_large width64 = omega arith

width_bits_small : (p : PointerWidth) → width_bits p ≤ 64
unfolding width_bits
width_bits_small width16 = omega arith
width_bits_small width32 = omega arith
width_bits_small width64 = omega arith

pub bits_small : (b : Build) → bits b ≤ 64
bits_small b = width_bits_small b.pointer_width

pub bits_large : (b : Build) → 16 ≤ bits b
bits_large b = width_bits_large b.pointer_width

-- `likely` and `unlikely`: the value, and whether the path is marked as cold on the way.
unfoldable pub likely : Bool → Bool × Bool
likely b = if not b then (b, true) else (b, false)

unfoldable pub unlikely : Bool → Bool × Bool
unlikely b = if b then (b, true) else (b, false)

unfoldable pub needs_unsafe {ℓ} : {T : Type ℓ} → T → T
needs_unsafe x = x

unfoldable pub must_use {ℓ} : {T : Type ℓ} → T → T
must_use x = x

-- The hints give their argument back, and mark the path that is not the likely one, and no other.
pub likely-unlikely :
    (b : Bool)
    → (likely b ≡ (b, not b)) × (unlikely b ≡ (b, b)) × (needs_unsafe b ≡ b) × (must_use b ≡ b)
unfolding likely unlikely needs_unsafe must_use
likely-unlikely true = (refl, refl, refl, refl)
likely-unlikely false = (refl, refl, refl, refl)

abbrev pub ub_checks : Build → Bool
ub_checks b = b.debug_assertions || b.miri

-- `unreachable_unchecked!`: a panic where undefined behaviour is checked for.
unfoldable pub unreachable_unchecked {ℓ} : {A : Type ℓ} → Build → Outcome A
unreachable_unchecked b = if ub_checks b then panics else undefined

-- `assert_unchecked!`.
unfoldable pub assert_unchecked : Build → Bool → Outcome (Unit {0})
unfolding unreachable_unchecked
assert_unchecked b true = returns tt
assert_unchecked b false = if ub_checks b then panics else undefined

pub assert_unchecked-true : (b : Build) {c : Bool} → c ≡ true → assert_unchecked b c ≡ returns tt
unfolding assert_unchecked
assert_unchecked-true b {c} e = rw e
