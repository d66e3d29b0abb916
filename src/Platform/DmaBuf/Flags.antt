-- ===== src/Platform/DmaBuf/Flags.antt =====
-- The flags of a DMA buffer's rights and options.
use Prim.Native.Nat.{bit_or}
use gulf.Prelude.{
  ℕ, zero, suc, ◌+◌, ◌%◌, ◌/◌, ◌≡◌, ◌≢◌, refl, Bool, true, false, ◌||◌, ◌&&◌, ==_iff, ◌≤◌, Option,
  none, some, arith, ◌==◌, if◌then◌else◌, ◌⊎◌, inl, inr,
}
use mathlib.Core.Option
use gulf.Outcome.{Outcome, returns, ◌>>=◌}
use gulf.Hint.{Build}
use gulf.Platform.DmaBuf

-- `new` gives rights that permit exactly what its two arguments ask for, and none where neither asks.
pub new-rights :
    (r w : Bool)
    → ((r || w ≡ false) × (DmaBuf.new r w ≡ returns none))
      ⊎ ((x : DmaBuf.SyncRights) × (DmaBuf.new r w ≡ returns (some x))
          × (DmaBuf.can_read x ≡ r)
          × (DmaBuf.can_write x ≡ w))
unfolding DmaBuf.new DmaBuf.from_bits DmaBuf.rights_bits DmaBuf.can_read DmaBuf.can_write
new-rights true true = inr (DmaBuf.read_write, refl, refl, refl)
new-rights true false = inr (DmaBuf.read, refl, refl, refl)
new-rights false true = inr (DmaBuf.write, refl, refl, refl)
new-rights false false = inl (refl, refl)

bits_range : (x : DmaBuf.SyncRights) → (1 ≤ DmaBuf.rights_bits x) × (DmaBuf.rights_bits x ≤ 3)
unfolding DmaBuf.rights_bits
bits_range DmaBuf.read = (omega arith, omega arith)
bits_range DmaBuf.write = (omega arith, omega arith)
bits_range DmaBuf.read_write = (omega arith, omega arith)

-- `from_bits` answers some rights exactly at their own bits, and none at every other byte, without a
-- failed assertion.
pub from_bits_iff :
    (bits : ℕ)
    → ((x : DmaBuf.SyncRights) × (bits ≡ DmaBuf.rights_bits x)
        × (DmaBuf.from_bits bits ≡ returns (some x)))
      ⊎ (((x : DmaBuf.SyncRights) → bits ≢ DmaBuf.rights_bits x)
          × (DmaBuf.from_bits bits ≡ returns none))
unfolding DmaBuf.from_bits DmaBuf.rights_bits
from_bits_iff zero = inr (λ x e. absurd (omega (arith, e, bits_range x)), refl)
from_bits_iff (suc zero) = inl (DmaBuf.read, refl, refl)
from_bits_iff (suc (suc zero)) = inl (DmaBuf.write, refl, refl)
from_bits_iff (suc (suc (suc zero))) = inl (DmaBuf.read_write, refl, refl)
from_bits_iff (suc (suc (suc (suc n)))) =
    inr (λ x e. absurd (omega (arith, e, bits_range x)), ground arith)

-- In every build, the union of two rights is computed without undefined behaviour or panic; it permits
-- what either permits, and its bits are the union of their bits.
pub rights_or-union :
    (b : Build) (x y : DmaBuf.SyncRights)
    → (z : DmaBuf.SyncRights) × (DmaBuf.rights_or b x y ≡ returns z)
      × (DmaBuf.can_read z ≡ (DmaBuf.can_read x || DmaBuf.can_read y))
      × (DmaBuf.can_write z ≡ (DmaBuf.can_write x || DmaBuf.can_write y))
      × (DmaBuf.rights_bits z ≡ bit_or (DmaBuf.rights_bits x) (DmaBuf.rights_bits y))
unfolding DmaBuf.rights_or DmaBuf.from_bits DmaBuf.rights_bits DmaBuf.can_read DmaBuf.can_write
rights_or-union b DmaBuf.read DmaBuf.read = (DmaBuf.read, refl, refl, refl, refl)
rights_or-union b DmaBuf.read DmaBuf.write = (DmaBuf.read_write, refl, refl, refl, refl)
rights_or-union b DmaBuf.read DmaBuf.read_write = (DmaBuf.read_write, refl, refl, refl, refl)
rights_or-union b DmaBuf.write DmaBuf.read = (DmaBuf.read_write, refl, refl, refl, refl)
rights_or-union b DmaBuf.write DmaBuf.write = (DmaBuf.write, refl, refl, refl, refl)
rights_or-union b DmaBuf.write DmaBuf.read_write = (DmaBuf.read_write, refl, refl, refl, refl)
rights_or-union b DmaBuf.read_write DmaBuf.read = (DmaBuf.read_write, refl, refl, refl, refl)
rights_or-union b DmaBuf.read_write DmaBuf.write = (DmaBuf.read_write, refl, refl, refl, refl)
rights_or-union b DmaBuf.read_write DmaBuf.read_write = (DmaBuf.read_write, refl, refl, refl, refl)

-- The flags of options, as a sum: the two parts share no bit.
to_flags-sum :
    (o : DmaBuf.SyncOptions)
    → DmaBuf.to_flags o ≡ DmaBuf.kind o + DmaBuf.rights_bits (DmaBuf.rights_of o)
unfolding DmaBuf.to_flags DmaBuf.kind DmaBuf.rights_bits DmaBuf.rights_of
to_flags-sum (DmaBuf.start DmaBuf.read) = refl
to_flags-sum (DmaBuf.start DmaBuf.write) = refl
to_flags-sum (DmaBuf.start DmaBuf.read_write) = refl
to_flags-sum (DmaBuf.finish DmaBuf.read) = refl
to_flags-sum (DmaBuf.finish DmaBuf.write) = refl
to_flags-sum (DmaBuf.finish DmaBuf.read_write) = refl

-- A reading of flags: rights in the two low bits, and the third bit for the end of an access.
unfoldable pub of_flags : ℕ → Outcome (Option DmaBuf.SyncOptions)
unfolding DmaBuf.from_bits
of_flags flags = do
  rights ← DmaBuf.from_bits (flags % 4)
  returns (Option.map (if flags / 4 == 0 then DmaBuf.start else DmaBuf.finish) rights)

-- The flags of options determine them: reading the two low bits with `from_bits`, and the third as the
-- kind, gives the options back.
pub to_flags-of_flags : (o : DmaBuf.SyncOptions) → of_flags (DmaBuf.to_flags o) ≡ returns (some o)
unfolding of_flags DmaBuf.to_flags DmaBuf.kind DmaBuf.rights_bits DmaBuf.rights_of DmaBuf.from_bits
to_flags-of_flags (DmaBuf.start DmaBuf.read) = refl
to_flags-of_flags (DmaBuf.start DmaBuf.write) = refl
to_flags-of_flags (DmaBuf.start DmaBuf.read_write) = refl
to_flags-of_flags (DmaBuf.finish DmaBuf.read) = refl
to_flags-of_flags (DmaBuf.finish DmaBuf.write) = refl
to_flags-of_flags (DmaBuf.finish DmaBuf.read_write) = refl

-- A test of every right.
abbrev every : (DmaBuf.SyncRights → Bool) → Bool
every p = p DmaBuf.read && (p DmaBuf.write && p DmaBuf.read_write)

every_lem : (p : DmaBuf.SyncRights → Bool) → every p ≡ true → (x : DmaBuf.SyncRights) → p x ≡ true
every_lem p h DmaBuf.read = ground arith
every_lem p h DmaBuf.write = ground arith
every_lem p h DmaBuf.read_write = ground arith

-- Joining the kinds and the rights of flags apart is joining the flags.
abbrev joins : ℕ → ℕ → DmaBuf.SyncRights → DmaBuf.SyncRights → Bool
joins k l x y =
    bit_or (bit_or k l) (bit_or (DmaBuf.rights_bits x) (DmaBuf.rights_bits y))
    == bit_or (bit_or k (DmaBuf.rights_bits x)) (bit_or l (DmaBuf.rights_bits y))

joins_lem :
    (k l : ℕ)
    → every (λ x. every (joins k l x)) ≡ true
    → (x y : DmaBuf.SyncRights)
    → bit_or (bit_or k l) (bit_or (DmaBuf.rights_bits x) (DmaBuf.rights_bits y))
      ≡ bit_or (bit_or k (DmaBuf.rights_bits x)) (bit_or l (DmaBuf.rights_bits y))
joins_lem k l h x y =
    (==_iff _ _).0 (every_lem (joins k l x) (every_lem (λ a. every (joins k l a)) h x) y)

joined_lem :
    (x y : DmaBuf.SyncOptions) (z : DmaBuf.SyncRights)
    → DmaBuf.rights_bits z
      ≡ bit_or (DmaBuf.rights_bits (DmaBuf.rights_of x)) (DmaBuf.rights_bits (DmaBuf.rights_of y))
    → DmaBuf.to_flags (DmaBuf.joined x y z) ≡ bit_or (DmaBuf.to_flags x) (DmaBuf.to_flags y)
unfolding DmaBuf.to_flags DmaBuf.kind DmaBuf.rights_of DmaBuf.rights_bits
joined_lem (DmaBuf.start x) (DmaBuf.start y) z e = rw e (joins_lem 0 0 refl x y)
joined_lem (DmaBuf.start x) (DmaBuf.finish y) z e = rw e (joins_lem 0 4 refl x y)
joined_lem (DmaBuf.finish x) (DmaBuf.start y) z e = rw e (joins_lem 4 0 refl x y)
joined_lem (DmaBuf.finish x) (DmaBuf.finish y) z e = rw e (joins_lem 4 4 refl x y)

-- In every build, the union of two options is computed without undefined behaviour or panic, and its
-- flags are the union of their flags.
pub options_or-to_flags :
    (b : Build) (x y : DmaBuf.SyncOptions)
    → (z : DmaBuf.SyncOptions) × (DmaBuf.options_or b x y ≡ returns z)
      × (DmaBuf.to_flags z ≡ bit_or (DmaBuf.to_flags x) (DmaBuf.to_flags y))
unfolding DmaBuf.options_or
options_or-to_flags b x y =
    let (z, e, _, _, bits) = rights_or-union b (DmaBuf.rights_of x) (DmaBuf.rights_of y) in
    (DmaBuf.joined x y z, rw e refl, joined_lem x y z bits)

-- The union of two rights, and of two options.
abbrev pub Unions : Build → (x y : DmaBuf.SyncRights) → (o p : DmaBuf.SyncOptions) → Type 0
Unions b x y o p =
    ((z : DmaBuf.SyncRights) × (DmaBuf.rights_or b x y ≡ returns z)
      × (DmaBuf.can_read z ≡ (DmaBuf.can_read x || DmaBuf.can_read y))
      × (DmaBuf.can_write z ≡ (DmaBuf.can_write x || DmaBuf.can_write y))
      × (DmaBuf.rights_bits z ≡ bit_or (DmaBuf.rights_bits x) (DmaBuf.rights_bits y)))
    × ((q : DmaBuf.SyncOptions) × (DmaBuf.options_or b o p ≡ returns q)
        × (DmaBuf.to_flags q ≡ bit_or (DmaBuf.to_flags o) (DmaBuf.to_flags p)))

-- In every build, the unions of two rights and of two options are computed without undefined behaviour or
-- panic: the rights permit what either permits and have the union of their bits, and the options have the
-- union of their flags.
pub rights_or-Unions :
    (b : Build) (x y : DmaBuf.SyncRights) (o p : DmaBuf.SyncOptions) → Unions b x y o p
rights_or-Unions b x y o p = (rights_or-union b x y, options_or-to_flags b o p)
