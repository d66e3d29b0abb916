-- ===== src/Ptr/Layout/Proofs.antt =====
-- crates/core/src/ptr/layout.rs: the type-level proofs that the variants of `PointerLayout` hold, with the
-- pointee that each is about, and what is done with them.
use gulf.Prelude.{◌≡◌, refl, Bool-cases, inl, inr, Option, none, some, if◌then◌else◌, ◌&&◌, ◌==◌}
use gulf.Outcome.{Outcome, returns, ◌>>=◌}
use gulf.Hint.{Build, ub_checks, unreachable_unchecked}
use gulf.Ptr.Layout.{
  Pointee, PointerLayout, address_first, address_last, address_only, only_new, only_new_unchecked,
  first_address_offset, first_metadata_offset, last_address_offset, last_metadata_offset,
  only_address_offset, only_metadata_offset, cast_unchecked,
}
use gulf.Ptr.Layout.Offsets.{Shown, debug}

-- `AddressFirst<P>`, `AddressLast<P>` and `AddressOnly<P>`, which hold nothing.
pub data AddressFirst (p : Pointee) : Type 0 where
  first_proof : AddressFirst p

pub data AddressLast (p : Pointee) : Type 0 where
  last_proof : AddressLast p

pub data AddressOnly (p : Pointee) : Type 0 where
  only_proof : AddressOnly p

-- The variants of `PointerLayout` with the proofs that they hold.
pub data Proof (p : Pointee) : Type 0 where
  first : AddressFirst p → Proof p
  last : AddressLast p → Proof p
  only : AddressOnly p → Proof p

unfoldable pub first_new_unchecked : (p : Pointee) → AddressFirst p
first_new_unchecked p = first_proof

unfoldable pub last_new_unchecked : (p : Pointee) → AddressLast p
last_new_unchecked p = last_proof

-- `AddressOnly::new` and `new_unchecked`.
unfoldable pub proof_new : (p : Pointee) → Option (AddressOnly p)
proof_new p = if p.metadata_words == 0 && p.metadata_align == 1 then some only_proof else none

abbrev proof_or_unreachable :
    (p : Pointee) → Build → Option (AddressOnly p) → Outcome (AddressOnly p)
proof_or_unreachable p b none = unreachable_unchecked b
proof_or_unreachable p b (some proof) = returns proof

unfoldable pub proof_new_unchecked : Build → (p : Pointee) → Outcome (AddressOnly p)
unfolding proof_new unreachable_unchecked
proof_new_unchecked b p = proof_or_unreachable p b (proof_new p)

-- `cast_unchecked` of each proof.
unfoldable pub cast_first : {p : Pointee} → AddressFirst p → (p1 : Pointee) → AddressFirst p1
unfolding first_new_unchecked
cast_first proof p1 = first_new_unchecked p1

unfoldable pub cast_last : {p : Pointee} → AddressLast p → (p1 : Pointee) → AddressLast p1
unfolding last_new_unchecked
cast_last proof p1 = last_new_unchecked p1

unfoldable pub cast_only :
    {p : Pointee} → Build → AddressOnly p → (p1 : Pointee) → Outcome (AddressOnly p1)
unfolding proof_new_unchecked
cast_only b proof p1 = proof_new_unchecked b p1

-- `Clone`, of the proofs and of the layouts.
unfoldable pub clone_first : {p : Pointee} → AddressFirst p → AddressFirst p
clone_first proof = proof

unfoldable pub clone_last : {p : Pointee} → AddressLast p → AddressLast p
clone_last proof = proof

unfoldable pub clone_only : {p : Pointee} → AddressOnly p → AddressOnly p
clone_only proof = proof

unfoldable pub clone : {p : Pointee} → Proof p → Proof p
clone layout = layout

-- `From`, of each proof.
unfoldable pub from_first : {p : Pointee} → AddressFirst p → Proof p
from_first layout = first layout

unfoldable pub from_last : {p : Pointee} → AddressLast p → Proof p
from_last layout = last layout

unfoldable pub from_only : {p : Pointee} → AddressOnly p → Proof p
from_only layout = only layout

-- `Debug` of each proof.
unfoldable pub debug_first : (p : Pointee) → AddressFirst p → Shown
debug_first p proof = record {
  variant = address_first;
  address_offset = first_address_offset p;
  metadata_offset = first_metadata_offset p;
}

unfoldable pub debug_last : (p : Pointee) → AddressLast p → Shown
debug_last p proof = record {
  variant = address_last;
  address_offset = last_address_offset p;
  metadata_offset = last_metadata_offset p;
}

unfoldable pub debug_only : (p : Pointee) → AddressOnly p → Shown
debug_only p proof = record {
  variant = address_only;
  address_offset = only_address_offset p;
  metadata_offset = only_metadata_offset p;
}

unfoldable pub debug_proof : (p : Pointee) → Proof p → Shown
unfolding debug_first debug_last debug_only
debug_proof p (first proof) = debug_first p proof
debug_proof p (last proof) = debug_last p proof
debug_proof p (only proof) = debug_only p proof

-- `PointerLayout::cast_unchecked`.
abbrev casted_only : (p1 : Pointee) → Outcome (AddressOnly p1) → Outcome (Proof p1)
casted_only p1 o = o >>= λ proof. returns (only proof)

unfoldable pub cast : {p : Pointee} → Build → Proof p → (p1 : Pointee) → Outcome (Proof p1)
unfolding cast_first cast_last cast_only
cast b (first proof) p1 = returns (first (cast_first proof p1))
cast b (last proof) p1 = returns (last (cast_last proof p1))
cast b (only proof) p1 = casted_only p1 (cast_only b proof p1)

-- The variant alone.
abbrev pub variant : {p : Pointee} → Proof p → PointerLayout
variant (first proof) = address_first
variant (last proof) = address_last
variant (only proof) = address_only

abbrev variants : {p : Pointee} → Outcome (Proof p) → Outcome PointerLayout
variants o = o >>= λ layout. returns (variant layout)

variants-unreachable :
    (p : Pointee) (b : Build)
    → variants (casted_only p (unreachable_unchecked b)) ≡ unreachable_unchecked b
unfolding unreachable_unchecked
variants-unreachable p b = elim (Bool-cases (ub_checks b)) [ inl t ↦ rw t refl | inr f ↦ rw f refl ]

-- Casting a layout with its proof does what casting its variant does: it keeps the variant, or, for an address
-- alone and a pointee with metadata, runs into `unreachable_unchecked!`. `Debug` shows what it shows of the
-- variant, and cloning keeps that.
pub cast-variant :
    {p : Pointee} (b : Build) (layout : Proof p) (p1 : Pointee)
    → (variants (cast b layout p1) ≡ cast_unchecked b p1 (variant layout))
      × (debug_proof p layout ≡ debug p (variant layout))
      × (variant (clone layout) ≡ variant layout)
unfolding cast cast_unchecked cast_first cast_last cast_only proof_new_unchecked proof_new
    only_new_unchecked only_new unreachable_unchecked debug_proof debug_first debug_last debug_only
    debug clone
cast-variant b (first proof) p1 = (refl, refl, refl)
cast-variant b (last proof) p1 = (refl, refl, refl)
cast-variant b (only proof) p1 =
    elim (Bool-cases (p1.metadata_words == 0 && p1.metadata_align == 1)) [
      | inl t ↦ (rw t refl, refl, refl)
      | inr f ↦ (rw f (variants-unreachable p1 b), refl, refl)
    ]
