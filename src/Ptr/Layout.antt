-- ===== src/Ptr/Layout.antt =====
-- crates/core/src/ptr/layout.rs and components.rs: a pointer is the list of its words, and the union
-- `Components` reads the same words as an address and metadata. What the compiler decides about a
-- pointee is a parameter: how many words its pointers and its metadata have.
pub mod Inverse
pub mod Slices
pub mod Offsets
pub mod Proofs
use gulf.Prelude.{
  ℕ, zero, suc, ◌*◌, Bool, true, false, ◌&&◌, Option, none, some, List, [], ◌∷◌, ◌++◌,
  if◌then◌else◌, ◌==◌,
}
use gulf.Outcome.{Outcome, returns, panics, undefined, ◌>>=◌, ◌>>◌, assert}
use gulf.Hint.{Build, unreachable_unchecked}

-- `P: Pointee`: the words of `*const P`, and the words and the alignment of `P::Metadata`.
pub record Pointee : Type 0 where
  pub pointer_words : ℕ
  pub metadata_words : ℕ
  pub metadata_align : ℕ

-- The first `n` words; reading past the end is undefined.
unfoldable pub read : ℕ → List ℕ → Outcome (List ℕ)
read zero ws = returns []
read (suc n) [] = undefined
read (suc n) (w ∷ ws) = do rest ← read n ws; returns (w ∷ rest)

-- The words after the first `n`.
unfoldable pub skip : ℕ → List ℕ → List ℕ
skip zero ws = ws
skip (suc n) [] = []
skip (suc n) (w ∷ ws) = skip n ws

abbrev pub read_address : List ℕ → Outcome ℕ
read_address [] = undefined
read_address (w ∷ ws) = returns w

-- `PointerLayout`, whose variants hold type-level proofs.
pub data PointerLayout : Type 0 where
  address_first address_last address_only : PointerLayout

-- `AddressOnly::new`, and what `AddressOnly::new_unchecked` does where that makes nothing.
unfoldable pub only_new : Pointee → Option PointerLayout
only_new p = if p.metadata_words == 0 && p.metadata_align == 1 then some address_only else none

abbrev or_unreachable : Build → Option PointerLayout → Outcome PointerLayout
or_unreachable b none = unreachable_unchecked b
or_unreachable b (some l) = returns l

unfoldable pub only_new_unchecked : Build → Pointee → Outcome PointerLayout
unfolding only_new unreachable_unchecked
only_new_unchecked b p = or_unreachable b (only_new p)

-- The fields of `Components` in the order of each variant, read as a pointer.
abbrev pub first_compose : Pointee → ℕ → List ℕ → Outcome (List ℕ)
first_compose p address metadata = read p.pointer_words (address ∷ metadata)

abbrev pub last_compose : Pointee → ℕ → List ℕ → Outcome (List ℕ)
last_compose p address metadata = read p.pointer_words (metadata ++ address ∷ [])

abbrev pub only_compose : Pointee → ℕ → List ℕ → Outcome (List ℕ)
only_compose p address metadata = read p.pointer_words (address ∷ [])

unfoldable pub compose : Pointee → PointerLayout → ℕ → List ℕ → Outcome (List ℕ)
unfolding read
compose p address_first address metadata = first_compose p address metadata
compose p address_last address metadata = last_compose p address metadata
compose p address_only address metadata = only_compose p address metadata

-- The words of a pointer, read as the fields of `Components`. `transmute_copy` reads the metadata of an
-- `AddressOnly` from an array of no elements.
abbrev pub first_decompose : Pointee → List ℕ → Outcome (ℕ × List ℕ)
first_decompose p pointer = do
  address ← read_address pointer
  metadata ← read p.metadata_words (skip 1 pointer)
  returns (address, metadata)

abbrev pub last_decompose : Pointee → List ℕ → Outcome (ℕ × List ℕ)
last_decompose p pointer = do
  metadata ← read p.metadata_words pointer
  address ← read_address (skip p.metadata_words pointer)
  returns (address, metadata)

abbrev pub only_decompose : Pointee → List ℕ → Outcome (ℕ × List ℕ)
only_decompose p pointer = do
  address ← read_address pointer
  metadata ← read p.metadata_words []
  returns (address, metadata)

unfoldable pub decompose : Pointee → PointerLayout → List ℕ → Outcome (ℕ × List ℕ)
unfolding read skip
decompose p address_first pointer = first_decompose p pointer
decompose p address_last pointer = last_decompose p pointer
decompose p address_only pointer = only_decompose p pointer

-- The offsets of the fields, in words.
abbrev pub first_address_offset : Pointee → ℕ
first_address_offset p = 0

abbrev pub first_metadata_offset : Pointee → ℕ
first_metadata_offset p = 1

abbrev pub last_address_offset : Pointee → ℕ
last_address_offset p = p.metadata_words

abbrev pub last_metadata_offset : Pointee → ℕ
last_metadata_offset p = 0

abbrev pub only_address_offset : Pointee → ℕ
only_address_offset p = 0

abbrev pub only_metadata_offset : Pointee → ℕ
only_metadata_offset p = 1

unfoldable pub address_offset : Pointee → PointerLayout → ℕ
address_offset p address_first = first_address_offset p
address_offset p address_last = last_address_offset p
address_offset p address_only = only_address_offset p

unfoldable pub metadata_offset : Pointee → PointerLayout → ℕ
metadata_offset p address_first = first_metadata_offset p
metadata_offset p address_last = last_metadata_offset p
metadata_offset p address_only = only_metadata_offset p

-- `PointerLayout::cast_unchecked`, to a pointee.
unfoldable pub cast_unchecked : Build → Pointee → PointerLayout → Outcome PointerLayout
unfolding only_new_unchecked
cast_unchecked b p address_first = returns address_first
cast_unchecked b p address_last = returns address_last
cast_unchecked b p address_only = only_new_unchecked b p

abbrev expect : Option PointerLayout → Outcome PointerLayout
expect none = panics
expect (some l) = returns l

-- `PointerLayout::<T>::new` for sized types.
unfoldable pub sized_new : Pointee → Outcome PointerLayout
unfolding only_new
sized_new p = expect (only_new p)

-- A slice: two words, of which one is the length, by the alignment of a `usize`.
abbrev pub slice : ℕ → Pointee
slice usize_align = record { pointer_words = 2; metadata_words = 1; metadata_align = usize_align }

-- `PointerLayout::<[T]>::new_inner`: a probe of the words that `slice_from_raw_parts` makes of an
-- address and a length.
abbrev pub probed : ℕ × ℕ → Outcome PointerLayout
probed (a, b) =
    if a == 0xFF && b == 0
    then returns address_first
    else if a == 0 && b == 0xFF
    then returns address_last
    else panics

unfoldable pub new_inner : (ℕ → ℕ → ℕ × ℕ) → Outcome PointerLayout
new_inner slice_from_raw_parts = probed (slice_from_raw_parts 0xFF 0)

-- `PointerLayout::<[T]>::new`: the layouts of byte slices and of these slices have to agree.
unfoldable pub slice_new : ℕ → (bytes this : ℕ → ℕ → ℕ × ℕ) → Outcome PointerLayout
unfolding new_inner address_offset metadata_offset
slice_new usize_align bytes this = do
  byte_slice ← new_inner bytes
  this_slice ← new_inner this
  assert (
      address_offset (slice usize_align) this_slice
      == address_offset (slice usize_align) byte_slice)
  assert (
      metadata_offset (slice usize_align) this_slice
      == metadata_offset (slice usize_align) byte_slice)
  returns this_slice
