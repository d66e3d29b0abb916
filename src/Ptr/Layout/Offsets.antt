-- ===== src/Ptr/Layout/Offsets.antt =====
-- crates/core/src/ptr/layout.rs: where the parts of a pointer stand, and what `Debug` shows of a layout.
use gulf.Prelude.{ℕ, ◌≡◌, refl, List, [], ◌∷◌, ◌++◌, length, length-append, arith}
use gulf.Outcome.{returns, ◌>>=◌}
use gulf.Ptr.Layout.{
  Pointee, PointerLayout, address_first, address_last, address_only, read, read_address, skip,
  compose, address_offset, metadata_offset,
}
use gulf.Ptr.Layout.Inverse.{IsLayoutOf, read-whole, read-prefix, skip-prefix}

-- What `debug_fmt` is given; the variant stands for its name.
pub record Shown : Type 0 where
  pub variant : PointerLayout
  pub address_offset : ℕ
  pub metadata_offset : ℕ

unfoldable pub debug : Pointee → PointerLayout → Shown
unfolding address_offset metadata_offset
debug p l = record {
  variant = l;
  address_offset = address_offset p l;
  metadata_offset = metadata_offset p l;
}

-- For every layout that the pointee's pointers can have, a composed pointer has its address at the offset of
-- the address and its metadata at the offset of the metadata, counted in words, and these are the offsets that
-- `Debug` shows.
pub compose-offsets :
    (p : Pointee) (l : PointerLayout) (address : ℕ) (metadata : List ℕ)
    → IsLayoutOf p l
    → p.metadata_words ≡ length metadata
    → ((compose p l address metadata >>= λ words.
          read_address (skip (debug p l).address_offset words))
        ≡ returns address)
      × ((compose p l address metadata >>= λ words.
            read p.metadata_words (skip (debug p l).metadata_offset words))
          ≡ returns metadata)
unfolding debug compose address_offset metadata_offset skip
compose-offsets p address_first a m h e = (
  rw (read-whole p.pointer_words (a ∷ m) (omega arith)) refl,
  rw (read-whole p.pointer_words (a ∷ m) (omega arith)) (read-whole p.metadata_words m e),
)
compose-offsets p address_last a m h e =
    let whole =
      read-whole p.pointer_words (m ++ a ∷ []) (omega (arith, length-append m (a ∷ []))) in
    (
      rw (whole, skip-prefix p.metadata_words m (a ∷ []) e) refl,
      rw whole (read-prefix p.metadata_words m (a ∷ []) e),
    )
compose-offsets p address_only a [] h e = (
  rw (read-whole p.pointer_words (a ∷ []) h.0) refl,
  rw (read-whole p.pointer_words (a ∷ []) h.0) (read-whole p.metadata_words [] h.1),
)
compose-offsets p address_only a (x ∷ m) h e = absurd (omega arith)
