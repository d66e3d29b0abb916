-- ===== src/Ptr/Layout/Slices.antt =====
-- The probe of the layout of slices.
use gulf.Prelude.{ℕ, ◌≡◌, refl, ◌⊎◌, inl, inr, ◌≢◌, ap, sym, ◌∙◌, arith, List, [], ◌∷◌}
use gulf.Outcome.{returns, panics}
use gulf.Ptr.Layout.{
  PointerLayout, address_first, address_last, slice, decompose, new_inner, slice_new,
  address_offset, metadata_offset,
}

-- The two words of a slice pointer, in the order of a layout.
abbrev words : ℕ × ℕ → List ℕ
words (x, y) = x ∷ y ∷ []

-- How a compiler stores an address and a length: in one order or in the other, for all slices.
abbrev pub Stores : (ℕ → ℕ → ℕ × ℕ) → Type 0
Stores abi =
    ((address length : ℕ) → abi address length ≡ (address, length))
    ⊎ ((address length : ℕ) → abi address length ≡ (length, address))

differ : ◌≢◌ {A = ℕ × ℕ} (0xFF, 0) (0, 0xFF)
differ e = let firsts : ◌≡◌ {A = ℕ} 0xFF 0 = ap (λ r. r.0) e in omega arith

-- Where byte slices and these slices each store an address and a length in one order or in the other:
-- either `PointerLayout::<[T]>::new` finds a layout, and with it every pointer of these slices decomposes
-- into its address and its length; or it panics, and the two store some slice differently.
pub slice_new-decompose :
    (usize_align : ℕ) (bytes this : ℕ → ℕ → ℕ × ℕ)
    → Stores bytes
    → Stores this
    → ((l : PointerLayout) × (slice_new usize_align bytes this ≡ returns l)
        × ((address length : ℕ)
            → decompose (slice usize_align) l (words (this address length))
              ≡ returns (address, length ∷ [])))
      ⊎ ((slice_new usize_align bytes this ≡ panics) × (bytes 0xFF 0 ≢ this 0xFF 0))
unfolding slice_new new_inner decompose address_offset metadata_offset
slice_new-decompose n bytes this (inl b) (inl t) =
    inl (address_first, rw (b 0xFF 0, t 0xFF 0) refl, λ a k. rw (t a k) refl)
slice_new-decompose n bytes this (inr b) (inr t) =
    inl (address_last, rw (b 0xFF 0, t 0xFF 0) refl, λ a k. rw (t a k) refl)
slice_new-decompose n bytes this (inl b) (inr t) =
    inr (rw (b 0xFF 0, t 0xFF 0) refl, λ e. differ (sym (b 0xFF 0) ∙ e ∙ t 0xFF 0))
slice_new-decompose n bytes this (inr b) (inl t) =
    inr (rw (b 0xFF 0, t 0xFF 0) refl, λ e. differ (sym (t 0xFF 0) ∙ sym e ∙ b 0xFF 0))
