-- ===== src/Ptr/Pointer/Casts.antt =====
-- What casts keep of a pointer.
use native.Mathlib.Decide.{dec_lt}
use gulf.Prelude.{
  ℕ, zero, suc, ◌≤◌, ◌<◌, ◌≡◌, refl, ap, ◌∙◌, ◌⊎◌, inl, inr, true, false, leb, List, [], ◌∷◌, ◌++◌,
  length, arith,
}
use gulf.Outcome.{returns, panics}
use gulf.Hint.{Build}
use gulf.Ptr.Layout.{read}
use gulf.Ptr.Layout.Inverse.{read-whole}
use gulf.Ptr.Metadata.{cast_metadata, transmute_copy}
use gulf.Ptr.Pointer.{Compiler, Kind, pointee, compose_pointer, decompose_pointer, cast}
use gulf.Ptr.Pointer.Layouts.{StoresAlike, stored, layout-IsFound, decompose-stored}

-- The words that are read, and the words after them.
read-splits :
    (n : ℕ) (ws : List ℕ)
    → n ≤ length ws
    → (xs : List ℕ) × (ys : List ℕ) × (read n ws ≡ returns xs) × (ws ≡ xs ++ ys) × (n ≡ length xs)
unfolding read
read-splits zero ws h = ([], ws, refl, refl, refl)
read-splits (suc n) [] h = absurd (omega arith)
read-splits (suc n) (w ∷ ws) h =
    let (xs, ys, at, whole, size) = read-splits n ws (omega arith) in
    (w ∷ xs, ys, rw at refl, ap (λ t. w ∷ t) whole, omega (arith, size))

-- A cast to a pointee whose metadata is the first words that are read.
cast-stored :
    (b : Build) (c : Compiler) (from to : Kind) (address : ℕ) (metadata kept : List ℕ)
    → StoresAlike c
    → (pointee c from).metadata_words ≡ length metadata
    → (pointee c to).metadata_words ≡ length kept
    → (pointee c to).metadata_words ≤ length metadata
    → read (pointee c to).metadata_words metadata ≡ returns kept
    → cast b c from to (stored c from address metadata) ≡ returns (stored c to address kept)
unfolding cast decompose_pointer compose_pointer cast_metadata transmute_copy
cast-stored b c from to address metadata kept alike size size' fits at =
    let (l, found, valid, stores) = layout-IsFound b c from alike in
    let (k, found', valid', stores') = layout-IsFound b c to alike in
    let parts =
      decompose-stored c from l address metadata valid (stores address metadata size) size in
    let enough : leb (pointee c to).metadata_words (length metadata) ≡ true = ground arith in
    rw (found, parts, enough, at, found') (stores' address kept size')

-- The cast of the pointer that the compiler stores for an address and metadata is the one that it stores for
-- the same address and the first words of the metadata, as many as the metadata of the new pointee has; and
-- where that is all of it, casting that back gives the pointer that was cast.
abbrev pub Keeps : Build → Compiler → Kind → Kind → ℕ → List ℕ → Type 0
Keeps b c from to address metadata =
    (kept : List ℕ) × (dropped : List ℕ) × (metadata ≡ kept ++ dropped)
    × ((pointee c to).metadata_words ≡ length kept)
    × (cast b c from to (stored c from address metadata) ≡ returns (stored c to address kept))
    × (((pointee c to).metadata_words < (pointee c from).metadata_words)
        ⊎ (cast b c to from (stored c to address kept) ≡ returns (stored c from address metadata)))

cast_back :
    (b : Build) (c : Compiler) (from to : Kind) (address : ℕ) (metadata kept : List ℕ)
    → StoresAlike c
    → (pointee c from).metadata_words ≡ length metadata
    → (pointee c to).metadata_words ≡ length kept
    → (pointee c to).metadata_words ≤ length metadata
    → read (pointee c to).metadata_words metadata ≡ returns kept
    → ((pointee c to).metadata_words < (pointee c from).metadata_words)
      ⊎ (cast b c to from (stored c to address kept) ≡ returns (stored c from address metadata))
cast_back b c from to address metadata kept alike size size' fits at =
    elim (dec_lt (pointee c to).metadata_words (pointee c from).metadata_words) [
      | yes less ↦ inl less
      | no all ↦
          let whole = read-whole (pointee c to).metadata_words metadata (omega arith) in
          let same : kept ≡ metadata = cc (at, whole) in
          inr (
            cast-stored b c to from address kept metadata alike size' size (omega arith) (
              read-whole (pointee c from).metadata_words kept (omega arith)
              ∙ ap (λ m. returns m) same))
    ]

cast-Keeps :
    (b : Build) (c : Compiler) (from to : Kind) (address : ℕ) (metadata : List ℕ)
    → StoresAlike c
    → (pointee c from).metadata_words ≡ length metadata
    → (pointee c to).metadata_words ≤ length metadata
    → Keeps b c from to address metadata
cast-Keeps b c from to address metadata alike size fits =
    let (kept, dropped, at, whole, size') =
      read-splits (pointee c to).metadata_words metadata fits in
    (
      kept,
      dropped,
      whole,
      size',
      cast-stored b c from to address metadata kept alike size size' fits at,
      cast_back b c from to address metadata kept alike size size' fits at,
    )

-- A cast to a pointee with larger metadata panics, and is never undefined.
cast-panics :
    (b : Build) (c : Compiler) (from to : Kind) (address : ℕ) (metadata : List ℕ)
    → StoresAlike c
    → (pointee c from).metadata_words ≡ length metadata
    → length metadata < (pointee c to).metadata_words
    → cast b c from to (stored c from address metadata) ≡ panics
unfolding cast decompose_pointer cast_metadata transmute_copy
cast-panics b c from to address metadata alike size more =
    let (l, found, valid, stores) = layout-IsFound b c from alike in
    let parts =
      decompose-stored c from l address metadata valid (stores address metadata size) size in
    let short : leb (pointee c to).metadata_words (length metadata) ≡ false = ground arith in
    rw (found, parts, short) refl

-- What a cast does, by whether the metadata of the new pointee fits.
abbrev pub Casts : Build → Compiler → Kind → Kind → ℕ → List ℕ → Type 0
Casts b c from to address metadata =
    Keeps b c from to address metadata
    ⊎ (((pointee c from).metadata_words < (pointee c to).metadata_words)
        × (cast b c from to (stored c from address metadata) ≡ panics))

-- Where slices store an address and a length in one order, a cast of the pointer that the compiler stores for
-- an address and metadata gives the one that it stores for the same address and the metadata of the new
-- pointee, whatever the two pointees are, and where the two metadata have one size the cast back gives the
-- pointer; or it panics, where the new metadata is larger than the pointer's. It is never undefined.
pub cast-Casts :
    (b : Build) (c : Compiler) (from to : Kind) (address : ℕ) (metadata : List ℕ)
    → StoresAlike c
    → (pointee c from).metadata_words ≡ length metadata
    → Casts b c from to address metadata
cast-Casts b c from to address metadata alike size =
    elim (dec_lt (length metadata) (pointee c to).metadata_words) [
      | yes more ↦ inr (omega arith, cast-panics b c from to address metadata alike size more)
      | no fits ↦ inl (cast-Keeps b c from to address metadata alike size (omega arith))
    ]
